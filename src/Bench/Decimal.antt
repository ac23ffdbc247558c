-- ===== src/Bench/Decimal.antt =====
-- `std::to_string` of a `std::size_t`, and the digits that `std::stoull` reads.
use agent_kv.Prelude.{
  ℕ, zero, suc, ◌+◌, ◌-◌, ◌*◌, ◌/◌, ◌%◌, ◌^◌, ◌≤◌, ◌<◌, Bytes, [], ◌∷◌, ◌++◌, append_assoc, Bool,
  true, ◌&&◌, ltb, leb, if◌then◌else◌, ◌≡◌, refl, sym, ap, ◌∙◌, arith, ltb→lt, lt→ltb, Bool-cases,
  inl, inr,
}

-- At most `fuel` digits.
unfoldable pub decimal : ℕ → ℕ → Bytes
decimal zero n = []
decimal (suc fuel) n =
    let front = decimal fuel (n / 10) in
    if ltb n 10 then (48 + n) ∷ [] else front ++ ((48 + n % 10) ∷ [])

-- A number of 64 bits has at most 20 digits.
unfoldable pub to_string : ℕ → Bytes
to_string n = decimal 20 n

unfoldable pub is_digit : ℕ → Bool
is_digit c = leb 48 c && leb c 57

-- The value of the digits at the front, behind those read already, and what follows them.
unfoldable pub take_digits : ℕ → Bytes → ℕ × Bytes
take_digits value [] = (value, [])
take_digits value (c ∷ cs) =
    if is_digit c then take_digits (value * 10 + (c - 48)) cs else (value, c ∷ cs)

-- One more digit.
take_digits-digit :
    (value d : ℕ) (rest : Bytes)
    → d < 10
    → take_digits value ((48 + d) ∷ rest) ≡ take_digits (value * 10 + d) rest
unfolding take_digits is_digit
take_digits-digit value d rest small =
    let up : leb 48 (48 + d) ≡ true = ground arith in
    let down : leb (48 + d) 57 ≡ true = ground arith in
    let same : 48 + d - 48 ≡ d = omega arith in rw (up, down, same)

-- `n` has at most `fuel` digits.
abbrev Short : ℕ → ℕ → Type 0
Short zero n = n ≡ 0
Short (suc fuel) n = Short fuel (n / 10)

take_digits-decimal :
    (fuel n : ℕ) (rest : Bytes)
    → Short fuel n
    → take_digits 0 (decimal fuel n ++ rest) ≡ take_digits n rest
unfolding decimal
take_digits-decimal zero n rest short = rw short
take_digits-decimal (suc fuel) n rest short = elim (Bool-cases (ltb n 10)) [
  | inl small ↦
      rw small (
        take_digits-digit 0 n rest (ltb→lt n 10 small) ∙ ap (λ m. take_digits m rest) (omega arith))
  | inr large ↦
      let whole : n / 10 * 10 + n % 10 ≡ n = omega arith in
      rw (large, append_assoc)
        (take_digits-decimal fuel (n / 10) ((48 + n % 10) ∷ rest) short
          ∙ take_digits-digit (n / 10) (n % 10) rest (omega arith)
          ∙ ap (λ m. take_digits m rest) whole)
]

to_string-Short : (n : ℕ) → n < 2 ^ 64 → Short 20 n
to_string-Short n small = omega arith

-- Reading back what was printed gives the number, and leaves what follows it.
pub take_digits-to_string :
    (n : ℕ) (rest : Bytes) → n < 2 ^ 64 → take_digits 0 (to_string n ++ rest) ≡ take_digits n rest
unfolding to_string
take_digits-to_string n rest small = take_digits-decimal 20 n rest (to_string-Short n small)

-- A number begins with a digit.
pub record IsNumeral (s : Bytes) : Type 0 where
  pub first : ℕ
  pub others : Bytes
  pub shape : s ≡ first ∷ others
  pub low : 48 ≤ first
  pub high : first ≤ 57

IsNumeral-append : {s : Bytes} (more : Bytes) → IsNumeral s → IsNumeral (s ++ more)
IsNumeral-append more i = record {
  first = i.first;
  others = i.others ++ more;
  shape = ap (λ b. b ++ more) i.shape;
  low = i.low;
  high = i.high;
}

decimal-IsNumeral : (fuel n : ℕ) → Short (suc fuel) n → IsNumeral (decimal (suc fuel) n)
unfolding decimal
decimal-IsNumeral zero n short =
    let small : n < 10 = omega arith in
    rw (lt→ltb n 10 small)
      (record { first = 48 + n; others = []; shape = refl; low = omega arith; high = omega arith })
decimal-IsNumeral (suc fuel) n short = elim (Bool-cases (ltb n 10)) [
  | inl small ↦
      let bound = ltb→lt n 10 small in
      rw small (record {
        first = 48 + n;
        others = [];
        shape = refl;
        low = omega arith;
        high = omega arith;
      })
  | inr large ↦
      rw large (IsNumeral-append ((48 + n % 10) ∷ []) (decimal-IsNumeral fuel (n / 10) short))
]

pub to_string-IsNumeral : (n : ℕ) → n < 2 ^ 64 → IsNumeral (to_string n)
unfolding to_string
to_string-IsNumeral n small = decimal-IsNumeral 19 n (to_string-Short n small)

-- Different numbers print differently.
pub to_string-injective : (m n : ℕ) → m < 2 ^ 64 → n < 2 ^ 64 → to_string m ≡ to_string n → m ≡ n
unfolding take_digits
to_string-injective m n small small' same =
    let read : (k : ℕ) → k < 2 ^ 64 → (take_digits 0 (to_string k ++ [])).0 ≡ k =
      λ k s. ap (λ r. r.0) (take_digits-to_string k [] s) in
    sym (read m small) ∙ ap (λ b. (take_digits 0 (b ++ [])).0) same ∙ read n small'
