-- ===== src/Bench/Options/Requested.antt =====
-- What the benchmark's argument may be, and what it stands for.
use agent_kv.Prelude.{
  ℕ, ◌-◌, ◌%◌, ◌^◌, ◌≤◌, ◌<◌, Bytes, bytes_eq, bytes_eq-ne, codes, List, [], ◌∷◌, append-nil,
  length, Bool, true, false, ◌||◌, leb, ◌==◌, ==_iff, ltb-false, ◌≡◌, ◌≢◌, refl, sym, ap, ◌∙◌,
  arith, Bool-cases, inl, inr,
}
use agent_kv.Exec.{Result, ok, err}
use agent_kv.StringUtils.{skip_spaces, is_space}
use agent_kv.Bench.Decimal.{take_digits, to_string, take_digits-to_string, to_string-IsNumeral}
use agent_kv.Bench.Options.{
  sign, negated, converted, signed, stoull, is_refused, checked, parse_count, parse_operations,
}

-- An accepted count fits in 64 bits and is not 0.
abbrev pub InRange : Result ℕ → Type 0
InRange (ok n) = (1 ≤ n) × (n < 2 ^ 64)
InRange (err _) = Unit

checked-InRange : (input : Bytes) (r : Result (ℕ × ℕ)) → InRange (checked input r)
unfolding checked
checked-InRange input (err e) = tt
checked-InRange input (ok (n, used)) = ground arith

-- Every command line is refused or gives a count from 1 to 2 ^ 64 - 1.
pub parse_operations-InRange : (arguments : List Bytes) → InRange (parse_operations arguments)
unfolding parse_operations parse_count
parse_operations-InRange [] = tt
parse_operations-InRange (program ∷ []) = (omega arith, omega arith)
parse_operations-InRange (program ∷ input ∷ []) =
    elim (Bool-cases (bytes_eq input (codes "--help") || bytes_eq input (codes "-h"))) [
      | inl help ↦ rw help tt
      | inr other ↦ elim (Bool-cases (is_refused input)) [
        | inl bad ↦ rw (other, bad) tt
        | inr fine ↦ rw (other, fine) (checked-InRange input (stoull input))
      ]
    ]
parse_operations-InRange (program ∷ input ∷ more ∷ rest) = tt

module _ (n : ℕ) (small : n < 2 ^ 64) where
  -- Behind its sign, a printed number converts.
  signed-to_string :
      (size : ℕ) (minus : Bool) → signed size (minus, to_string n) ≡ ok (negated minus n, size)
  unfolding signed converted take_digits
  signed-to_string size minus =
      let read =
        ap (take_digits 0) (sym (append-nil (to_string n))) ∙ take_digits-to_string n [] small in
      let i = to_string-IsNumeral n small in
      let long : 1 ≤ length (to_string n) = omega (arith, ap length i.shape) in
      let other : (0 == length (to_string n)) ≡ false = ground arith in
      let fits : leb (2 ^ 64) n ≡ false = ground arith in
      let whole : size - 0 ≡ size = omega arith in rw (read, other, fits, whole)

  -- A printed number has neither white space nor a sign in front.
  skip_spaces-to_string : skip_spaces (to_string n) ≡ to_string n
  unfolding skip_spaces is_space
  skip_spaces-to_string =
      let i = to_string-IsNumeral n small in
      let low = i.low in let other : is_space i.first ≡ false = ground arith in rw (i.shape, other)

  sign-to_string : sign (to_string n) ≡ (false, to_string n)
  unfolding sign
  sign-to_string =
      let i = to_string-IsNumeral n small in
      let low = i.low in
      let no_minus : (i.first == b'-') ≡ false = ground arith in
      let no_plus : (i.first == b'+') ≡ false = ground arith in rw (i.shape, no_minus, no_plus)

  stoull-to_string : stoull (to_string n) ≡ ok (n, length (to_string n))
  unfolding stoull
  stoull-to_string =
      ap (λ b. signed (length (to_string n)) (sign b)) skip_spaces-to_string
      ∙ ap (signed (length (to_string n))) sign-to_string
      ∙ signed-to_string (length (to_string n)) false

  -- Behind a space and a minus sign the number is negated.
  stoull-blank_minus :
      stoull (32 ∷ 45 ∷ to_string n) ≡ ok (negated true n, length {A = ℕ} (32 ∷ 45 ∷ to_string n))
  unfolding stoull skip_spaces is_space sign
  stoull-blank_minus = signed-to_string _ true

  module _ (positive : 1 ≤ n) where
    checked-whole :
        (input : Bytes) (m : ℕ) → 1 ≤ m → m < 2 ^ 64 → checked input (ok (m, length input)) ≡ ok m
    unfolding checked
    checked-whole input m some fits =
        let all : (length input == length input) ≡ true =
          (==_iff (length input) (length input)).1 refl in
        let no_zero : (m == 0) ≡ false = ground arith in
        rw (all, no_zero, ltb-false (2 ^ 64 - 1) m (omega arith))

    no_dash : (word : Bytes) → to_string n ≢ (45 ∷ word)
    no_dash word e =
        let i = to_string-IsNumeral n small in
        let low = i.low in
        let first : i.first ≡ 45 = ap head (sym i.shape ∙ e) in absurd (omega arith)
      where
        head : Bytes → ℕ
        head [] = 0
        head (c ∷ cs) = c

    parse_count-to_string : parse_count (to_string n) ≡ ok n
    unfolding parse_count
    parse_count-to_string =
        let i = to_string-IsNumeral n small in
        let low = i.low in
        let fine : is_refused (to_string n) ≡ false =
          let other : (i.first == b'-') ≡ false = ground arith in ap is_refused i.shape ∙ other in
        rw (fine, stoull-to_string) (checked-whole (to_string n) n positive small)

    -- A count from 1 to 2 ^ 64 - 1, given in decimal, is read as itself.
    pub parse_operations-to_string :
        (program : Bytes) → parse_operations (program ∷ to_string n ∷ []) ≡ ok n
    unfolding parse_operations
    parse_operations-to_string program =
        rw
          (
            bytes_eq-ne (to_string n) (codes "--help") (no_dash (codes "-help")),
            bytes_eq-ne (to_string n) (codes "-h") (no_dash (codes "h")),
          )
          parse_count-to_string

    -- A negative count from -1 to 1 - 2 ^ 64 with a space in front of its sign is not refused: it is
    -- read as the count that is 2 ^ 64 larger.
    pub parse_operations-blank_minus :
        (program : Bytes)
        → parse_operations (program ∷ (32 ∷ 45 ∷ to_string n) ∷ []) ≡ ok (2 ^ 64 - n)
    unfolding parse_operations parse_count bytes_eq
    parse_operations-blank_minus program =
        let wrapped : (2 ^ 64 - n) % 2 ^ 64 ≡ 2 ^ 64 - n = omega arith in
        rw (stoull-blank_minus, wrapped)
          (checked-whole (32 ∷ 45 ∷ to_string n) (2 ^ 64 - n) (omega arith) (omega arith))
