-- ===== src/StringUtils/Trim.antt =====
-- `Trim` takes the white space off both ends and nothing else.
use agent_kv.Prelude.{
  ℕ, zero, suc, ◌+◌, ◌-◌, ◌≤◌, ◌<◌, Bytes, [], ◌∷◌, ◌++◌, append_assoc, length, length-append,
  length-take, length-drop, take, drop, drop-drop, drop-all, take-append-drop, true, false, ◌≡◌,
  refl, sym, ap, subst, ◌∙◌, arith, if_true, if_false, Bool-cases, inl, inr, ltb, ◌&&◌,
}
use agent_kv.StringUtils.{is_space, byte_at, trim_begin, trim_end, trim, skip_spaces}
use agent_kv.StringUtils.Split.{AllSpaces, StartsToken, skip_spaces-Skipped}

-- The first loop stops where `skip_spaces` does.
drop-trim_begin :
    (rest input : Bytes) (begin : ℕ)
    → begin ≤ length input
    → drop begin input ≡ rest
    → (drop (trim_begin rest begin) input ≡ skip_spaces rest)
      × (trim_begin rest begin ≤ length input)
unfolding trim_begin skip_spaces
drop-trim_begin [] input begin le e = (e, le)
drop-trim_begin (c ∷ cs) input begin le e = elim (Bool-cases (is_space c)) [
  | inl space ↦
      let next : drop (begin + 1) input ≡ cs = sym (drop-drop begin 1 input) ∙ ap (drop 1) e in
      rw space (
        drop-trim_begin cs input (begin + 1) (omega (arith, ap length e, length-drop begin input))
          next)
  | inr other ↦ rw other (e, le)
]

drop-byte_at :
    (input : Bytes) (i : ℕ) → i < length input → drop i input ≡ byte_at input i ∷ drop (suc i) input
unfolding byte_at
drop-byte_at [] i h = absurd (omega arith)
drop-byte_at (c ∷ cs) zero h = refl
drop-byte_at (c ∷ cs) (suc i) h = drop-byte_at cs i (omega arith)

-- Where the second loop stops: between its bounds, with white space behind, and none before it.
record Ends (input : Bytes) (begin bound end : ℕ) : Type 0 where
  low : begin ≤ end
  high : end ≤ bound
  behind : AllSpaces (drop end input)
  last : begin < end → is_space (byte_at input (end - 1)) ≡ false

trim_end-Ends :
    (input : Bytes) (begin end : ℕ)
    → begin ≤ end
    → end ≤ length input
    → AllSpaces (drop end input)
    → Ends input begin end (trim_end input begin end)
unfolding trim_end
trim_end-Ends input begin zero le fits all = record {
  low = le;
  high = omega arith;
  behind = all;
  last = λ h. absurd (omega arith);
}
trim_end-Ends input begin (suc end) le fits all =
    elim (Bool-cases (ltb begin (suc end) && is_space (byte_at input end))) [
      | inl more ↦
          let space : is_space (byte_at input end) ≡ true = ground arith in
          let inside : begin ≤ end = ground arith in
          let all' = subst AllSpaces (sym (drop-byte_at input end (omega arith))) (space, all) in
          let r = trim_end-Ends input begin end inside (omega arith) all' in
          subst (Ends input begin (suc end)) (sym (if_true _ _ _ more))
            (record { low = r.low; high = omega (arith, r.high); behind = r.behind; last = r.last })
      | inr stop ↦ subst (Ends input begin (suc end)) (sym (if_false _ _ _ stop)) (record {
        low = le;
        high = omega arith;
        behind = all;
        last = λ h. let e : suc end - 1 ≡ end = omega arith in rw e (ground arith);
      })
    ]

-- The text with no white space at its ends, between what was taken off.
pub record Trimmed (input text : Bytes) : Type 0 where
  pub front : Bytes
  pub back : Bytes
  pub before : AllSpaces front
  pub behind : AllSpaces back
  pub joined : front ++ (text ++ back) ≡ input
  pub starts : StartsToken text
  pub ends : (init : Bytes) (c : ℕ) → text ≡ init ++ (c ∷ []) → is_space c ≡ false

byte_at-drop : (b i : ℕ) (input : Bytes) → byte_at (drop b input) i ≡ byte_at input (b + i)
unfolding byte_at
byte_at-drop zero i input = let e : zero + i ≡ i = omega arith in rw e
byte_at-drop (suc b) i [] = refl
byte_at-drop (suc b) i (c ∷ cs) =
    let e : suc b + i ≡ suc (b + i) = omega arith in rw e (byte_at-drop b i cs)

byte_at-append : (init rest : Bytes) (c : ℕ) → byte_at (init ++ (c ∷ rest)) (length init) ≡ c
unfolding byte_at
byte_at-append [] rest c = refl
byte_at-append (x ∷ init) rest c = byte_at-append init rest c

take-StartsToken : (n : ℕ) (text : Bytes) → StartsToken text → StartsToken (take n text)
take-StartsToken zero text h = tt
take-StartsToken (suc n) [] h = tt
take-StartsToken (suc n) (c ∷ cs) h = h

module _ (input : Bytes) (begin end : ℕ) (e : drop begin input ≡ skip_spaces input)
    (fits : begin ≤ length input) (r : Ends input begin (length input) end) where
  rest-eq : drop (end - begin) (drop begin input) ≡ drop end input
  rest-eq =
      let sum : begin + (end - begin) ≡ end = omega (arith, r.low) in
      drop-drop begin (end - begin) input ∙ ap (λ k. drop k input) sum

  last-byte :
      (init : Bytes) (c : ℕ)
      → take (end - begin) (drop begin input) ≡ init ++ (c ∷ [])
      → is_space c ≡ false
  last-byte init c shape =
      let size' : end - begin ≡ length init + 1 = omega (
        arith,
        ap length shape,
        length-append init (c ∷ []),
        length-take (end - begin) (drop begin input),
        length-drop begin input,
        r.low,
        r.high,
      ) in
      let rest : Bytes = drop (end - begin) (drop begin input) in
      let whole : drop begin input ≡ init ++ (c ∷ rest) =
        sym (take-append-drop (end - begin) (drop begin input))
        ∙ ap (λ t. t ++ rest) shape
        ∙ append_assoc init (c ∷ []) rest in
      let place : begin + length init ≡ end - 1 = omega (arith, size') in
      let found : byte_at input (end - 1) ≡ c =
        ap (byte_at input) (sym place)
        ∙ sym (byte_at-drop begin (length init) input)
        ∙ ap (λ b. byte_at b (length init)) whole
        ∙ byte_at-append init rest c in
      subst (λ b. is_space b ≡ false) found (r.last (omega (arith, size')))

-- `Trim` returns the input without the white space at its ends, and with all that is between.
pub trim-Trimmed : (input : Bytes) → Trimmed input (trim input)
unfolding trim
trim-Trimmed input =
    let s = skip_spaces-Skipped input in
    let (dropped, fits) = drop-trim_begin input input 0 (omega arith) refl in
    let begin : ℕ = trim_begin input 0 in
    let r =
      trim_end-Ends input begin (length input) fits (omega arith)
        (subst AllSpaces (sym (drop-all (length input) input (omega arith))) tt) in
    let end : ℕ = trim_end input begin (length input) in
    record {
      front = s.spaces;
      back = drop (end - begin) (drop begin input);
      before = s.all;
      behind = subst AllSpaces (sym (rest-eq input begin end dropped fits r)) r.behind;
      joined =
          ap (λ t. s.spaces ++ t) (take-append-drop (end - begin) (drop begin input) ∙ dropped)
          ∙ s.joined;
      starts =
          take-StartsToken (end - begin) (drop begin input)
            (subst StartsToken (sym dropped) s.stops);
      ends = last-byte input begin end dropped fits r;
    }
