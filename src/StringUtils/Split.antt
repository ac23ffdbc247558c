-- ===== src/StringUtils/Split.antt =====
-- `SplitWhitespaceView` ends on every input, finds words only, and undoes joining them.
use agent_kv.Prelude.{
  ℕ, zero, suc, ◌<◌, Bytes, List, [], ◌∷◌, ◌++◌, length, length-append, All, Option, some, true,
  false, ◌≡◌, ◌≢◌, refl, sym, ap, subst, ◌∙◌, arith, append_assoc, append-nil, Bool-cases, inl, inr,
  if_true, if_false,
}
use agent_kv.StringUtils.{
  is_space, skip_spaces, take_token, add_token, split_loop, or_no_tokens, split_whitespace_view,
}

length-ne-nil : (xs : Bytes) → xs ≢ [] → 0 < length xs
length-ne-nil [] h = absurd (h refl)
length-ne-nil (x ∷ xs) h = omega arith

-- A token has a byte, and no white space.
abbrev pub IsToken : Bytes → Type 0
IsToken token = (token ≢ []) × All (λ c. is_space c ≡ false) token

abbrev pub AllSpaces : Bytes → Type 0
AllSpaces = All (λ c. is_space c ≡ true)

-- A text that starts with no token: it is empty, or starts with white space.
abbrev pub StartsNoToken : Bytes → Type 0
StartsNoToken [] = Unit
StartsNoToken (c ∷ cs) = is_space c ≡ true

-- A text that is empty or starts with a token.
abbrev pub StartsToken : Bytes → Type 0
StartsToken [] = Unit
StartsToken (c ∷ cs) = is_space c ≡ false

-- The words of a text, by its shape: white space, a token up to the next white space, and so on.
pub data Words : Bytes → List Bytes → Type 0 where
  blank : {input : Bytes} → AllSpaces input → Words input []
  word :
      {input : Bytes} {tokens : List Bytes} (spaces token rest : Bytes)
      → AllSpaces spaces
      → IsToken token
      → StartsNoToken rest
      → spaces ++ (token ++ rest) ≡ input
      → Words rest tokens
      → Words input (token ∷ tokens)

pub record Skipped (input start : Bytes) : Type 0 where
  pub spaces : Bytes
  pub all : AllSpaces spaces
  pub joined : spaces ++ start ≡ input
  pub stops : StartsToken start

pub skip_spaces-Skipped : (input : Bytes) → Skipped input (skip_spaces input)
unfolding skip_spaces
skip_spaces-Skipped [] = record { spaces = []; all = tt; joined = refl; stops = tt }
skip_spaces-Skipped (c ∷ cs) = elim (Bool-cases (is_space c)) [
  | inl space ↦
      let r = skip_spaces-Skipped cs in
      subst (Skipped (c ∷ cs)) (sym (if_true _ _ _ space)) (record {
        spaces = c ∷ r.spaces;
        all = (space, r.all);
        joined = ap (λ b. c ∷ b) r.joined;
        stops = r.stops;
      })
  | inr other ↦
      subst (Skipped (c ∷ cs)) (sym (if_false _ _ _ other))
        (record { spaces = []; all = tt; joined = refl; stops = other })
]

record Taken (input : Bytes) (r : Bytes × Bytes) : Type 0 where
  joined : r.0 ++ r.1 ≡ input
  all : All (λ c. is_space c ≡ false) r.0
  stops : StartsNoToken r.1

take_token-Taken : (input : Bytes) → Taken input (take_token input)
unfolding take_token
take_token-Taken [] = record { joined = refl; all = tt; stops = tt }
take_token-Taken (c ∷ cs) = elim (Bool-cases (is_space c)) [
  | inl space ↦
      subst (Taken (c ∷ cs)) (sym (if_true _ _ _ space))
        (record { joined = refl; all = tt; stops = space })
  | inr other ↦
      let r = take_token-Taken cs in
      subst (Taken (c ∷ cs)) (sym (if_false _ _ _ other))
        (record { joined = ap (λ b. c ∷ b) r.joined; all = (other, r.all); stops = r.stops })
]

-- From the start of a token, a token is taken.
take_token-IsToken : (c : ℕ) (cs : Bytes) → is_space c ≡ false → (take_token (c ∷ cs)).0 ≢ []
unfolding take_token
take_token-IsToken c cs other e = ground arith

-- The outcome of the outer loop, from the tokens so far.
record Found (input : Bytes) (tokens : List Bytes) (r : Option (List Bytes)) : Type 0 where
  more : List Bytes
  found : r ≡ some (tokens ++ more)
  words : Words input more

split_loop-nil :
    (fuel : ℕ) (tokens : List Bytes) → 0 < fuel → split_loop fuel [] tokens ≡ some tokens
unfolding split_loop
split_loop-nil zero tokens h = absurd (omega arith)
split_loop-nil (suc fuel) tokens h = refl

add_token-append :
    (tokens : List Bytes) (token : Bytes)
    → token ≢ []
    → add_token tokens token ≡ tokens ++ (token ∷ [])
unfolding add_token
add_token-append tokens [] ne = absurd (ne refl)
add_token-append tokens (c ∷ cs) ne = refl

-- One round, from the text behind the separators.
round :
    (fuel : ℕ) (c : ℕ) (cs start : Bytes) (tokens : List Bytes)
    → Skipped (c ∷ cs) start
    → length cs < fuel
    → ((rest : Bytes) (done : List Bytes)
        → length rest < fuel
        → Found rest done (split_loop fuel rest done))
    → Found
        (c ∷ cs)
        tokens
        (split_loop fuel (take_token start).1 (add_token tokens (take_token start).0))
round fuel c cs [] tokens s enough goes = record {
  more = [];
  found = ends ∙ ap some (sym (append-nil tokens));
  words = blank (subst AllSpaces (sym (append-nil s.spaces) ∙ s.joined) s.all);
}
  where
    ends : split_loop fuel (take_token []).1 (add_token tokens (take_token []).0) ≡ some tokens
    ends = unfold take_token add_token in split_loop-nil fuel tokens (omega arith)
round fuel c cs (d ∷ ds) tokens s enough goes =
    let t = take_token-Taken (d ∷ ds) in
    let token : Bytes = (take_token (d ∷ ds)).0 in
    let rest : Bytes = (take_token (d ∷ ds)).1 in
    let ne = take_token-IsToken d ds s.stops in
    let shorter : length rest < fuel = omega (
      arith,
      ap length s.joined,
      ap length t.joined,
      length-append s.spaces (d ∷ ds),
      length-append token rest,
      length-ne-nil token ne,
    ) in
    let r = goes rest (add_token tokens token) shorter in
    record {
      more = token ∷ r.more;
      found =
          r.found
          ∙ ap (λ done. some (done ++ r.more)) (add_token-append tokens token ne)
          ∙ ap some (append_assoc tokens (token ∷ []) r.more);
      words =
          word s.spaces token rest s.all (ne, t.all) t.stops
            (ap (λ b. s.spaces ++ b) t.joined ∙ s.joined) r.words;
    }

split_loop-Found :
    (fuel : ℕ) (input : Bytes) (tokens : List Bytes)
    → length input < fuel
    → Found input tokens (split_loop fuel input tokens)
unfolding split_loop
split_loop-Found zero input tokens h = absurd (omega arith)
split_loop-Found (suc fuel) [] tokens h = record {
  more = [];
  found = ap some (sym (append-nil tokens));
  words = blank tt;
}
split_loop-Found (suc fuel) (c ∷ cs) tokens h =
    round fuel c cs (skip_spaces (c ∷ cs)) tokens (skip_spaces-Skipped (c ∷ cs)) (omega arith)
      (split_loop-Found fuel)

-- The tokens of a text are its words, in order: the loop ends on every text within its fuel, and what
-- it returns are the runs of bytes with no white space, each as long as it can be.
pub split_whitespace_view-Words : (input : Bytes) → Words input (split_whitespace_view input)
unfolding split_whitespace_view
split_whitespace_view-Words input =
    let r = split_loop-Found (suc (length input)) input [] (omega arith) in
    subst (λ o. Words input (or_no_tokens o)) (sym r.found) r.words

pub Words-IsToken : {input : Bytes} {tokens : List Bytes} → Words input tokens → All IsToken tokens
Words-IsToken (blank _) = tt
Words-IsToken (word spaces token rest _ t _ _ w) = (t, Words-IsToken w)
