-- ===== src/StringUtils/Unique.antt =====
-- A text has its words in one way only, so joining tokens with white space can be undone.
use agent_kv.Prelude.{
  Bytes, List, [], ◌∷◌, ◌++◌, All, false, ◌≡◌, refl, sym, ap, subst, ◌∙◌, append-nil, if_true,
  if_false,
}
use agent_kv.StringUtils.{is_space, skip_spaces, take_token, split_whitespace_view}
use agent_kv.StringUtils.Split.{
  IsToken, AllSpaces, StartsNoToken, Words, blank, word, split_whitespace_view-Words,
}

skip_spaces-spaces :
    (spaces start : Bytes) → AllSpaces spaces → skip_spaces (spaces ++ start) ≡ skip_spaces start
unfolding skip_spaces
skip_spaces-spaces [] start _ = refl
skip_spaces-spaces (c ∷ cs) start (space, all) =
    if_true _ _ _ space ∙ skip_spaces-spaces cs start all

skip_spaces-token :
    (token rest : Bytes) → IsToken token → skip_spaces (token ++ rest) ≡ token ++ rest
unfolding skip_spaces
skip_spaces-token [] rest (ne, _) = absurd (ne refl)
skip_spaces-token (c ∷ cs) rest (_, (other, _)) = if_false _ _ _ other

take_token-stops : (rest : Bytes) → StartsNoToken rest → take_token rest ≡ ([], rest)
unfolding take_token
take_token-stops [] _ = refl
take_token-stops (c ∷ cs) space = if_true _ _ _ space

take_token-token :
    (token rest : Bytes)
    → All (λ c. is_space c ≡ false) token
    → StartsNoToken rest
    → take_token (token ++ rest) ≡ (token, rest)
unfolding take_token
take_token-token [] rest _ stops = take_token-stops rest stops
take_token-token (c ∷ cs) rest (other, all) stops =
    (if_false _ _ _ other
      ∙ ap (λ (r : Bytes × Bytes). (c ∷ r.0, r.1)) (take_token-token cs rest all stops))

-- The first word and what follows it, from the text alone.
first_word :
    {input : Bytes} (spaces token rest : Bytes)
    → AllSpaces spaces
    → IsToken token
    → StartsNoToken rest
    → spaces ++ (token ++ rest) ≡ input
    → take_token (skip_spaces input) ≡ (token, rest)
first_word {input} spaces token rest all t stops joined =
    ap (λ b. take_token (skip_spaces b)) (sym joined)
    ∙ ap take_token (skip_spaces-spaces spaces (token ++ rest) all ∙ skip_spaces-token token rest t)
    ∙ take_token-token token rest t.1 stops

no_word : (input : Bytes) → AllSpaces input → take_token (skip_spaces input) ≡ ([], [])
unfolding skip_spaces take_token
no_word input all =
    ap (λ b. take_token (skip_spaces b)) (sym (append-nil input))
    ∙ ap take_token (skip_spaces-spaces input [] all)

blank-ne-word :
    {input : Bytes} (spaces token rest : Bytes)
    → AllSpaces spaces
    → IsToken token
    → StartsNoToken rest
    → spaces ++ (token ++ rest) ≡ input
    → ¬ AllSpaces input
blank-ne-word {input} spaces token rest all t stops joined blank_input = t.0 (
    ap (λ (r : Bytes × Bytes). r.0)
      (sym (first_word spaces token rest all t stops joined) ∙ no_word input blank_input))

Words-eq : {i j : Bytes} {a b : List Bytes} → Words i a → Words j b → i ≡ j → a ≡ b
Words-eq (blank all) (blank all') e = refl
Words-eq (blank all) (word spaces token rest all' t stops joined w) e =
    absurd (blank-ne-word spaces token rest all' t stops joined (subst AllSpaces e all))
Words-eq (word spaces token rest all t stops joined w) (blank all') e =
    absurd (blank-ne-word spaces token rest all t stops joined (subst AllSpaces (sym e) all'))
Words-eq (word spaces token rest all t stops joined w)
      (word spaces' token' rest' all' t' stops' joined' w') e =
    let same : ◌≡◌ {A = Bytes × Bytes} (token, rest) (token', rest') =
      sym (first_word spaces token rest all t stops (joined ∙ e))
      ∙ first_word spaces' token' rest' all' t' stops' joined' in
    let heads : token ≡ token' = ap (λ (r : Bytes × Bytes). r.0) same in
    let tails = Words-eq w w' (ap (λ (r : Bytes × Bytes). r.1) same) in cc (heads, tails)

-- Whatever words a text has by its shape, `SplitWhitespaceView` returns exactly those.
pub split_whitespace_view-eq :
    (input : Bytes) (tokens : List Bytes)
    → Words input tokens
    → split_whitespace_view input ≡ tokens
split_whitespace_view-eq input tokens w = Words-eq (split_whitespace_view-Words input) w refl
