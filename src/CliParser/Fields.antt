-- ===== src/CliParser/Fields.antt =====
-- What the fields of a parsed command hold, whatever the line.
use agent_kv.Prelude.{
  Bytes, List, [], ◌∷◌, All, Bool, true, false, ◌≡◌, ◌≢◌, refl, subst, sym, if◌then◌else◌,
}
use mathlib.Core.List.{cons≢nil}
use agent_kv.StringUtils.{split_whitespace_view}
use agent_kv.StringUtils.Split.{IsToken, Words, blank, word, split_whitespace_view-Words}
use agent_kv.CliParser.{
  Command, CommandType, plain, join_tokens, make_invalid_command, dispatch, parse_set, parse_get,
  parse_delete, parse_clear_persistence, parse_clear, parse_tokens, parse,
}
use agent_kv.CliParser.Render.{parse-split}

-- The tokens behind a value, joined by single spaces.
pub record IsValue (value : Bytes) : Type 0 where
  pub tokens : List Bytes
  pub all : All IsToken tokens
  pub some_token : tokens ≢ []
  pub joined : value ≡ join_tokens tokens

-- The fields that belong to a type of command: a key is one token, a value is joined from tokens,
-- and a message is there exactly in a command that is not valid.
abbrev pub HasFields : CommandType → Command → Type 0
HasFields CommandType.set c = IsToken c.key × IsValue c.value × (c.error_message ≡ [])
HasFields CommandType.get c = IsToken c.key × (c.value ≡ []) × (c.error_message ≡ [])
HasFields CommandType.del c = IsToken c.key × (c.value ≡ []) × (c.error_message ≡ [])
HasFields CommandType.invalid c = (c.key ≡ []) × (c.value ≡ []) × (c.error_message ≢ [])
HasFields _ c = (c.key ≡ []) × (c.value ≡ []) × (c.error_message ≡ [])

pub record IsCommand (c : Command) : Type 0 where
  pub fields : HasFields c.type c

refused : (c : _) (message : Bytes) → IsCommand (make_invalid_command (c ∷ message))
refused c message = record { fields = (refl, refl, λ e. cons≢nil e) }

either : (b : Bool) {x y : Command} → IsCommand x → IsCommand y → IsCommand (if b then x else y)
either true x y = x
either false x y = y

parse_set-IsCommand :
    (arguments : List Bytes) → All IsToken arguments → IsCommand (parse_set arguments)
unfolding parse_set
parse_set-IsCommand [] _ = refused _ _
parse_set-IsCommand (key ∷ []) _ = refused _ _
parse_set-IsCommand (key ∷ value ∷ values) (k, all) = record {
  fields = (
    k,
    record { tokens = value ∷ values; all = all; some_token = λ e. cons≢nil e; joined = refl },
    refl,
  );
}

parse_get-IsCommand :
    (arguments : List Bytes) → All IsToken arguments → IsCommand (parse_get arguments)
unfolding parse_get
parse_get-IsCommand [] _ = refused _ _
parse_get-IsCommand (key ∷ []) (k, _) = record { fields = (k, refl, refl) }
parse_get-IsCommand (key ∷ _ ∷ _) _ = refused _ _

parse_delete-IsCommand :
    (arguments : List Bytes) → All IsToken arguments → IsCommand (parse_delete arguments)
unfolding parse_delete
parse_delete-IsCommand [] _ = refused _ _
parse_delete-IsCommand (key ∷ []) (k, _) = record { fields = (k, refl, refl) }
parse_delete-IsCommand (key ∷ _ ∷ _) _ = refused _ _

bare : (type : CommandType) → HasFields type (plain type) → IsCommand (plain type)
bare type h = record { fields = h }

parse_clear_persistence-IsCommand :
    (arguments : List Bytes) → IsCommand (parse_clear_persistence arguments)
unfolding parse_clear_persistence
parse_clear_persistence-IsCommand [] = bare CommandType.clear_persistence (refl, refl, refl)
parse_clear_persistence-IsCommand (_ ∷ _) = refused _ _

parse_clear-IsCommand : (arguments : List Bytes) → IsCommand (parse_clear arguments)
unfolding parse_clear
parse_clear-IsCommand [] = refused _ _
parse_clear-IsCommand (what ∷ []) =
    either _ (bare CommandType.clear_persistence (refl, refl, refl)) (refused _ _)
parse_clear-IsCommand (_ ∷ _ ∷ _) = refused _ _

dispatch-IsCommand :
    (verb : Bytes) (arguments : List Bytes)
    → All IsToken arguments
    → IsCommand (dispatch verb arguments)
unfolding dispatch
dispatch-IsCommand verb arguments all = either _ (parse_set-IsCommand arguments all) (
    either _ (parse_get-IsCommand arguments all) (
      either _ (parse_delete-IsCommand arguments all) (
        either _ (parse_clear_persistence-IsCommand arguments) (
          either _ (parse_clear-IsCommand arguments) (
            either _ (bare CommandType.help (refl, refl, refl))
              (either _ (bare CommandType.exit (refl, refl, refl)) (refused _ _)))))))

parse_tokens-IsCommand :
    (tokens : List Bytes) → All IsToken tokens → IsCommand (parse_tokens tokens)
unfolding parse_tokens
parse_tokens-IsCommand [] _ = refused _ _
parse_tokens-IsCommand (verb ∷ arguments) (_, all) = dispatch-IsCommand _ arguments all

tokens-All : {input : Bytes} {tokens : List Bytes} → Words input tokens → All IsToken tokens
tokens-All (blank _) = tt
tokens-All (word _ _ _ _ t _ _ w) = (t, tokens-All w)

-- Whatever the line, the command has the fields of its type: a SET a key that is one token and a
-- value joined from at least one token, a GET and a DELETE such a key and no value, the others
-- neither; and it has a message exactly if it is not valid.
pub parse-IsCommand : (input : Bytes) → IsCommand (parse input)
parse-IsCommand input = subst IsCommand (sym (parse-split input)) (
    parse_tokens-IsCommand (split_whitespace_view input)
      (tokens-All (split_whitespace_view-Words input)))
