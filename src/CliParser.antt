-- ===== src/CliParser.antt =====
-- src/parser/cli_parser.cpp: one line of input to a command.
pub mod Render
pub mod Fields
use agent_kv.Prelude.{
  ℕ, zero, suc, Bytes, codes, bytes_eq, List, [], ◌∷◌, ◌++◌, Bool, true, false, not, ◌||◌,
  if◌then◌else◌,
}
use agent_kv.StringUtils.{trim, split_whitespace_view, to_upper}

pub data CommandType : Type 0 where
  invalid set get del clear_persistence help exit : CommandType

pub record Command : Type 0 where
  pub type : CommandType
  pub key : Bytes
  pub value : Bytes
  pub error_message : Bytes

unfoldable pub is_valid : Command → Bool
is_valid c = elim c.type [ invalid ↦ false | _ ↦ true ]

-- A command as it is constructed, before its fields are assigned.
abbrev pub plain : CommandType → Command
plain type = record { type = type; key = []; value = []; error_message = [] }

-- The loop from the second joined token on: each token behind a space.
join_behind : List Bytes → Bytes
join_behind [] = []
join_behind (token ∷ tokens) = 32 ∷ (token ++ join_behind tokens)

-- The tokens from `begin_index` on; the list is cut at the index by the caller.
unfoldable pub join_tokens : List Bytes → Bytes
unfolding join_behind
join_tokens [] = []
join_tokens (token ∷ tokens) = token ++ join_behind tokens

abbrev pub make_invalid_command : Bytes → Command
make_invalid_command message = record (plain invalid) { error_message = message }

-- The branches of `Parse` by verb, over the tokens behind the verb.
parse_set : List Bytes → Command
parse_set (key ∷ value ∷ values) = record (plain set) {
  key = key;
  value = join_tokens (value ∷ values);
}
parse_set _ = make_invalid_command (codes "usage: SET <key> <value>")

parse_get : List Bytes → Command
parse_get (key ∷ []) = record (plain get) { key = key }
parse_get _ = make_invalid_command (codes "usage: GET <key>")

parse_delete : List Bytes → Command
parse_delete (key ∷ []) = record (plain del) { key = key }
parse_delete _ = make_invalid_command (codes "usage: DELETE <key>")

parse_clear_persistence : List Bytes → Command
parse_clear_persistence [] = plain clear_persistence
parse_clear_persistence _ = make_invalid_command (codes "usage: CLEAR PERSISTENCE")

parse_clear : List Bytes → Command
parse_clear (what ∷ []) =
    if bytes_eq (to_upper what) (codes "PERSISTENCE")
    then plain clear_persistence
    else make_invalid_command (codes "usage: CLEAR PERSISTENCE")
parse_clear _ = make_invalid_command (codes "usage: CLEAR PERSISTENCE")

unfoldable pub dispatch : Bytes → List Bytes → Command
unfolding parse_set parse_get parse_delete parse_clear_persistence parse_clear
dispatch verb arguments =
    if bytes_eq verb (codes "SET")
    then parse_set arguments
    else if bytes_eq verb (codes "GET")
    then parse_get arguments
    else if bytes_eq verb (codes "DEL") || bytes_eq verb (codes "DELETE")
    then parse_delete arguments
    else if bytes_eq verb (codes "CLEAR_PERSISTENCE") || bytes_eq verb (codes "CLEAR-PERSISTENCE")
    then parse_clear_persistence arguments
    else if bytes_eq verb (codes "CLEAR")
    then parse_clear arguments
    else if bytes_eq verb (codes "HELP")
    then plain help
    else if bytes_eq verb (codes "EXIT") || bytes_eq verb (codes "QUIT")
    then plain exit
    else make_invalid_command (codes "unknown command")

-- `tokens.front()` of no tokens is not reached: a trimmed text that is not empty has a token.
pub parse_tokens : List Bytes → Command
parse_tokens [] = make_invalid_command (codes "empty command")
parse_tokens (verb ∷ arguments) = dispatch (to_upper verb) arguments

parse_trimmed : Bytes → Command
unfolding parse_tokens
parse_trimmed [] = make_invalid_command (codes "empty command")
parse_trimmed (c ∷ cs) = parse_tokens (split_whitespace_view (c ∷ cs))

unfoldable pub parse : Bytes → Command
unfolding parse_trimmed
parse input = parse_trimmed (trim input)
