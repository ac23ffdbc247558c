-- ===== src/Tests/Lines.antt =====
-- The theorems on text and on commands, at concrete lines.
use agent_kv.Prelude.{ℕ, codes, [], ◌∷◌, All, ◌≡◌, refl, false}
use mathlib.Core.List.{cons≢nil}
use agent_kv.StringUtils.{is_space, split_whitespace_view}
use agent_kv.StringUtils.Split.{IsToken, Words, split_whitespace_view-Words}
use agent_kv.CliParser.{CommandType, plain, join_tokens, parse_tokens, parse}
use agent_kv.CliParser.Fields.{IsCommand, parse-IsCommand}
use agent_kv.CliParser.Render.{
  Ask, ask_set, words_of, command_of, join_tokens-Words, parse-Words, parse-words_of,
  parse-set_line,
}

split_whitespace_view-Words_example :
    Words (codes " a  b ") (split_whitespace_view (codes " a  b "))
split_whitespace_view-Words_example = split_whitespace_view-Words (codes " a  b ")

letter-IsToken : (c : ℕ) → is_space c ≡ false → IsToken (c ∷ [])
letter-IsToken c other = (λ e. cons≢nil e, (other, tt))

abbrev ask : Ask
ask = ask_set (codes "k") (codes "v") (codes "w" ∷ [])

values-IsToken : All IsToken (codes "v" ∷ codes "w" ∷ [])
unfolding is_space
values-IsToken = (letter-IsToken 118 refl, (letter-IsToken 119 refl, tt))

key-IsToken : IsToken (codes "k")
unfolding is_space
key-IsToken = letter-IsToken 107 refl

verb-IsToken : IsToken (codes "SET")
unfolding is_space
verb-IsToken = (λ e. cons≢nil e, (refl, (refl, (refl, tt))))

line-Words : Words (join_tokens (words_of ask)) (words_of ask)
line-Words = join_tokens-Words (words_of ask) (verb-IsToken, (key-IsToken, values-IsToken))

parse-Words_example : parse (join_tokens (words_of ask)) ≡ parse_tokens (words_of ask)
parse-Words_example = parse-Words (join_tokens (words_of ask)) (words_of ask) line-Words

parse-words_of_example : parse (join_tokens (words_of ask)) ≡ command_of ask
parse-words_of_example = parse-words_of ask (join_tokens (words_of ask)) line-Words

parse-set_line_example :
    parse (join_tokens (codes "SET" ∷ codes "k" ∷ join_tokens (codes "v" ∷ codes "w" ∷ []) ∷ []))
    ≡ record (plain CommandType.set) {
      key = codes "k";
      value = join_tokens (codes "v" ∷ codes "w" ∷ []);
    }
parse-set_line_example =
    parse-set_line (codes "k") (codes "v") (codes "w" ∷ []) key-IsToken values-IsToken

parse-IsCommand_example : IsCommand (parse (codes " set k  v w "))
parse-IsCommand_example = parse-IsCommand (codes " set k  v w ")
