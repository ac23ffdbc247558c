-- ===== src/CliParser/Render.antt =====
-- What `Parse` makes of a line depends on its words only, and undoes writing a command out.
use agent_kv.Prelude.{
  ℕ, ◌≢◌, Bytes, bytes_eq, codes, List, [], ◌∷◌, ◌++◌, All, All-append, append_assoc, append-nil,
  true, false, ◌≡◌, refl, sym, ap, subst, ◌∙◌,
}
use mathlib.Core.List.{cons≢nil}
use mathlib.Core.Bool.{false≢true}
use agent_kv.StringUtils.{is_space, trim, upper, split_whitespace_view, to_upper}
use agent_kv.StringUtils.Split.{
  IsToken, AllSpaces, StartsNoToken, StartsToken, Words, blank, word, split_whitespace_view-Words,
}
use agent_kv.StringUtils.Trim.{trim-Trimmed}
use agent_kv.StringUtils.Unique.{split_whitespace_view-eq}
use agent_kv.CliParser.{
  Command, CommandType, plain, join_behind, join_tokens, dispatch, parse_set, parse_get,
  parse_delete, parse_clear, parse_tokens, parse_trimmed, parse,
}

Words-behind_spaces :
    {input : Bytes} {tokens : List Bytes} (spaces : Bytes)
    → AllSpaces spaces
    → Words input tokens
    → Words (spaces ++ input) tokens
Words-behind_spaces spaces all (blank all') =
    blank (All-append (λ c. is_space c ≡ true) spaces _ all all')
Words-behind_spaces spaces all (word spaces' token rest all' t stops joined w) =
    word (spaces ++ spaces') token rest
      (All-append (λ c. is_space c ≡ true) spaces spaces' all all') t stops
      (append_assoc spaces spaces' (token ++ rest) ∙ ap (λ b. spaces ++ b) joined) w

spaces-StartsNoToken : (spaces : Bytes) → AllSpaces spaces → StartsNoToken spaces
spaces-StartsNoToken [] _ = tt
spaces-StartsNoToken (c ∷ cs) (space, _) = space

StartsNoToken-append :
    (rest spaces : Bytes) → StartsNoToken rest → AllSpaces spaces → StartsNoToken (rest ++ spaces)
StartsNoToken-append [] spaces _ all = spaces-StartsNoToken spaces all
StartsNoToken-append (c ∷ cs) spaces space _ = space

Words-before_spaces :
    {input : Bytes} {tokens : List Bytes} (spaces : Bytes)
    → AllSpaces spaces
    → Words input tokens
    → Words (input ++ spaces) tokens
Words-before_spaces {input} spaces all (blank all') =
    blank (All-append (λ c. is_space c ≡ true) input spaces all' all)
Words-before_spaces spaces all (word front token rest all' t stops joined w) =
    word front token (rest ++ spaces) all' t (StartsNoToken-append rest spaces stops all)
      (ap (λ b. front ++ b) (sym (append_assoc token rest spaces))
        ∙ sym (append_assoc front (token ++ rest) spaces)
        ∙ ap (λ b. b ++ spaces) joined)
      (Words-before_spaces spaces all w)

-- Trimming loses no word.
pub split_whitespace_view-trim :
    (input : Bytes) → split_whitespace_view (trim input) ≡ split_whitespace_view input
split_whitespace_view-trim input =
    let t = trim-Trimmed input in
    sym (
      split_whitespace_view-eq input (split_whitespace_view (trim input)) (
        subst (λ b. Words b (split_whitespace_view (trim input))) t.joined
          (Words-behind_spaces t.front t.before
            (Words-before_spaces t.back t.behind (split_whitespace_view-Words (trim input))))))

parse_trimmed-split :
    (text : Bytes) → parse_trimmed text ≡ parse_tokens (split_whitespace_view text)
unfolding parse_trimmed
parse_trimmed-split [] = ap parse_tokens (sym (split_whitespace_view-eq [] [] (blank tt)))
parse_trimmed-split (c ∷ cs) = refl

pub parse-split : (input : Bytes) → parse input ≡ parse_tokens (split_whitespace_view input)
unfolding parse
parse-split input =
    parse_trimmed-split (trim input) ∙ ap parse_tokens (split_whitespace_view-trim input)

-- The command is the one of the words of the line, wherever white space stands between and around
-- them; a line of no words is the empty command.
pub parse-Words :
    (input : Bytes) (tokens : List Bytes) → Words input tokens → parse input ≡ parse_tokens tokens
parse-Words input tokens w =
    parse-split input ∙ ap parse_tokens (split_whitespace_view-eq input tokens w)

-- The command that a user asks for, and the line that asks for it.
pub data Ask : Type 0 where
  ask_set : Bytes → Bytes → List Bytes → Ask
  ask_get : Bytes → Ask
  ask_delete : Bytes → Ask
  ask_clear : Ask
  ask_help : Ask
  ask_exit : Ask

abbrev pub words_of : Ask → List Bytes
words_of (ask_set key value values) = codes "SET" ∷ key ∷ value ∷ values
words_of (ask_get key) = codes "GET" ∷ key ∷ []
words_of (ask_delete key) = codes "DEL" ∷ key ∷ []
words_of ask_clear = codes "CLEAR" ∷ codes "PERSISTENCE" ∷ []
words_of ask_help = codes "HELP" ∷ []
words_of ask_exit = codes "EXIT" ∷ []

abbrev pub command_of : Ask → Command
command_of (ask_set key value values) = record (plain CommandType.set) {
  key = key;
  value = join_tokens (value ∷ values);
}
command_of (ask_get key) = record (plain CommandType.get) { key = key }
command_of (ask_delete key) = record (plain CommandType.del) { key = key }
command_of ask_clear = plain CommandType.clear_persistence
command_of ask_help = plain CommandType.help
command_of ask_exit = plain CommandType.exit

parse_tokens-words_of : (ask : Ask) → parse_tokens (words_of ask) ≡ command_of ask
unfolding parse_tokens dispatch parse_set parse_get parse_delete parse_clear to_upper upper bytes_eq
parse_tokens-words_of (ask_set key value values) = refl
parse_tokens-words_of (ask_get key) = refl
parse_tokens-words_of (ask_delete key) = refl
parse_tokens-words_of ask_clear = refl
parse_tokens-words_of ask_help = refl
parse_tokens-words_of ask_exit = refl

join_behind-StartsNoToken : (tokens : List Bytes) → StartsNoToken (join_behind tokens)
unfolding join_behind is_space
join_behind-StartsNoToken [] = tt
join_behind-StartsNoToken (token ∷ tokens) = refl

join_behind-Words : (tokens : List Bytes) → All IsToken tokens → Words (join_behind tokens) tokens
unfolding join_behind
join_behind-Words [] _ = blank tt
join_behind-Words (token ∷ tokens) (t, ts) =
    word (32 ∷ []) token (join_behind tokens) (unfold is_space in refl, tt) t
      (join_behind-StartsNoToken tokens) refl (join_behind-Words tokens ts)

-- Tokens joined by single spaces are the words of the text that this gives.
pub join_tokens-Words :
    (tokens : List Bytes) → All IsToken tokens → Words (join_tokens tokens) tokens
unfolding join_tokens
join_tokens-Words [] _ = blank tt
join_tokens-Words (token ∷ tokens) (t, ts) =
    word [] token (join_behind tokens) tt t (join_behind-StartsNoToken tokens) refl
      (join_behind-Words tokens ts)

-- A line with the words of a command, however they are spaced, is parsed to that command; the words
-- of a SET behind its key are joined by single spaces.
pub parse-words_of :
    (ask : Ask) (input : Bytes) → Words input (words_of ask) → parse input ≡ command_of ask
parse-words_of ask input w = parse-Words input (words_of ask) w ∙ parse_tokens-words_of ask

set_word-IsToken : IsToken (codes "SET")
unfolding is_space
set_word-IsToken = ((λ e. cons≢nil e), (refl, (refl, (refl, tt))))

-- A value made of tokens with single spaces between them is stored as it was typed: the line
-- `SET key value` is parsed to the SET of that key and that value.
pub parse-set_line :
    (key value : Bytes) (values : List Bytes)
    → IsToken key
    → All IsToken (value ∷ values)
    → parse (join_tokens (codes "SET" ∷ key ∷ join_tokens (value ∷ values) ∷ []))
      ≡ record (plain CommandType.set) { key = key; value = join_tokens (value ∷ values) }
unfolding join_tokens join_behind
parse-set_line key value values k vs =
    let all : List Bytes = words_of (ask_set key value values) in
    ap (λ b. parse (codes "SET" ++ (32 ∷ (key ++ (32 ∷ b)))))
      (append-nil (value ++ join_behind values))
    ∙ parse-words_of (ask_set key value values) (join_tokens all)
        (join_tokens-Words all (set_word-IsToken, (k, vs)))

Words-ne-nil :
    (c : ℕ) (cs : Bytes) (tokens : List Bytes)
    → is_space c ≡ false
    → Words (c ∷ cs) tokens
    → tokens ≢ []
Words-ne-nil c cs _ other (blank (space, _)) e = false≢true (sym other ∙ space)
Words-ne-nil c cs _ other (word spaces token rest all t stops joined w) e = cons≢nil e

-- When the trimmed line is not empty it has a token, so `tokens.front()` is there to be read.
pub parse-has_token : (input : Bytes) → trim input ≢ [] → split_whitespace_view (trim input) ≢ []
parse-has_token input some_text = has_token (trim input) some_text (trim-Trimmed input).starts
  where
    has_token : (text : Bytes) → text ≢ [] → StartsToken text → split_whitespace_view text ≢ []
    has_token [] h _ = absurd (h refl)
    has_token (c ∷ cs) h other =
        Words-ne-nil c cs (split_whitespace_view (c ∷ cs)) other
          (split_whitespace_view-Words (c ∷ cs))
