-- ===== src/StringUtils.antt =====
-- src/common/string_utils.cpp. The C locale: `std::isspace` holds of 9 to 13 and of 32, and
-- `std::toupper` changes the ASCII letters only. A view is the list of the bytes that it shows.
pub mod Trim
pub mod Split
pub mod Unique
use agent_kv.Prelude.{
  ℕ, zero, suc, ◌+◌, ◌-◌, Bytes, List, [], ◌∷◌, ◌++◌, length, take, drop, Option, none, some, Bool,
  true, false, ◌&&◌, ◌||◌, ltb, leb, ◌==◌, if◌then◌else◌,
}
use mathlib.Core.List.{map}

unfoldable pub is_space : ℕ → Bool
is_space c = (leb 9 c && leb c 13) || c == 32

unfoldable pub upper : ℕ → ℕ
upper c = if leb b'a' c && leb c b'z' then c - 32 else c

unfoldable pub to_upper : Bytes → Bytes
to_upper input = map upper input

-- `input[index]`
byte_at : Bytes → ℕ → ℕ
byte_at [] i = 0
byte_at (c ∷ cs) zero = c
byte_at (c ∷ cs) (suc i) = byte_at cs i

-- The loop on `begin`, over the bytes from there on.
trim_begin : Bytes → ℕ → ℕ
trim_begin [] begin = begin
trim_begin (c ∷ cs) begin = if is_space c then trim_begin cs (begin + 1) else begin

-- The loop on `end`, which goes down to `begin`.
trim_end : Bytes → ℕ → ℕ → ℕ
trim_end input begin zero = zero
trim_end input begin (suc end) =
    let rest = trim_end input begin end in
    if ltb begin (suc end) && is_space (byte_at input end) then rest else suc end

unfoldable pub trim : Bytes → Bytes
unfolding trim_begin trim_end byte_at is_space
trim input =
    let begin = trim_begin input 0 in
    let end = trim_end input begin (length input) in take (end - begin) (drop begin input)

-- The two inner loops, over the bytes from `index` on: what is behind a run of separators, and a
-- token with what is behind it.
unfoldable pub skip_spaces : Bytes → Bytes
skip_spaces [] = []
skip_spaces (c ∷ cs) = if is_space c then skip_spaces cs else c ∷ cs

take_token : Bytes → Bytes × Bytes
take_token [] = ([], [])
take_token (c ∷ cs) =
    let (token, rest) = take_token cs in if is_space c then ([], c ∷ cs) else (c ∷ token, rest)

-- `if (begin < index) tokens.emplace_back(…)`
add_token : List Bytes → Bytes → List Bytes
add_token tokens [] = tokens
add_token tokens (c ∷ cs) = tokens ++ ((c ∷ cs) ∷ [])

-- The outer loop. `none`: the fuel ran out.
split_loop : ℕ → Bytes → List Bytes → Option (List Bytes)
split_loop zero input tokens = none
split_loop (suc fuel) [] tokens = some tokens
split_loop (suc fuel) (c ∷ cs) tokens =
    let (token, rest) = take_token (skip_spaces (c ∷ cs)) in
    split_loop fuel rest (add_token tokens token)

abbrev pub or_no_tokens : Option (List Bytes) → List Bytes
or_no_tokens none = []
or_no_tokens (some tokens) = tokens

-- Each round takes a byte at least, so the fuel is enough.
unfoldable pub split_whitespace_view : Bytes → List Bytes
unfolding split_loop skip_spaces take_token add_token is_space
split_whitespace_view input = or_no_tokens (split_loop (suc (length input)) input [])
