-- ===== src/Bench/Options.antt =====
-- bench/benchmark.cpp, ParseOperations: the number of operations that the command line asks for.
-- `std::stoull` is that of the C locale, for numbers of 64 bits.
pub mod Requested
use agent_kv.Prelude.{
  ℕ, ◌-◌, ◌%◌, ◌^◌, Bytes, bytes_eq, codes, List, [], ◌∷◌, length, Bool, true, false, not, ◌||◌,
  ltb, leb, ◌==◌, if◌then◌else◌,
}
use agent_kv.Exec.{Result, ok, err}
use agent_kv.StringUtils.{skip_spaces}
use agent_kv.Bench.Decimal.{take_digits}

abbrev default_operations : ℕ
default_operations = 20000

-- Whether the number is to be negated, and what follows its sign.
unfoldable pub sign : Bytes → Bool × Bytes
sign [] = (false, [])
sign (c ∷ cs) = if c == b'-' then (true, cs) else if c == b'+' then (false, cs) else (false, c ∷ cs)

-- A minus sign negates in the unsigned type.
abbrev negated : Bool → ℕ → ℕ
negated minus value = if minus then (2 ^ 64 - value) % 2 ^ 64 else value

-- The result behind a sign: `digits` are all that is left, `value` and `rest` what was read of them.
-- The name of the function is the text of its exceptions.
converted : ℕ → Bool → Bytes → ℕ × Bytes → Result (ℕ × ℕ)
converted size minus digits (value, rest) =
    if length rest == length digits
    then err (codes "stoull")
    else if leb (2 ^ 64) value
    then err (codes "stoull")
    else ok (negated minus value, size - length rest)

signed : ℕ → Bool × Bytes → Result (ℕ × ℕ)
signed size (minus, digits) = converted size minus digits (take_digits 0 digits)

-- `std::stoull(input, &used)`: the value, and how many bytes were read.
pub stoull : Bytes → Result (ℕ × ℕ)
unfolding signed converted
stoull input = signed (length input) (sign (skip_spaces input))

abbrev not_positive : Bytes
not_positive = codes "operation_count must be a positive integer"

-- `input.empty() || input[0] == '-'`
abbrev is_refused : Bytes → Bool
is_refused [] = true
is_refused (c ∷ cs) = c == b'-'

checked : Bytes → Result (ℕ × ℕ) → Result ℕ
checked input (err message) = err message
checked input (ok (operations, used)) =
    if not (used == length input) || operations == 0
    then err not_positive
    else if ltb (2 ^ 64 - 1) operations
    then err (codes "operation_count is too large")
    else ok operations

parse_count : Bytes → Result ℕ
unfolding checked
parse_count input = if is_refused input then err not_positive else checked input (stoull input)

abbrev usage : Bytes
usage = codes "usage: ./benchmark [operation_count]"

-- `ParseOperations`, of the whole command line with the program's name.
pub parse_operations : List Bytes → Result ℕ
unfolding parse_count
parse_operations (program ∷ []) = ok default_operations
parse_operations (program ∷ input ∷ []) =
    if bytes_eq input (codes "--help") || bytes_eq input (codes "-h")
    then err usage
    else parse_count input
parse_operations _ = err usage
