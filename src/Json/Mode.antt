-- ===== src/Json/Mode.antt =====
-- The JSON mode of src/main.cpp: the whole input is parsed and validated, and the exit status tells
-- the outcome. `nlohmann::json::parse` is a parameter, which returns a value, throws a `parse_error`,
-- or throws another exception, as for a number that is out of range.
pub mod Outcome
use agent_kv.Prelude.{ℕ, Bytes, codes, List, [], ◌∷◌, ◌++◌, Bool, true, false, if◌then◌else◌}
use agent_kv.Exec.{Result, ok, err}
use agent_kv.Json.{JsonLib, Parsed, parsed, malformed, refused}
use agent_kv.Json.Helpers.{ValidationResult}
use agent_kv.Json.Enforcer.{validate_request}

-- The object that is dumped to the output.
pub data Response : Type 0 where
  accepted : Response
  parse_error validation_error : Bytes → Response

-- The lines that `std::getline` yields, each with a line break.
unfoldable pub raw_input : List Bytes → Bytes
raw_input [] = []
raw_input (line ∷ lines) = line ++ (codes "\n" ++ raw_input lines)

-- The answer to a request, and the exit status.
unfoldable pub answer : ValidationResult → Response × ℕ
answer result = if result.ok then (accepted, 0) else (validation_error result.error, 1)

module _ {Json : Type 0} (lib : JsonLib Json) where
  -- Only a `parse_error` is caught.
  unfoldable pub answer_parsed : Parsed Json → Result (Response × ℕ)
  answer_parsed (malformed what) = ok (parse_error what, 1)
  answer_parsed (refused what) = err what
  answer_parsed (parsed request) = ok (answer (validate_request lib request))

  unfoldable pub json_mode : (Bytes → Parsed Json) → List Bytes → Result (Response × ℕ)
  json_mode parse lines = answer_parsed (parse (raw_input lines))
