-- ===== src/Json.antt =====
-- The requests in JSON: src/parser/validation_helpers.cpp, action_validation.cpp, json_enforcer.cpp
-- and the JSON mode of src/main.cpp. nlohmann::json is a parameter.
pub mod Helpers
pub mod Actions
pub mod Enforcer
pub mod Shape
pub mod Checks
pub mod Accepts
pub mod Guarded
pub mod Mode
use agent_kv.Prelude.{Bytes, List, Bool}

-- What `nlohmann::json::parse` does: it returns a value, it throws a `parse_error`, or it throws
-- another exception, such as `out_of_range` for a number.
pub data Parsed (Json : Type 0) : Type 0 where
  parsed : Json → Parsed Json
  malformed refused : Bytes → Parsed Json

-- What the code calls of `nlohmann::json`, for values of a type `Json`: `items()` in the library's
-- order, `contains(key)`, `at(key)`, which the code calls only where `contains` holds, and
-- `get<std::string>()`, which it calls only where `is_string` holds.
pub record JsonLib (Json : Type 0) : Type 0 where
  pub items : Json → List (Bytes × Json)
  pub contains : Json → Bytes → Bool
  pub at : Json → Bytes → Json
  pub is_object : Json → Bool
  pub is_string : Json → Bool
  pub text : Json → Bytes
