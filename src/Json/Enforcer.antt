-- ===== src/Json/Enforcer.antt =====
-- src/parser/json_enforcer.cpp, class JsonEnforcer: whole requests.
use agent_kv.Prelude.{Bytes, bytes_eq, codes, [], ◌∷◌, Bool, true, false, ◌||◌}
use agent_kv.Exec.{Result, ok, err}
use agent_kv.Json.{JsonLib, Parsed, parsed, malformed, refused}
use agent_kv.Json.Helpers.{
  ValidationResult, and_then, require, reject_unknown_children, require_string_child,
  require_object_child,
}
use agent_kv.Json.Actions.{validate_action}

unfoldable pub is_valid_set_operation : Bytes → Bool
is_valid_set_operation op = bytes_eq op (codes "log_step") || bytes_eq op (codes "set_state")

-- `IsValidJson`, from what `nlohmann::json::parse` returns or throws; only a `parse_error` is caught.
pub is_valid_json : {Json : Type 0} → (Bytes → Parsed Json) → Bytes → Result Bool
is_valid_json parse raw_input = elim (parse raw_input) [
  | parsed request ↦ ok true
  | malformed what ↦ ok false
  | refused what ↦ err what
]

abbrev pub op_message : Bytes
op_message = codes "Invalid op: expected semantic write operation"

module _ {Json : Type 0} (lib : JsonLib Json) where
  unfoldable pub validate_state : Json → ValidationResult
  validate_state state =
      let path = codes "value.state" in
      and_then
        (reject_unknown_children lib state (codes "goal" ∷ codes "status" ∷ codes "context" ∷ [])
          path)
        (and_then (require_string_child lib state (codes "goal") path) (
          and_then (require_string_child lib state (codes "status") path)
            (require_object_child lib state (codes "context") path)))

  unfoldable pub validate_metadata : Json → ValidationResult
  validate_metadata metadata =
      let path = codes "value.metadata" in
      and_then
        (reject_unknown_children lib metadata
          (codes "provider" ∷ codes "model" ∷ codes "timestamp" ∷ codes "trace_id" ∷ []) path)
        (and_then (require_string_child lib metadata (codes "provider") path) (
          and_then (require_string_child lib metadata (codes "model") path) (
            and_then (require_string_child lib metadata (codes "timestamp") path)
              (require_string_child lib metadata (codes "trace_id") path))))

  -- The part of a set-action request below `value`.
  unfoldable pub validate_value : Json → ValidationResult
  validate_value value =
      let path = codes "value" in
      and_then
        (reject_unknown_children lib value (codes "action" ∷ codes "state" ∷ codes "metadata" ∷ [])
          path)
        (and_then (require_object_child lib value (codes "action") path) (
          and_then (validate_action lib (lib.at value (codes "action"))) (
            and_then (require_object_child lib value (codes "state") path) (
              and_then (validate_state (lib.at value (codes "state"))) (
                and_then (require_object_child lib value (codes "metadata") path)
                  (validate_metadata (lib.at value (codes "metadata"))))))))

  unfoldable pub validate_set_action_request : Json → ValidationResult
  validate_set_action_request request =
      and_then
        (require (lib.is_object request) (codes "Invalid field type: request must be object"))
        (and_then
          (reject_unknown_children lib request
            (codes "op" ∷ codes "session_id" ∷ codes "event_id" ∷ codes "value" ∷ []) [])
          (and_then (require_string_child lib request (codes "op") []) (
            and_then
              (require (is_valid_set_operation (lib.text (lib.at request (codes "op")))) op_message)
              (and_then (require_string_child lib request (codes "session_id") []) (
                and_then (require_string_child lib request (codes "event_id") []) (
                  and_then (require_object_child lib request (codes "value") [])
                    (validate_value (lib.at request (codes "value")))))))))

  unfoldable pub validate_request : Json → ValidationResult
  validate_request request =
      and_then
        (require (lib.is_object request) (codes "Invalid field type: request must be object"))
        (and_then (require (lib.contains request (codes "op")) (codes "Missing required field: op"))
          (and_then
            (require (lib.is_string (lib.at request (codes "op")))
              (codes "Invalid field type: op must be string"))
            (and_then
              (require (is_valid_set_operation (lib.text (lib.at request (codes "op")))) op_message)
              (validate_set_action_request request))))
