-- ===== src/Json/Actions.antt =====
-- src/parser/action_validation.cpp: the action of a request.
use agent_kv.Prelude.{Bytes, bytes_eq, codes, [], ◌∷◌, ◌++◌, Bool, true, false, if◌then◌else◌}
use agent_kv.Json.{JsonLib}
use agent_kv.Json.Helpers.{
  ValidationResult, failure, and_then, require, reject_unknown_children, require_string_child,
}

pub data ActionType : Type 0 where
  user_message assistant_message invalid_action : ActionType

unfoldable pub parse_action_type : Bytes → ActionType
parse_action_type type =
    if bytes_eq type (codes "user_message")
    then user_message
    else if bytes_eq type (codes "assistant_message")
    then assistant_message
    else invalid_action

-- `action_type != ActionType::Invalid`
abbrev pub is_known : ActionType → Bool
is_known invalid_action = false
is_known _ = true

abbrev pub type_message : Bytes
type_message = codes "value.action.type must be one of: user_message, assistant_message"

module _ {Json : Type 0} (lib : JsonLib Json) where
  unfoldable pub validate_message_content_interaction : Json → ValidationResult
  validate_message_content_interaction interaction =
      let path = codes "value.action.interaction" in
      and_then
        (require (lib.is_object interaction)
          (codes "Invalid field type: " ++ (path ++ codes " must be object")))
        (and_then (reject_unknown_children lib interaction (codes "content" ∷ []) path)
          (require_string_child lib interaction (codes "content") path))

  unfoldable pub validate_interaction : ActionType → Json → ValidationResult
  validate_interaction user_message interaction = validate_message_content_interaction interaction
  validate_interaction assistant_message interaction =
      validate_message_content_interaction interaction
  validate_interaction invalid_action interaction = failure type_message

  unfoldable pub validate_action : Json → ValidationResult
  validate_action action =
      let path = codes "value.action" in
      let action_type = parse_action_type (lib.text (lib.at action (codes "type"))) in
      and_then
        (reject_unknown_children lib action (codes "type" ∷ codes "name" ∷ codes "interaction" ∷ [])
          path)
        (and_then (require_string_child lib action (codes "type") path) (
          and_then (require (is_known action_type) type_message) (
            and_then (require_string_child lib action (codes "name") path) (
              and_then
                (require (lib.contains action (codes "interaction"))
                  (codes "Missing required field: value.action.interaction"))
                (validate_interaction action_type (lib.at action (codes "interaction")))))))
