-- ===== src/Json/Accepts.antt =====
-- Which requests the validators accept: exactly those of the shape that `IsRequest` writes out.
use agent_kv.Prelude.{Bytes, bytes_eq_iff, codes, [], ◌∷◌, true, ◌≡◌, ◌↔◌, arith}
use mathlib.Core.Bool.{false≢true}
use agent_kv.Json.{JsonLib}
use agent_kv.Json.Shape.{OneOf, IsInteraction, IsAction, IsState, IsMetadata, IsValue, IsRequest}
use agent_kv.Json.Checks.{
  AcceptsIff, and_then-AcceptsIff, require-AcceptsIff, reject_unknown_children-AcceptsIff,
  require_string_child-AcceptsIff, require_object_child-AcceptsIff,
}
use agent_kv.Json.Helpers.{require}
use agent_kv.Json.Actions.{
  ActionType, user_message, assistant_message, invalid_action, parse_action_type, is_known,
  validate_message_content_interaction, validate_interaction, validate_action,
}
use agent_kv.Json.Enforcer.{
  is_valid_set_operation, validate_state, validate_metadata, validate_value,
  validate_set_action_request, validate_request,
}

module _ {Json : Type 0} (lib : JsonLib Json) where
  validate_message_content_interaction-AcceptsIff :
      (interaction : Json)
      → AcceptsIff
          (validate_message_content_interaction lib interaction)
          (IsInteraction lib interaction)
  unfolding validate_message_content_interaction
  validate_message_content_interaction-AcceptsIff interaction =
      and_then-AcceptsIff _ _ (require-AcceptsIff _ _) λ _.
        and_then-AcceptsIff _ _ (reject_unknown_children-AcceptsIff _ _ _ _)
          λ _. require_string_child-AcceptsIff _ _ _ _

  is_known_iff :
      (type : Bytes)
      → (is_known (parse_action_type type) ≡ true)
        ↔ OneOf type (codes "user_message" ∷ codes "assistant_message" ∷ [])
  unfolding parse_action_type
  is_known_iff type = ground (
    arith,
    bytes_eq_iff type (codes "user_message"),
    bytes_eq_iff type (codes "assistant_message"),
  )

  require_known-AcceptsIff :
      (type message : Bytes)
      → AcceptsIff
          (require (is_known (parse_action_type type)) message)
          (OneOf type (codes "user_message" ∷ codes "assistant_message" ∷ []))
  require_known-AcceptsIff type message =
      let r = require-AcceptsIff (is_known (parse_action_type type)) message in
      let k = is_known_iff type in (λ h. k.0 (r.0 h), λ h. r.1 (k.1 h))

  validate_interaction-AcceptsIff :
      (type : ActionType) (interaction : Json)
      → is_known type ≡ true
      → AcceptsIff (validate_interaction lib type interaction) (IsInteraction lib interaction)
  unfolding validate_interaction
  validate_interaction-AcceptsIff user_message interaction _ =
      validate_message_content_interaction-AcceptsIff interaction
  validate_interaction-AcceptsIff assistant_message interaction _ =
      validate_message_content_interaction-AcceptsIff interaction
  validate_interaction-AcceptsIff invalid_action interaction h = absurd (false≢true h)

  validate_action-AcceptsIff :
      (action : Json) → AcceptsIff (validate_action lib action) (IsAction lib action)
  unfolding validate_action
  validate_action-AcceptsIff action =
      and_then-AcceptsIff _ _ (reject_unknown_children-AcceptsIff _ _ _ _) λ _.
        and_then-AcceptsIff _ _ (require_string_child-AcceptsIff _ _ _ _) λ _.
          and_then-AcceptsIff _ _ (require_known-AcceptsIff _ _) λ known.
            and_then-AcceptsIff _ _ (require_string_child-AcceptsIff _ _ _ _) λ _.
              and_then-AcceptsIff _ _ (require-AcceptsIff _ _)
                λ _. validate_interaction-AcceptsIff _ _ ((is_known_iff _).1 known)

  validate_state-AcceptsIff :
      (state : Json) → AcceptsIff (validate_state lib state) (IsState lib state)
  unfolding validate_state
  validate_state-AcceptsIff state =
      and_then-AcceptsIff _ _ (reject_unknown_children-AcceptsIff _ _ _ _) λ _.
        and_then-AcceptsIff _ _ (require_string_child-AcceptsIff _ _ _ _) λ _.
          and_then-AcceptsIff _ _ (require_string_child-AcceptsIff _ _ _ _)
            λ _. require_object_child-AcceptsIff _ _ _ _

  validate_metadata-AcceptsIff :
      (metadata : Json) → AcceptsIff (validate_metadata lib metadata) (IsMetadata lib metadata)
  unfolding validate_metadata
  validate_metadata-AcceptsIff metadata =
      and_then-AcceptsIff _ _ (reject_unknown_children-AcceptsIff _ _ _ _) λ _.
        and_then-AcceptsIff _ _ (require_string_child-AcceptsIff _ _ _ _) λ _.
          and_then-AcceptsIff _ _ (require_string_child-AcceptsIff _ _ _ _) λ _.
            and_then-AcceptsIff _ _ (require_string_child-AcceptsIff _ _ _ _)
              λ _. require_string_child-AcceptsIff _ _ _ _

  validate_value-AcceptsIff :
      (value : Json) → AcceptsIff (validate_value lib value) (IsValue lib value)
  unfolding validate_value
  validate_value-AcceptsIff value =
      and_then-AcceptsIff _ _ (reject_unknown_children-AcceptsIff _ _ _ _) λ _.
        and_then-AcceptsIff _ _ (require_object_child-AcceptsIff _ _ _ _) λ _.
          and_then-AcceptsIff _ _ (validate_action-AcceptsIff _) λ _.
            and_then-AcceptsIff _ _ (require_object_child-AcceptsIff _ _ _ _) λ _.
              and_then-AcceptsIff _ _ (validate_state-AcceptsIff _) λ _.
                and_then-AcceptsIff _ _ (require_object_child-AcceptsIff _ _ _ _)
                  λ _. validate_metadata-AcceptsIff _

  require_op-AcceptsIff :
      (op message : Bytes)
      → AcceptsIff
          (require (is_valid_set_operation op) message)
          (OneOf op (codes "log_step" ∷ codes "set_state" ∷ []))
  unfolding is_valid_set_operation require
  require_op-AcceptsIff op message =
      ground (arith, bytes_eq_iff op (codes "log_step"), bytes_eq_iff op (codes "set_state"))

  validate_set_action_request-AcceptsIff :
      (request : Json)
      → AcceptsIff (validate_set_action_request lib request) (IsRequest lib request)
  unfolding validate_set_action_request
  validate_set_action_request-AcceptsIff request =
      and_then-AcceptsIff _ _ (require-AcceptsIff _ _) λ _.
        and_then-AcceptsIff _ _ (reject_unknown_children-AcceptsIff _ _ _ _) λ _.
          and_then-AcceptsIff _ _ (require_string_child-AcceptsIff _ _ _ _) λ _.
            and_then-AcceptsIff _ _ (require_op-AcceptsIff _ _) λ _.
              and_then-AcceptsIff _ _ (require_string_child-AcceptsIff _ _ _ _) λ _.
                and_then-AcceptsIff _ _ (require_string_child-AcceptsIff _ _ _ _) λ _.
                  and_then-AcceptsIff _ _ (require_object_child-AcceptsIff _ _ _ _)
                    λ _. validate_value-AcceptsIff _

  -- `ValidateRequest` accepts a value exactly if it is a set-action request as `IsRequest` writes it
  -- out: an object of `op`, `session_id`, `event_id` and `value` and of nothing else, with the
  -- operation `log_step` or `set_state`; below `value` the action, of type `user_message` or
  -- `assistant_message`, with its name and the content of its interaction, the state, and the metadata
  -- with all its four texts; every field there and of its type, and no field besides.
  pub validate_request_iff :
      (request : Json) → ((validate_request lib request).ok ≡ true) ↔ IsRequest lib request
  unfolding validate_request
  validate_request_iff request =
      let whole : AcceptsIff (validate_request lib request) (
          (lib.is_object request ≡ true)
          × ((lib.contains request (codes "op") ≡ true)
              × ((lib.is_string (lib.at request (codes "op")) ≡ true)
                  × (OneOf (lib.text (lib.at request (codes "op")))
                        (codes "log_step" ∷ codes "set_state" ∷ [])
                      × IsRequest lib request)))) =
        and_then-AcceptsIff _ _ (require-AcceptsIff _ _) λ _.
          and_then-AcceptsIff _ _ (require-AcceptsIff _ _) λ _.
            and_then-AcceptsIff _ _ (require-AcceptsIff _ _) λ _.
              and_then-AcceptsIff _ _ (require_op-AcceptsIff _ _)
                λ _. validate_set_action_request-AcceptsIff request in
      (
        λ h. let (_, (_, (_, (_, request_ok)))) = whole.0 h in request_ok,
        λ q. let (o, (_, (op, (one, _)))) = q in whole.1 (o, (op.0, (op.1, (one, q)))),
      )
