-- ===== src/Json/Guarded.antt =====
-- The validators read a child only where it is there, and a text only of a string: what the JSON
-- library does elsewhere, where it throws, makes no difference.
use agent_kv.Prelude.{Bytes, codes, List, Bool, true, false, ◌≡◌, refl, ap, ◌∙◌}
use agent_kv.Json.{JsonLib}
use agent_kv.Json.Helpers.{
  ValidationResult, and_then, require, reject_unknown, reject_unknown_children,
  require_string_child, require_object_child,
}
use agent_kv.Json.Actions.{
  ActionType, user_message, assistant_message, invalid_action, parse_action_type, is_known,
  validate_message_content_interaction, validate_interaction, validate_action,
}
use agent_kv.Json.Enforcer.{
  is_valid_set_operation, validate_state, validate_metadata, validate_value,
  validate_set_action_request, validate_request,
}
use agent_kv.Json.Shape.{HasString, HasObject}
use agent_kv.Json.Checks.{
  require-AcceptsIff, require_string_child-AcceptsIff, require_object_child-AcceptsIff,
}

-- The type tests are the same; the children of objects are, and the texts of strings.
pub record Agree {Json : Type 0} (lib other : JsonLib Json) : Type 0 where
  pub is_object : (v : Json) → lib.is_object v ≡ other.is_object v
  pub is_string : (v : Json) → lib.is_string v ≡ other.is_string v
  pub items : (v : Json) → lib.is_object v ≡ true → lib.items v ≡ other.items v
  pub contains :
      (v : Json) (key : Bytes) → lib.is_object v ≡ true → lib.contains v key ≡ other.contains v key
  pub at :
      (v : Json) (key : Bytes)
      → lib.is_object v ≡ true
      → lib.contains v key ≡ true
      → lib.at v key ≡ other.at v key
  pub text : (v : Json) → lib.is_string v ≡ true → lib.text v ≡ other.text v

and_then_at :
    (b : Bool) (error : Bytes) (s s' : ValidationResult)
    → (b ≡ true → s ≡ s')
    → and_then (record { ok = b; error = error }) s ≡ and_then (record { ok = b; error = error }) s'
unfolding and_then
and_then_at true error s s' next = next refl
and_then_at false error s s' next = refl

-- The second check matters only behind a first that passed.
and_then-eq :
    (r r' s s' : ValidationResult) → r ≡ r' → (r.ok ≡ true → s ≡ s') → and_then r s ≡ and_then r' s'
and_then-eq r r' s s' e next = and_then_at r.ok r.error s s' next ∙ ap (λ q. and_then q s') e

module _ {Json : Type 0} (lib other : JsonLib Json) (g : Agree lib other) where
  require-eq : (b b' : Bool) (message : Bytes) → b ≡ b' → require b message ≡ require b' message
  require-eq b b' message e = ap (λ c. require c message) e

  passed : (b : Bool) (message : Bytes) → (require b message).ok ≡ true → b ≡ true
  passed b message = (require-AcceptsIff b message).0

  reject_unknown_children-eq :
      (object : Json) (allowed : List Bytes) (path : Bytes)
      → lib.is_object object ≡ true
      → reject_unknown_children lib object allowed path
        ≡ reject_unknown_children other object allowed path
  unfolding reject_unknown_children
  reject_unknown_children-eq object allowed path o =
      ap (λ (items : List (Bytes × Json)). reject_unknown items allowed path) (g.items object o)

  require_string_child-eq :
      (object : Json) (field path : Bytes)
      → lib.is_object object ≡ true
      → require_string_child lib object field path ≡ require_string_child other object field path
  unfolding require_string_child
  require_string_child-eq object field path o =
      and_then-eq _ _ _ _ (require-eq _ _ _ (g.contains object field o)) (λ there.
        require-eq _ _ _ (
          ap lib.is_string (g.at object field o (passed _ _ there))
          ∙ g.is_string (other.at object field)))

  require_object_child-eq :
      (object : Json) (field path : Bytes)
      → lib.is_object object ≡ true
      → require_object_child lib object field path ≡ require_object_child other object field path
  unfolding require_object_child
  require_object_child-eq object field path o =
      and_then-eq _ _ _ _ (require-eq _ _ _ (g.contains object field o)) (λ there.
        require-eq _ _ _ (
          ap lib.is_object (g.at object field o (passed _ _ there))
          ∙ g.is_object (other.at object field)))

  -- What a check that passed tells of the child.
  string_child :
      (object : Json) (field path : Bytes)
      → (require_string_child lib object field path).ok ≡ true
      → HasString lib object field
  string_child object field path = (require_string_child-AcceptsIff lib object field path).0

  object_child :
      (object : Json) (field path : Bytes)
      → (require_object_child lib object field path).ok ≡ true
      → HasObject lib object field
  object_child object field path = (require_object_child-AcceptsIff lib object field path).0

  child-text :
      (object : Json) (field : Bytes)
      → lib.is_object object ≡ true
      → HasString lib object field
      → lib.text (lib.at object field) ≡ other.text (other.at object field)
  child-text object field o (there, string) =
      g.text (lib.at object field) string ∙ ap other.text (g.at object field o there)

  -- A validator of a child that is an object.
  below :
      (validate : JsonLib Json → Json → ValidationResult) (object : Json) (field : Bytes)
      → ((v : Json) → lib.is_object v ≡ true → validate lib v ≡ validate other v)
      → lib.is_object object ≡ true
      → HasObject lib object field
      → validate lib (lib.at object field) ≡ validate other (other.at object field)
  below validate object field same o (there, child) =
      same (lib.at object field) child ∙ ap (validate other) (g.at object field o there)

  validate_message_content_interaction-eq :
      (interaction : Json)
      → validate_message_content_interaction lib interaction
        ≡ validate_message_content_interaction other interaction
  unfolding validate_message_content_interaction
  validate_message_content_interaction-eq interaction =
      and_then-eq _ _ _ _ (require-eq _ _ _ (g.is_object interaction)) λ object.
        let o = passed _ _ object in
        and_then-eq _ _ _ _ (reject_unknown_children-eq _ _ _ o)
          λ _. require_string_child-eq _ _ _ o

  validate_interaction-eq :
      (type : ActionType) (interaction : Json)
      → validate_interaction lib type interaction ≡ validate_interaction other type interaction
  unfolding validate_interaction
  validate_interaction-eq user_message interaction =
      validate_message_content_interaction-eq interaction
  validate_interaction-eq assistant_message interaction =
      validate_message_content_interaction-eq interaction
  validate_interaction-eq invalid_action interaction = refl

  validate_action-eq :
      (action : Json)
      → lib.is_object action ≡ true
      → validate_action lib action ≡ validate_action other action
  unfolding validate_action
  validate_action-eq action o = and_then-eq _ _ _ _ (reject_unknown_children-eq _ _ _ o) λ _.
      and_then-eq _ _ _ _ (require_string_child-eq _ _ _ o) λ typed.
        let same = ap parse_action_type (child-text _ _ o (string_child _ _ _ typed)) in
        and_then-eq _ _ _ _ (require-eq _ _ _ (ap is_known same)) λ _.
          and_then-eq _ _ _ _ (require_string_child-eq _ _ _ o) λ _.
            and_then-eq _ _ _ _ (require-eq _ _ _ (g.contains action (codes "interaction") o))
              λ there.
                validate_interaction-eq _ _
                ∙ ap (λ t. validate_interaction other t (lib.at action (codes "interaction"))) same
                ∙ ap (validate_interaction other _)
                    (g.at action (codes "interaction") o (passed _ _ there))

  validate_state-eq :
      (state : Json)
      → lib.is_object state ≡ true
      → validate_state lib state ≡ validate_state other state
  unfolding validate_state
  validate_state-eq state o = and_then-eq _ _ _ _ (reject_unknown_children-eq _ _ _ o) λ _.
      and_then-eq _ _ _ _ (require_string_child-eq _ _ _ o) λ _.
        and_then-eq _ _ _ _ (require_string_child-eq _ _ _ o) λ _. require_object_child-eq _ _ _ o

  validate_metadata-eq :
      (metadata : Json)
      → lib.is_object metadata ≡ true
      → validate_metadata lib metadata ≡ validate_metadata other metadata
  unfolding validate_metadata
  validate_metadata-eq metadata o = and_then-eq _ _ _ _ (reject_unknown_children-eq _ _ _ o) λ _.
      and_then-eq _ _ _ _ (require_string_child-eq _ _ _ o) λ _.
        and_then-eq _ _ _ _ (require_string_child-eq _ _ _ o) λ _.
          and_then-eq _ _ _ _ (require_string_child-eq _ _ _ o) λ _. require_string_child-eq _ _ _ o

  validate_value-eq :
      (value : Json)
      → lib.is_object value ≡ true
      → validate_value lib value ≡ validate_value other value
  unfolding validate_value
  validate_value-eq value o = and_then-eq _ _ _ _ (reject_unknown_children-eq _ _ _ o) λ _.
      and_then-eq _ _ _ _ (require_object_child-eq _ _ _ o) λ action.
        and_then-eq _ _ _ _
          (below validate_action value _ validate_action-eq o (object_child _ _ _ action))
          λ _. and_then-eq _ _ _ _ (require_object_child-eq _ _ _ o) λ state.
            and_then-eq _ _ _ _
              (below validate_state value _ validate_state-eq o (object_child _ _ _ state))
              λ _. and_then-eq _ _ _ _ (require_object_child-eq _ _ _ o) λ metadata.
                below validate_metadata value _ validate_metadata-eq o (object_child _ _ _ metadata)

  validate_set_action_request-eq :
      (request : Json)
      → validate_set_action_request lib request ≡ validate_set_action_request other request
  unfolding validate_set_action_request
  validate_set_action_request-eq request =
      and_then-eq _ _ _ _ (require-eq _ _ _ (g.is_object request)) λ object.
        let o = passed _ _ object in
        and_then-eq _ _ _ _ (reject_unknown_children-eq _ _ _ o) λ _.
          and_then-eq _ _ _ _ (require_string_child-eq _ _ _ o) λ op.
            and_then-eq _ _ _ _
              (require-eq _ _ _
                (ap is_valid_set_operation (child-text _ _ o (string_child _ _ _ op))))
              λ _. and_then-eq _ _ _ _ (require_string_child-eq _ _ _ o) λ _.
                and_then-eq _ _ _ _ (require_string_child-eq _ _ _ o) λ _.
                  and_then-eq _ _ _ _ (require_object_child-eq _ _ _ o) λ value.
                    below validate_value request _ validate_value-eq o (object_child _ _ _ value)

  -- Over two libraries with the same type tests, the same children of objects and the same texts of
  -- strings, whatever else they return where `items`, `contains`, `at` or a text is asked of another
  -- value: a request has the same result, its message included. So no result rests on a child that
  -- is not there or on the text of what is no string.
  pub validate_request-eq :
      (request : Json) → validate_request lib request ≡ validate_request other request
  unfolding validate_request
  validate_request-eq request =
      and_then-eq _ _ _ _ (require-eq _ _ _ (g.is_object request)) λ object.
        let o = passed _ _ object in
        and_then-eq _ _ _ _ (require-eq _ _ _ (g.contains request (codes "op") o)) λ there.
          let same = g.at request (codes "op") o (passed _ _ there) in
          and_then-eq _ _ _ _
            (require-eq _ _ _ (ap lib.is_string same ∙ g.is_string (other.at request (codes "op"))))
            λ string.
              and_then-eq _ _ _ _
                (require-eq _ _ _ (
                  ap is_valid_set_operation (
                    g.text (lib.at request (codes "op")) (passed _ _ string) ∙ ap other.text same)))
                λ _. validate_set_action_request-eq request
