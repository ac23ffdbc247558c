-- ===== src/Json/Shape.antt =====
-- The shape of a request that the messages of src/parser/json_enforcer.cpp and
-- src/parser/action_validation.cpp name: each field with its type, the operations, the action types,
-- and no other field; over the accessors of the JSON library. The examples of README.md have other
-- operations, action types and fields.
use agent_kv.Prelude.{Bytes, codes, List, [], ◌∷◌, All, true, ◌≡◌, ◌⊎◌}
use agent_kv.Json.{JsonLib}

abbrev pub OneOf : Bytes → List Bytes → Type 0
OneOf key [] = ⊥
OneOf key (a ∷ allowed) = (a ≡ key) ⊎ OneOf key allowed

module _ {Json : Type 0} (lib : JsonLib Json) where
  abbrev pub OnlyChildren : Json → List Bytes → Type 0
  OnlyChildren object allowed =
      All (λ (item : Bytes × Json). OneOf item.0 allowed) (lib.items object)

  abbrev pub HasString : Json → Bytes → Type 0
  HasString object field =
      (lib.contains object field ≡ true) × (lib.is_string (lib.at object field) ≡ true)

  abbrev pub HasObject : Json → Bytes → Type 0
  HasObject object field =
      (lib.contains object field ≡ true) × (lib.is_object (lib.at object field) ≡ true)

  -- `value.action.interaction`: an object with the string `content` and nothing else.
  abbrev pub IsInteraction : Json → Type 0
  IsInteraction interaction =
      (lib.is_object interaction ≡ true)
      × (OnlyChildren interaction (codes "content" ∷ []) × HasString interaction (codes "content"))

  -- `value.action`: a known type, a name, and an interaction.
  abbrev pub IsAction : Json → Type 0
  IsAction action =
      OnlyChildren action (codes "type" ∷ codes "name" ∷ codes "interaction" ∷ [])
      × (HasString action (codes "type")
          × (OneOf (lib.text (lib.at action (codes "type")))
                (codes "user_message" ∷ codes "assistant_message" ∷ [])
              × (HasString action (codes "name")
                  × ((lib.contains action (codes "interaction") ≡ true)
                      × IsInteraction (lib.at action (codes "interaction"))))))

  abbrev pub IsState : Json → Type 0
  IsState state =
      OnlyChildren state (codes "goal" ∷ codes "status" ∷ codes "context" ∷ [])
      × (HasString state (codes "goal")
          × (HasString state (codes "status") × HasObject state (codes "context")))

  abbrev pub IsMetadata : Json → Type 0
  IsMetadata metadata =
      OnlyChildren metadata
        (codes "provider" ∷ codes "model" ∷ codes "timestamp" ∷ codes "trace_id" ∷ [])
      × (HasString metadata (codes "provider")
          × (HasString metadata (codes "model")
              × (HasString metadata (codes "timestamp") × HasString metadata (codes "trace_id"))))

  abbrev pub IsValue : Json → Type 0
  IsValue value =
      OnlyChildren value (codes "action" ∷ codes "state" ∷ codes "metadata" ∷ [])
      × (HasObject value (codes "action")
          × (IsAction (lib.at value (codes "action"))
              × (HasObject value (codes "state")
                  × (IsState (lib.at value (codes "state"))
                      × (HasObject value (codes "metadata")
                          × IsMetadata (lib.at value (codes "metadata")))))))

  -- A set-action request: an object of the four fields, for one of the two operations.
  abbrev pub IsRequest : Json → Type 0
  IsRequest request =
      (lib.is_object request ≡ true)
      × (OnlyChildren request
            (codes "op" ∷ codes "session_id" ∷ codes "event_id" ∷ codes "value" ∷ [])
          × (HasString request (codes "op")
              × (OneOf (lib.text (lib.at request (codes "op")))
                    (codes "log_step" ∷ codes "set_state" ∷ [])
                  × (HasString request (codes "session_id")
                      × (HasString request (codes "event_id")
                          × (HasObject request (codes "value")
                              × IsValue (lib.at request (codes "value"))))))))
