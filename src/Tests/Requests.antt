-- ===== src/Tests/Requests.antt =====
-- The theorems on JSON requests, over a small type of documents.
use agent_kv.Prelude.{
  Bool-cases, inl, inr, Bytes, bytes_eq, codes, List, [], ◌∷◌, Bool, true, false, ◌≡◌, ◌↔◌, refl,
  if◌then◌else◌,
}
use agent_kv.Json.{JsonLib, Parsed, parsed, malformed}
use agent_kv.Json.Helpers.{
  and_then, require, is_allowed, reject_unknown, reject_unknown_children, require_string_child,
  require_object_child,
}
use agent_kv.Json.Actions.{
  parse_action_type, validate_message_content_interaction, validate_interaction, validate_action,
}
use agent_kv.Json.Enforcer.{
  is_valid_set_operation, validate_state, validate_metadata, validate_value,
  validate_set_action_request, validate_request,
}
use agent_kv.Json.Shape.{IsRequest}
use agent_kv.Json.Guarded.{Agree, validate_request-eq}
use mathlib.Core.Bool.{false≢true}
use agent_kv.Json.Accepts.{validate_request_iff}

mutual
  pub data Doc : Type 0 where
    string_doc : Bytes → Doc
    object_doc : Fields → Doc

  pub data Fields : Type 0 where
    end_of : Fields
    field : Bytes → Doc → Fields → Fields

abbrev fields_of : Doc → Fields
fields_of (string_doc text) = end_of
fields_of (object_doc fields) = fields

abbrev items_of : Fields → List (Bytes × Doc)
items_of end_of = []
items_of (field key value fields) = (key, value) ∷ items_of fields

has_field : Fields → Bytes → Bool
has_field end_of key = false
has_field (field k value fields) key = if bytes_eq k key then true else has_field fields key

field_at : Fields → Bytes → Doc
field_at end_of key = string_doc []
field_at (field k value fields) key = if bytes_eq k key then value else field_at fields key

abbrev is_object_doc : Doc → Bool
is_object_doc (string_doc text) = false
is_object_doc (object_doc _) = true

abbrev is_string_doc : Doc → Bool
is_string_doc (string_doc text) = true
is_string_doc (object_doc _) = false

abbrev text_of : Doc → Bytes
text_of (string_doc text) = text
text_of (object_doc _) = []

pub docs : JsonLib Doc
unfolding has_field field_at
docs = record {
  items = λ d. items_of (fields_of d);
  contains = λ d key. has_field (fields_of d) key;
  at = λ d key. field_at (fields_of d) key;
  is_object = is_object_doc;
  is_string = is_string_doc;
  text = text_of;
}

abbrev word : Bytes → Fields → Fields
word key fields = field key (string_doc (codes "x")) fields

abbrev action : Doc
action = object_doc (
    field (codes "type") (string_doc (codes "user_message")) (
      word (codes "name")
        (field (codes "interaction") (object_doc (word (codes "content") end_of)) end_of)))

abbrev state : Doc
state = object_doc (
    word (codes "goal")
      (word (codes "status") (field (codes "context") (object_doc end_of) end_of)))

abbrev metadata : Doc
metadata = object_doc (
    word (codes "provider")
      (word (codes "model") (word (codes "timestamp") (word (codes "trace_id") end_of))))

abbrev request : Doc
request = object_doc (
    field (codes "op") (string_doc (codes "log_step")) (
      word (codes "session_id") (
        word (codes "event_id") (
          field (codes "value")
            (object_doc (
              field (codes "action") action
                (field (codes "state") state (field (codes "metadata") metadata end_of))))
            end_of))))

request_accepted : (validate_request docs request).ok ≡ true
unfolding docs validate_request bytes_eq and_then require is_valid_set_operation
    validate_set_action_request reject_unknown_children reject_unknown is_allowed
    require_string_child require_object_child validate_value validate_action parse_action_type
    validate_interaction validate_message_content_interaction validate_state validate_metadata
request_accepted = refl

validate_request_iff_example : ((validate_request docs request).ok ≡ true) ↔ IsRequest docs request
validate_request_iff_example = validate_request_iff docs request

abbrev pub parse_any : Bytes → Parsed Doc
parse_any [] = malformed (codes "no input")
parse_any (c ∷ cs) = parsed request

-- A library that answers otherwise where a child is not there, or a text is asked of an object.
other_field_at : Fields → Bytes → Doc
other_field_at end_of key = object_doc end_of
other_field_at (field k value fields) key =
    if bytes_eq k key then value else other_field_at fields key

abbrev other_text_of : Doc → Bytes
other_text_of (string_doc text) = text
other_text_of (object_doc _) = codes "{}"

others : JsonLib Doc
unfolding docs other_field_at
others = record docs { at = λ d key. other_field_at (fields_of d) key; text = other_text_of }

field_at-same :
    (fields : Fields) (key : Bytes)
    → has_field fields key ≡ true
    → field_at fields key ≡ other_field_at fields key
unfolding has_field field_at other_field_at
field_at-same end_of key absent = absurd (false≢true absent)
field_at-same (field k value fields) key there = elim (Bool-cases (bytes_eq k key)) [
  | inl same ↦ rw same refl
  | inr different ↦ rw different (field_at-same fields key (rw different at there))
]

text-same : (v : Doc) → is_string_doc v ≡ true → text_of v ≡ other_text_of v
text-same (string_doc text) _ = refl
text-same (object_doc _) absent = absurd (false≢true absent)

docs-Agree : Agree docs others
unfolding docs others has_field field_at other_field_at
docs-Agree = record {
  is_object = λ v. refl;
  is_string = λ v. refl;
  items = λ v _. refl;
  contains = λ v key _. refl;
  at = λ v key _ there. field_at-same (fields_of v) key there;
  text = text-same;
}

validate_request-eq_example : validate_request docs request ≡ validate_request others request
validate_request-eq_example = validate_request-eq docs others docs-Agree request
