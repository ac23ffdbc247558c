-- ===== src/Json/Helpers.antt =====
-- src/parser/validation_helpers.cpp: results with a message, and the checks of an object's children.
use agent_kv.Prelude.{
  Bytes, bytes_eq, codes, List, [], ◌∷◌, ◌++◌, Bool, true, false, ◌||◌, if◌then◌else◌,
}
use agent_kv.Json.{JsonLib}

pub record ValidationResult : Type 0 where
  pub ok : Bool
  pub error : Bytes

-- `Ok()`
abbrev pub success : ValidationResult
success = record { ok = true; error = [] }

-- `Error(message)`
abbrev pub failure : Bytes → ValidationResult
failure message = record { ok = false; error = message }

-- `if (!result.ok) return result;`
unfoldable pub and_then : ValidationResult → ValidationResult → ValidationResult
and_then result next = if result.ok then next else result

-- `if (!condition) return Error(message);`
unfoldable pub require : Bool → Bytes → ValidationResult
require condition message = if condition then success else failure message

unfoldable pub join_path : Bytes → Bytes → Bytes
join_path [] key = key
join_path (c ∷ cs) key = (c ∷ cs) ++ (codes "." ++ key)

-- `allowed_keys.find(key) != end()`
unfoldable pub is_allowed : List Bytes → Bytes → Bool
is_allowed [] key = false
is_allowed (a ∷ allowed) key = bytes_eq a key || is_allowed allowed key

unfoldable pub reject_unknown {ℓ} :
    {Json : Type ℓ} → List (Bytes × Json) → List Bytes → Bytes → ValidationResult
reject_unknown [] allowed path = success
reject_unknown ((key, value) ∷ items) allowed path =
    let rest = reject_unknown items allowed path in
    if is_allowed allowed key then rest else failure (codes "Unknown field: " ++ join_path path key)

module _ {Json : Type 0} (lib : JsonLib Json) where
  unfoldable pub reject_unknown_children : Json → List Bytes → Bytes → ValidationResult
  reject_unknown_children object allowed_keys path =
      reject_unknown (lib.items object) allowed_keys path

  unfoldable pub require_string_child : Json → Bytes → Bytes → ValidationResult
  require_string_child object field path =
      let field_path = join_path path field in
      and_then
        (require (lib.contains object field) (codes "Missing required field: " ++ field_path))
        (require (lib.is_string (lib.at object field))
          (codes "Invalid field type: " ++ (field_path ++ codes " must be string")))

  unfoldable pub require_object_child : Json → Bytes → Bytes → ValidationResult
  require_object_child object field path =
      let field_path = join_path path field in
      and_then
        (require (lib.contains object field) (codes "Missing required field: " ++ field_path))
        (require (lib.is_object (lib.at object field))
          (codes "Invalid field type: " ++ (field_path ++ codes " must be object")))
