-- ===== src/Map.antt =====
-- `std::unordered_map<std::string, std::string>`: entries in some order, with distinct keys.
pub mod Laws
pub mod Table
use agent_kv.Prelude.{ℕ, Bytes, bytes_eq, Bool, List, [], ◌∷◌, Option, none, some, length}
use agent_kv.Prelude.{◌≡◌, if◌then◌else◌}

abbrev pub Map : Type 0
Map = List (Bytes × Bytes)

-- `find`
unfoldable pub lookup : Bytes → Map → Option Bytes
lookup k [] = none
lookup k ((j, v) ∷ m) = if bytes_eq j k then some v else lookup k m

-- `map[k] = v`
unfoldable pub insert : Bytes → Bytes → Map → Map
insert k v [] = (k, v) ∷ []
insert k v ((j, w) ∷ m) = if bytes_eq j k then (j, v) ∷ m else (j, w) ∷ insert k v m

-- `erase(k)`
unfoldable pub erase : Bytes → Map → Map
erase k [] = []
erase k ((j, w) ∷ m) = if bytes_eq j k then m else (j, w) ∷ erase k m

-- Each key stands in one entry.
abbrev pub IsMap : Map → Type 0
IsMap [] = Unit
IsMap ((k, v) ∷ m) = (lookup k m ≡ none) × IsMap m
