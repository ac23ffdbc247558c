-- ===== src/Snapshot/Image.antt =====
-- The contents of a snapshot file.
use agent_kv.Prelude.{ℕ, ◌≤◌, Bytes, [], ◌∷◌, ◌++◌, length, arith}
use agent_kv.Map.{Map}
use agent_kv.BinaryIo.{le_bytes, max_size}
use agent_kv.BinaryIo.Codec.{sized}
use agent_kv.Snapshot.{snapshot_magic, snapshot_version, max_field_length}

abbrev pub entries_bytes : Map → Bytes
entries_bytes [] = []
entries_bytes ((key, value) ∷ store) = (sized key ++ sized value) ++ entries_bytes store

unfoldable pub image : ℕ → Map → Bytes
image wal_offset store =
    le_bytes 4 snapshot_magic
    ++ (le_bytes 4 snapshot_version
        ++ (le_bytes 8 wal_offset ++ (le_bytes 4 (length store) ++ entries_bytes store)))

-- No key or value is longer than what a load accepts.
abbrev pub IsStorable : Map → Type 0
IsStorable [] = Unit
IsStorable ((key, value) ∷ store) =
    (length key ≤ max_field_length) × (length value ≤ max_field_length) × IsStorable store

-- No key or value is longer than its size field holds.
abbrev pub IsEncodable : Map → Type 0
IsEncodable [] = Unit
IsEncodable ((key, value) ∷ store) =
    (length key ≤ max_size) × (length value ≤ max_size) × IsEncodable store

pub IsStorable-IsEncodable : (store : Map) → IsStorable store → IsEncodable store
IsStorable-IsEncodable [] _ = tt
IsStorable-IsEncodable ((key, value) ∷ store) (k, v, s) =
    (omega arith, omega arith, IsStorable-IsEncodable store s)
