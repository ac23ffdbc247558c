-- ===== src/Snapshot/Oversized.antt =====
-- What a save writes and a load refuses: a field above 64 MiB.
use agent_kv.Prelude.{
  ℕ, ◌≤◌, ◌<◌, ◌^◌, Bytes, codes, [], ◌∷◌, ◌++◌, length, append_assoc, some, ◌≡◌, ◌⊎◌, inl, inr, ap,
  ◌∙◌, arith, lt→ltb,
}
use agent_kv.Exec.{Result, err}
use agent_kv.Map.{Map, insert}
use agent_kv.Disk.{Disk}
use agent_kv.BinaryIo.{read_primitive}
use agent_kv.BinaryIo.Codec.{sized, read_primitive-le_bytes}
use agent_kv.Snapshot.{
  max_field_length, read_value, read_key, read_entry, load_entries, load_all, load,
}
use agent_kv.Snapshot.Image.{entries_bytes, image}
use agent_kv.Snapshot.Load.{
  read_entry-sized, read_entry-read_value, read_entry-written, load-header,
}

-- A field that its length can be written of, and that a load refuses.
abbrev pub IsOversized : Bytes → Type 0
IsOversized field = (max_field_length < length field) × (length field < 2 ^ 32)

-- Behind entries that can be stored stands one with an oversized key or value.
abbrev pub HasOversized : Map → Type 0
HasOversized [] = ⊥
HasOversized ((key, value) ∷ store) =
    IsOversized key
    ⊎ ((length key ≤ max_field_length)
        × (IsOversized value ⊎ ((length value ≤ max_field_length) × HasOversized store)))

-- A read that throws.
abbrev Refuses : {A : Type 0} → Result A → Type 0
Refuses {A} r = (e : Bytes) × (r ≡ err e)

key_oversized :
    (key value rest : Bytes)
    → IsOversized key
    → Refuses (read_entry ((sized key ++ sized value) ++ rest))
unfolding read_entry read_key
key_oversized key value rest (large, few) = (
  codes "snapshot key is too large",
  ap (λ input. read_key (read_primitive 4 input)) (read_entry-sized key value rest)
      ∙ rw (
        read_primitive-le_bytes 4 (length key) (key ++ (sized value ++ rest)) (omega arith),
        lt→ltb max_field_length (length key) large,
      ),
)

value_oversized :
    (key value rest : Bytes)
    → length key ≤ max_field_length
    → IsOversized value
    → Refuses (read_entry ((sized key ++ sized value) ++ rest))
unfolding read_value
value_oversized key value rest small (large, few) = (
  codes "snapshot value is too large",
  read_entry-read_value key value rest small
      ∙ rw (
        append_assoc,
        read_primitive-le_bytes 4 (length value) (value ++ rest) (omega arith),
        lt→ltb max_field_length (length value) large,
      ),
)

load_entries_oversized :
    (store loaded : Map)
    → HasOversized store
    → Refuses (load_entries (length store) (entries_bytes store) loaded)
unfolding load_entries
load_entries_oversized [] loaded h = absurd h
load_entries_oversized ((key, value) ∷ store) loaded (inl bad) =
    let (e, refused) = key_oversized key value (entries_bytes store) bad in
    (e, rw (refused, load_entries))
load_entries_oversized ((key, value) ∷ store) loaded (inr (small, inl bad)) =
    let (e, refused) = value_oversized key value (entries_bytes store) small bad in
    (e, rw (refused, load_entries))
load_entries_oversized ((key, value) ∷ store) loaded (inr (small, inr (fine, later))) =
    let (e, refused) = load_entries_oversized store (insert key value loaded) later in
    (e, rw (read_entry-written key value (entries_bytes store) small fine, load_entries) refused)

-- A snapshot of a map with a field above 64 MiB, which a save writes when the field's length fits in
-- 32 bits, is refused by every load: it throws, and the map in memory stays as it was.
pub load_oversized :
    (path : Bytes) (d : Disk) (wal_offset : ℕ) (store old : Map)
    → HasOversized store
    → length store < 2 ^ 32
    → wal_offset < 2 ^ 64
    → d.files path ≡ some (image wal_offset store)
    → (e : Bytes) × (load path d old ≡ err e)
unfolding load_all image
load_oversized path d wal_offset store old large few small file =
    let (e, refused) = load_entries_oversized store [] large in
    (
      e,
      load-header path d wal_offset (length store) (entries_bytes store) old file few small
          ∙ rw (refused, load_all),
    )
