-- ===== src/Snapshot.antt =====
-- src/persistence/snapshot.cpp, class Snapshot: the whole map written to a temporary file that then
-- replaces the snapshot, and read back. The object is its path.
pub mod Image
pub mod Save
pub mod Load
pub mod Erased
pub mod Oversized
pub mod Torn
pub mod Progress
use agent_kv.Prelude.{
  ℕ, zero, suc, ◌+◌, ◌-◌, ◌*◌, ◌%◌, ◌^◌, Bytes, codes, [], ◌∷◌, ◌++◌, length, Option, none, some,
  Bool, true, false, ltb, ◌==◌, if◌then◌else◌,
}
use agent_kv.Exec.{Result, ok, err, Exec, pure, lift, ◌>>=◌, ◌>>◌}
use agent_kv.Map.{Map, insert}
use agent_kv.Disk.{
  Disk, Channel, Removal, removed, no_entry, refused, sync, modify, require_good, open_trunc,
  rename, remove,
}
use agent_kv.BinaryIo.{checked_size, write_primitive, write_bytes, read_primitive, read_bytes}

-- `kSnapshotMagic`, `kSnapshotVersion`, `kMaxSnapshotFieldLength`
abbrev pub snapshot_magic : ℕ
snapshot_magic = 0x3153564B

abbrev pub snapshot_version : ℕ
snapshot_version = 1

abbrev pub max_field_length : ℕ
max_field_length = 64 * 1024 * 1024

pub record LoadResult : Type 0 where
  pub loaded : Bool
  pub entry_count : ℕ
  pub wal_offset : ℕ

-- `return {};`
abbrev pub nothing_loaded : LoadResult
nothing_loaded = record { loaded = false; entry_count = 0; wal_offset = 0 }

-- `std::remove` may fail only because the file is not there.
unfoldable pub remove_if_exists : Bytes → Bytes → Exec Disk (Unit {0})
remove_if_exists path description d =
    let (status, d') = remove path d in
    elim status [
      | refused ↦ (err (codes "failed to remove " ++ (description ++ (codes ": " ++ path))), d')
      | removed ↦ (ok tt, d')
      | no_entry ↦ (ok tt, d')
    ]

unfoldable pub checked_entry_count : ℕ → Result ℕ
checked_entry_count count =
    if ltb (2 ^ 32 - 1) count then err (codes "too many snapshot entries") else ok (count % 2 ^ 32)

pub write_entry : Bytes → Bytes → Exec Channel (Unit {0})
write_entry key value = do
  key_size ← lift (checked_size key (codes "Snapshot key"))
  value_size ← lift (checked_size value (codes "Snapshot value"))
  write_primitive 4 key_size (codes "Snapshot key size")
  write_bytes key (codes "Snapshot key")
  write_primitive 4 value_size (codes "Snapshot value size")
  write_bytes value (codes "Snapshot value")

-- The loop over the map.
write_entries : Map → Exec Channel (Unit {0})
write_entries [] = pure tt
write_entries ((key, value) ∷ store) = write_entry key value >> write_entries store

pub write_image : ℕ → ℕ → Map → Exec Channel (Unit {0})
write_image wal_offset entry_count store = do
  write_primitive 4 snapshot_magic (codes "Snapshot magic")
  write_primitive 4 snapshot_version (codes "Snapshot version")
  write_primitive 8 wal_offset (codes "Snapshot WAL offset")
  write_primitive 4 entry_count (codes "Snapshot entry count")
  write_entries store
  modify sync
  require_good (codes "failed to write temp snapshot file")

abbrev pub temp_path : Bytes → Bytes
temp_path path = path ++ codes ".tmp"

-- Behind the writes: the temporary file replaces the snapshot.
pub commit : Bytes → Result (Unit {0}) × Channel → Result (Unit {0}) × Disk
commit path (err message, c) = (err message, c.disk)
commit path (ok _, c) =
    let (replaced, d) = rename (temp_path path) path c.disk in
    if replaced then (ok tt, d) else (err (codes "failed to replace snapshot file: " ++ path), d)

save_at : Bytes → Map → ℕ → ℕ → Exec Disk (Unit {0})
save_at path store wal_offset entry_count d =
    let output = open_trunc (temp_path path) d in
    if output.output.good then commit path (write_image wal_offset entry_count store output) else (
      err (codes "failed to open temp snapshot file for write: " ++ temp_path path),
      output.disk,
    )

pub save : Bytes → Map → ℕ → Exec Disk (Unit {0})
save path store wal_offset = do
  entry_count ← lift (checked_entry_count (length store))
  save_at path store wal_offset entry_count

pub clear : Bytes → Exec Disk (Unit {0})
clear path = do
  remove_if_exists path (codes "snapshot file")
  remove_if_exists (temp_path path) (codes "temp snapshot file")

-- `none` for `false`; the entry, and what the stream holds behind it.
abbrev pub Entry : Type 0
Entry = Option (Bytes × Bytes × Bytes)

pub read_value : Bytes → Option (ℕ × Bytes) → Result Entry
read_value key none = ok none
read_value key (some (value_size, input)) =
    if ltb max_field_length value_size
    then err (codes "snapshot value is too large")
    else ok (elim (read_bytes value_size input) [
      | none ↦ none
      | some (value, rest) ↦ some (key, value, rest)
    ])

read_key : Option (ℕ × Bytes) → Result Entry
unfolding read_value
read_key none = ok none
read_key (some (key_size, input)) =
    if ltb max_field_length key_size
    then err (codes "snapshot key is too large")
    else elim (read_bytes key_size input) [
      | none ↦ ok none
      | some (key, rest) ↦ read_value key (read_primitive 4 rest)
    ]

pub read_entry : Bytes → Result Entry
unfolding read_key
read_entry input = read_key (read_primitive 4 input)

-- The loop on `counter`, over the rest of the file.
load_entries : ℕ → Bytes → Map → Result Map
load_entries zero input loaded = ok loaded
load_entries (suc left) input loaded = elim (read_entry input) [
  | err message ↦ err message
  | ok none ↦ err (codes "failed to load snapshot")
  | ok (some (key, value, rest)) ↦ load_entries left rest (insert key value loaded)
]

-- `store` is replaced by what was loaded, and the metadata returned.
pub load_all : ℕ → ℕ → Bytes → Result (LoadResult × Map)
load_all entry_count wal_offset input = elim (load_entries entry_count input []) [
  | err message ↦ err message
  | ok loaded ↦
      ok (record { loaded = true; entry_count = entry_count; wal_offset = wal_offset }, loaded)
]

abbrev metadata_error {ℓ} : {A : Type ℓ} → Result A
metadata_error = err (codes "failed to load snapshot metadata")

-- Behind the magic number: the version, the offset and the count.
pub load_metadata : Bytes → Result (LoadResult × Map)
unfolding load_all
load_metadata input = elim (read_primitive 4 input) [
  | none ↦ metadata_error
  | some (version, at_offset) ↦
      if version == snapshot_version
      then elim (read_primitive 8 at_offset) [
        | none ↦ metadata_error
        | some (wal_offset, at_count) ↦ elim (read_primitive 4 at_count) [
          | none ↦ metadata_error
          | some (entry_count, rest) ↦ load_all entry_count wal_offset rest
        ]
      ]
      else metadata_error
]

-- A file with no magic number is a legacy snapshot, which starts with the entry count.
load_file : Option Bytes → Map → Result (LoadResult × Map)
unfolding load_metadata
load_file none store = ok (nothing_loaded, store)
load_file (some bytes) store = elim (read_primitive 4 bytes) [
  | none ↦ ok (nothing_loaded, store)
  | some (first_field, rest) ↦
      if first_field == snapshot_magic then load_metadata rest else load_all first_field 0 rest
]

pub load : Bytes → Disk → Map → Result (LoadResult × Map)
unfolding load_file
load path d store = load_file (d.files path) store
