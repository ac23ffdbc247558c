-- ===== src/Snapshot/Load.antt =====
-- `Load` reads back the image of a map.
use agent_kv.Prelude.{
  ℕ, ◌≤◌, ◌<◌, ◌^◌, Bytes, [], ◌∷◌, ◌++◌, length, append_assoc, append-nil, none, some, true, ◌≡◌,
  refl, sym, ap, subst, ◌∙◌, arith, ltb-false,
}
use agent_kv.Exec.{ok}
use agent_kv.Map.{Map, IsMap}
use agent_kv.Map.Laws.{insert-new, IsMap-before}
use agent_kv.Disk.{Disk}
use agent_kv.BinaryIo.{le_bytes, read_primitive}
use agent_kv.BinaryIo.Codec.{sized, read_primitive-le_bytes, read_bytes-append}
use agent_kv.Snapshot.{
  nothing_loaded, snapshot_magic, snapshot_version, max_field_length, read_value, read_key,
  read_entry, load_entries, load_all, load_metadata, load_file, load,
}
use agent_kv.Snapshot.Image.{entries_bytes, image, IsStorable}

read_value-written :
    (key value rest : Bytes)
    → length value ≤ max_field_length
    → read_value key (read_primitive 4 (sized value ++ rest)) ≡ ok (some (key, value, rest))
unfolding read_value
read_value-written key value rest v = rw (
  append_assoc,
  read_primitive-le_bytes 4 (length value) (value ++ rest) (omega arith),
  ltb-false max_field_length (length value) v,
  read_bytes-append (length value) value rest refl,
)

-- Behind the size of an entry's key.
pub read_entry-sized :
    (key value rest : Bytes)
    → (sized key ++ sized value) ++ rest ≡ le_bytes 4 (length key) ++ (key ++ (sized value ++ rest))
read_entry-sized key value rest =
    append_assoc (sized key) (sized value) rest
    ∙ append_assoc (le_bytes 4 (length key)) key (sized value ++ rest)

-- Behind a key that is not too long.
pub read_entry-read_value :
    (key value rest : Bytes)
    → length key ≤ max_field_length
    → read_entry ((sized key ++ sized value) ++ rest)
      ≡ read_value key (read_primitive 4 (sized value ++ rest))
unfolding read_entry read_key
read_entry-read_value key value rest k =
    ap (λ input. read_key (read_primitive 4 input)) (read_entry-sized key value rest)
    ∙ rw (
      read_primitive-le_bytes 4 (length key) (key ++ (sized value ++ rest)) (omega arith),
      ltb-false max_field_length (length key) k,
      read_bytes-append (length key) key (sized value ++ rest) refl,
    )

pub read_entry-written :
    (key value rest : Bytes)
    → length key ≤ max_field_length
    → length value ≤ max_field_length
    → read_entry ((sized key ++ sized value) ++ rest) ≡ ok (some (key, value, rest))
read_entry-written key value rest k v =
    read_entry-read_value key value rest k ∙ read_value-written key value rest v

-- The loop appends the entries in the order of the file.
load_entries-written :
    (store loaded : Map)
    → IsStorable store
    → IsMap (loaded ++ store)
    → load_entries (length store) (entries_bytes store) loaded ≡ ok (loaded ++ store)
unfolding load_entries
load_entries-written [] loaded s m = ap ok (sym (append-nil loaded))
load_entries-written ((key, value) ∷ store) loaded (k, v, s) m =
    let seam = append_assoc loaded ((key, value) ∷ []) store in
    let grown = insert-new key value loaded (IsMap-before loaded store key value m) in
    rw (read_entry-written key value (entries_bytes store) k v, load_entries, grown)
      (load_entries-written store (loaded ++ ((key, value) ∷ [])) s (subst IsMap (sym seam) m)
        ∙ ap ok seam)

load_metadata-written :
    (wal_offset count : ℕ) (rest : Bytes)
    → count < 2 ^ 32
    → wal_offset < 2 ^ 64
    → load_metadata
        (le_bytes 4 snapshot_version ++ (le_bytes 8 wal_offset ++ (le_bytes 4 count ++ rest)))
      ≡ load_all count wal_offset rest
unfolding load_metadata
load_metadata-written wal_offset count rest few small = rw (
  read_primitive-le_bytes 4 1 (le_bytes 8 wal_offset ++ (le_bytes 4 count ++ rest)) (omega arith),
  load_metadata,
  read_primitive-le_bytes 8 wal_offset (le_bytes 4 count ++ rest) small,
  load_metadata,
  read_primitive-le_bytes 4 count rest few,
  load_metadata,
)

-- Behind the magic number of a snapshot.
pub load_file-magic :
    (path : Bytes) (d : Disk) (rest : Bytes) (old : Map)
    → d.files path ≡ some (le_bytes 4 snapshot_magic ++ rest)
    → load path d old ≡ load_metadata rest
unfolding load load_file
load_file-magic path d rest old file =
    ap (λ f. load_file f old) file
    ∙ rw (read_primitive-le_bytes 4 snapshot_magic rest (omega arith), load_file)

-- Behind the header of a snapshot.
pub load-header :
    (path : Bytes) (d : Disk) (wal_offset count : ℕ) (rest : Bytes) (old : Map)
    → d.files path
      ≡ some (
          le_bytes 4 snapshot_magic
          ++ (le_bytes 4 snapshot_version ++ (le_bytes 8 wal_offset ++ (le_bytes 4 count ++ rest))))
    → count < 2 ^ 32
    → wal_offset < 2 ^ 64
    → load path d old ≡ load_all count wal_offset rest
load-header path d wal_offset count rest old file few small =
    load_file-magic path d _ old file ∙ load_metadata-written wal_offset count rest few small

-- Loading a file that is the image of a map gives that map, its size and the offset, whatever was in
-- memory before. The keys are distinct, no field is longer than the limit, and the size and the
-- offset fit their fields.
pub load-image :
    (path : Bytes) (d : Disk) (wal_offset : ℕ) (store old : Map)
    → d.files path ≡ some (image wal_offset store)
    → IsStorable store
    → IsMap store
    → length store < 2 ^ 32
    → wal_offset < 2 ^ 64
    → load path d old
      ≡ ok (record { loaded = true; entry_count = length store; wal_offset = wal_offset }, store)
unfolding load_all image
load-image path d wal_offset store old file s m few small =
    load-header path d wal_offset (length store) (entries_bytes store) old file few small
    ∙ rw (load_entries-written store [] s m, load_all)

-- With no snapshot file nothing is loaded, and the map stays.
pub load-none :
    (path : Bytes) (d : Disk) (old : Map)
    → d.files path ≡ none
    → load path d old ≡ ok (nothing_loaded, old)
unfolding load load_file
load-none path d old file = ap (λ f. load_file f old) file
