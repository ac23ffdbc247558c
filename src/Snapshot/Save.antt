-- ===== src/Snapshot/Save.antt =====
-- `Save` replaces the snapshot by the whole image of the map, or leaves it as it was.
use agent_kv.Prelude.{
  ℕ, ◌-◌, ◌≤◌, ◌<◌, ◌%◌, ◌^◌, Bytes, codes, [], ◌∷◌, ◌++◌, length, length-append, append_assoc,
  append-nil, Option, some, ◌≡◌, ◌≢◌, refl, sym, ap, subst, arith, bytes_eq_refl, bytes_eq-ne, ltb,
  ltb→le, inl, inr, Bool-cases, if_true, if_false,
}
use agent_kv.Exec.{Result, ok, err}
use agent_kv.Map.{Map}
use agent_kv.Disk.{Disk, Channel, open_trunc, rename}
use agent_kv.Disk.Writes.{Wrote}
use agent_kv.Disk.Moves.{open_trunc-Holds, rename-moves}
use agent_kv.BinaryIo.{le_bytes, max_size}
use agent_kv.BinaryIo.Codec.{sized}
use agent_kv.BinaryIo.Streams.{checked_size-fits}
use agent_kv.BinaryIo.Progress.{Runs, Runs-then, Runs-primitive, Runs-bytes, Runs-sync, Runs-pure}
use agent_kv.Snapshot.{
  snapshot_magic, snapshot_version, checked_entry_count, write_entry, write_entries, write_image,
  temp_path, commit, save_at, save,
}
use agent_kv.Snapshot.Image.{entries_bytes, image, IsEncodable}

module _ {path : Bytes} {others : Bytes → Option Bytes} where
  write_entry-Runs :
      (key value : Bytes)
      → length key ≤ max_size
      → length value ≤ max_size
      → Runs path others (sized key ++ sized value) (write_entry key value)
  unfolding write_entry
  write_entry-Runs key value k v =
      subst (λ b. Runs path others b (write_entry key value))
        (sym (append_assoc (le_bytes 4 (length key)) key (sized value)))
        (rw
          (
            checked_size-fits key (codes "Snapshot key") (omega arith),
            checked_size-fits value (codes "Snapshot value") (omega arith),
          )
          (Runs-then (Runs-primitive 4 (length key) (codes "Snapshot key size")) (
            Runs-then (Runs-bytes key (codes "Snapshot key")) (
              Runs-then (Runs-primitive 4 (length value) (codes "Snapshot value size"))
                (Runs-bytes value (codes "Snapshot value"))))))

  write_entries-Runs :
      (store : Map)
      → IsEncodable store
      → Runs path others (entries_bytes store) (write_entries store)
  unfolding write_entries
  write_entries-Runs [] _ = Runs-pure
  write_entries-Runs ((key, value) ∷ store) (k, v, s) =
      Runs-then (write_entry-Runs key value k v) (write_entries-Runs store s)

  pub write_image-Runs :
      (wal_offset : ℕ) (store : Map)
      → IsEncodable store
      → Runs path others (image wal_offset store) (write_image wal_offset (length store) store)
  unfolding write_image image
  write_image-Runs wal_offset store s =
      subst (λ b. Runs path others b (write_image wal_offset (length store) store))
        (rw (append-nil (entries_bytes store)))
        (Runs-then (Runs-primitive 4 snapshot_magic (codes "Snapshot magic")) (
          Runs-then (Runs-primitive 4 snapshot_version (codes "Snapshot version")) (
            Runs-then (Runs-primitive 8 wal_offset (codes "Snapshot WAL offset")) (
              Runs-then (Runs-primitive 4 (length store) (codes "Snapshot entry count")) (
                Runs-then (write_entries-Runs store s)
                  (Runs-sync (codes "failed to write temp snapshot file")))))))

pub temp_path-ne : (path : Bytes) → temp_path path ≢ path
temp_path-ne path e = absurd (omega (arith, length-append path (codes ".tmp"), ap length e))

-- The outcome of a save: the snapshot is the image of the map, or is what it was before. Files other
-- than the snapshot and the temporary file stay as they were.
abbrev pub Saved : Bytes → Map → ℕ → Disk → Result (Unit {0}) × Disk → Type 0
Saved path store wal_offset d (ok _, d') =
    (d'.files path ≡ some (image wal_offset store))
    × ((q : Bytes) → path ≢ q → temp_path path ≢ q → d'.files q ≡ d.files q)
Saved path store wal_offset d (err _, d') =
    (d'.files path ≡ d.files path)
    × ((q : Bytes) → path ≢ q → temp_path path ≢ q → d'.files q ≡ d.files q)

module _ (path : Bytes) (store : Map) (wal_offset : ℕ) (d : Disk) where
  temp : Bytes
  temp = temp_path path

  -- The files as the writes of the temporary file left them: only it may differ.
  untouched :
      (d' : Disk)
      → ((q : Bytes) → temp_path path ≢ q → d'.files q ≡ d.files q)
      → (message : Bytes) → Saved path store wal_offset d (err message, d')
  untouched d' rest message = (rest path (temp_path-ne path), λ q _ ne. rest q ne)

  commit-Saved :
      (outcome : Result (Unit {0}) × Channel)
      → Wrote (temp_path path) [] (image wal_offset store) d.files outcome
      → Saved path store wal_offset d (commit path outcome)
  unfolding commit
  commit-Saved (err message, c) (down, written, missing, joined, h) =
      untouched c.disk h.rest message
  commit-Saved (ok u, c) (up, h) =
      elim (rename-moves (temp_path path) path (image wal_offset store) c.disk h.file) [
        | inl (moved, files) ↦ rw moved (
          subst (λ (f : Bytes → Option Bytes). f path ≡ some (image wal_offset store)) (sym files)
              (rw (bytes_eq_refl path)),
          λ q ne ne'.
              subst (λ (f : Bytes → Option Bytes). f q ≡ d.files q) (sym files)
                (rw (bytes_eq-ne path q ne, bytes_eq-ne (temp_path path) q ne') (h.rest q ne')),
        )
        | inr (kept, files) ↦ rw kept (
            untouched (rename (temp_path path) path c.disk).1
              (λ q ne.
                subst (λ (f : Bytes → Option Bytes). f q ≡ d.files q) (sym files) (h.rest q ne))
              (codes "failed to replace snapshot file: " ++ path))
      ]

  save_at-Saved :
      IsEncodable store
      → Saved path store wal_offset d (save_at path store wal_offset (length store) d)
  unfolding save_at
  save_at-Saved s = elim (open_trunc-Holds (temp_path path) d) [
    | inl (up, h) ↦ subst (Saved path store wal_offset d) (sym (if_true _ _ _ up)) (
        commit-Saved _
          ((write_image-Runs wal_offset store s).writes.at [] (open_trunc (temp_path path) d) up h))
    | inr (down, files) ↦ subst (Saved path store wal_offset d) (sym (if_false _ _ _ down)) (
      ap (λ (f : Bytes → Option Bytes). f path) files,
      λ q _ _. ap (λ (f : Bytes → Option Bytes). f q) files,
    )
  ]

  -- Whatever fails, saving a map whose fields' lengths fit in 32 bits leaves at the
  -- snapshot's path the image of that map if it returns, and the old file if it throws; no file but
  -- that and the temporary one is changed.
  pub save-Saved : IsEncodable store → Saved path store wal_offset d (save path store wal_offset d)
  unfolding save checked_entry_count
  save-Saved s = elim (Bool-cases (ltb (2 ^ 32 - 1) (length store))) [
    | inl many ↦ rw many (refl, λ q _ _. refl)
    | inr few ↦
        let fits : length store ≤ 2 ^ 32 - 1 = ltb→le _ _ few in
        let e : length store % 2 ^ 32 ≡ length store = omega arith in
        rw few (rw e (save_at-Saved s))
  ]

-- A save returns only for a number of entries that its count field holds.
abbrev pub Counted : Map → Result (Unit {0}) × Disk → Type 0
Counted store (ok _, d) = length store < 2 ^ 32
Counted store (err _, d) = Unit

Counted-few :
    (store : Map) (outcome : Result (Unit {0}) × Disk)
    → length store < 2 ^ 32
    → Counted store outcome
Counted-few store (ok u, d) few = few
Counted-few store (err e, d) few = tt

pub save-Counted :
    (path : Bytes) (store : Map) (wal_offset : ℕ) (d : Disk)
    → Counted store (save path store wal_offset d)
unfolding save checked_entry_count
save-Counted path store wal_offset d = elim (Bool-cases (ltb (2 ^ 32 - 1) (length store))) [
  | inl many ↦ rw many tt
  | inr few ↦
      let fits : length store ≤ 2 ^ 32 - 1 = ltb→le _ _ few in
      rw few
        (Counted-few store (save_at path store wal_offset (length store % 2 ^ 32) d) (omega arith))
]
