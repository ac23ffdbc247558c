-- ===== src/KvStore/Requests.antt =====
-- Each request of a client keeps the store durable, whatever fails; and so does any sequence.
use agent_kv.Prelude.{Bytes, Bool, true, ◌≡◌, ◌≢◌, ◌⊎◌, inl, inr, sym, subst}
use agent_kv.Exec.{Result, ok, err}
use agent_kv.Map.{Map}
use agent_kv.Snapshot.{temp_path}
use agent_kv.Wal.Frame.{Op, put, remove, apply_op}
use agent_kv.KvStore.{World, set, contains, delete, save_snapshot}
use agent_kv.KvStore.Durable.{Backed, IsDurable}
use agent_kv.KvStore.Locate.{entries-IsStorable, entries-IsMap}
use agent_kv.KvStore.Behind.{kept}
use agent_kv.KvStore.Parted.{Parted, set-Parted, delete-Parted, SavesAll, save_snapshot-SavesAll}

module _ (wal_path snapshot_path : Bytes) where
  -- The outcome of a mutation: a call that returns has changed the map by its operation, and its
  -- reply satisfies `Q`; one that throws has changed it so, or has left it. The disk keeps in step.
  abbrev pub Done : {A : Type 0} → Op → World → (A → Type 0) → Result A × World → Type 0
  Done op s Q (ok a, s') =
      (s'.store.entries ≡ apply_op op s.store.entries) × Q a × IsDurable wal_path snapshot_path s'
  Done op s Q (err _, s') =
      ((s'.store.entries ≡ apply_op op s.store.entries) ⊎ (s'.store.entries ≡ s.store.entries))
      × IsDurable wal_path snapshot_path s'

module _ (wal_path snapshot_path : Bytes) where
  -- The outcome of a call that keeps the map.
  abbrev pub Ends : {A : Type 0} → (A → Type 0) → World → Result A × World → Type 0
  Ends Q s (ok a, s') =
      (s'.store.entries ≡ s.store.entries) × Q a × IsDurable wal_path snapshot_path s'
  Ends Q s (err _, s') = (s'.store.entries ≡ s.store.entries) × IsDurable wal_path snapshot_path s'

module _ {wal_path snapshot_path : Bytes} (apart : wal_path ≢ snapshot_path)
    (apart' : wal_path ≢ temp_path snapshot_path) where
  moved :
      (m : Map) (s : World)
      → s.store.entries ≡ m
      → Backed wal_path snapshot_path m s
      → IsDurable wal_path snapshot_path s
  moved m s e = subst (λ n. Backed wal_path snapshot_path n s) (sym e)

  Parted-Done :
      {A : Type 0} (op : Op) (s : World) (Q : A → Type 0) (r : Result A × World)
      → Parted wal_path snapshot_path op (kept s.store.entries) s Q r
      → Done wal_path snapshot_path op s Q r
  Parted-Done op s Q (ok a, s') (grown, _, q, inl b) = (grown, q, moved _ s' grown b)
  Parted-Done op s Q (ok a, s') (grown, _, q, inr b) = (grown, q, b)
  Parted-Done op s Q (err e, s') (inl (grown, _, b)) = (inl grown, moved _ s' grown b)
  Parted-Done op s Q (err e, s') (inr (same, b)) = (inr same, moved _ s' same b)

  -- From a durable store, with any failures of the disk: a `Set` that returns has inserted the
  -- entry, one that throws has inserted it or left the map, and the disk rebuilds the map.
  pub set-Done :
      (key value : Bytes) (s : World)
      → IsDurable wal_path snapshot_path s
      → Done wal_path snapshot_path (put key value) s (λ _. Unit) (set key value s)
  set-Done key value s b =
      Parted-Done (put key value) s (λ _. Unit) (set key value s)
        (set-Parted apart apart' (kept s.store.entries) key value s b (entries-IsStorable b)
          (entries-IsMap b))

  -- From a durable store, with any failures of the disk: a `Delete` that returns has erased the key
  -- and replies whether it was there, one that throws has erased it or left the map, and the disk
  -- rebuilds the map.
  pub delete-Done :
      (key : Bytes) (s : World)
      → IsDurable wal_path snapshot_path s
      → Done wal_path snapshot_path
          (remove key)
          s
          (λ erased. erased ≡ contains key s)
          (delete key s)
  delete-Done key s b =
      Parted-Done (remove key) s (λ erased. erased ≡ contains key s) (delete key s)
        (delete-Parted apart apart' (kept s.store.entries) key s b (entries-IsStorable b)
          (entries-IsMap b))

  SavesAll-Ends :
      (s : World) (r : Result Bool × World)
      → SavesAll apart apart' (kept s.store.entries) s r
      → Ends wal_path snapshot_path (λ saved. saved ≡ true) s r
  SavesAll-Ends s (ok b, s') (q, same, d) = (same, q, d)
  SavesAll-Ends s (err e, s') (same, b) = (same, moved _ s' same b)

  -- From a durable store that has a snapshot path, with any failures of the disk: `SaveSnapshot`
  -- changes no entry, replies `true` or throws, and the disk still rebuilds the map.
  pub save_snapshot-Ends :
      (s : World)
      → IsDurable wal_path snapshot_path s
      → Ends wal_path snapshot_path (λ saved. saved ≡ true) s (save_snapshot s)
  save_snapshot-Ends s b = SavesAll-Ends s (save_snapshot s) (
      save_snapshot-SavesAll apart apart' (kept s.store.entries) s b (entries-IsStorable b)
        (entries-IsMap b))
