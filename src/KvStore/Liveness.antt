-- ===== src/KvStore/Liveness.antt =====
-- When no call is to fail and the log and the snapshot have room, every request is answered.
use agent_kv.Prelude.{
  ◌+◌, ◌≤◌, Bytes, List, [], ◌∷◌, ◌++◌, length, append-nil, append_assoc, true, ◌≡◌, ◌≢◌, refl, sym,
  subst,
}
use agent_kv.Exec.{Result, ok, err, pure, ◌>>◌}
use agent_kv.Map.{Map}
use agent_kv.Disk.{max_offset}
use agent_kv.Snapshot.{temp_path}
use agent_kv.Wal.Frame.{Op, put, remove, frame, IsWritable, apply_op}
use agent_kv.Wal.Recovery.{frames, apply_ops}
use agent_kv.KvStore.{World, set, contains, delete, save_snapshot, checkpoint, maybe_snapshot}
use agent_kv.KvStore.Parted.{save_snapshot-some}
use agent_kv.KvStore.Progress.{
  Ready, Fits, Returned, Returned-continue, checkpoint-Returned, maybe_snapshot-Returned, mutation,
}
use agent_kv.KvStore.Sessions.{Request, set_entry, delete_entry, take_snapshot, serve, serve_all}

-- The operations that requests log.
unfoldable pub ops_of : List Request → List Op
ops_of [] = []
ops_of (set_entry key value ∷ qs) = put key value ∷ ops_of qs
ops_of (delete_entry key ∷ qs) = remove key ∷ ops_of qs
ops_of (take_snapshot ∷ qs) = ops_of qs

-- The log has room for the operation's frame, and a snapshot for the map it leaves.
pub record OpRoom (file : Bytes) (entries : Map) (op : Op) : Type 0 where
  pub writable : IsWritable op
  pub log : length file + length (frame op) ≤ max_offset
  pub fits : Fits (apply_op op entries)

-- The call has returned.
abbrev pub Returns : {A : Type 0} → Result A × World → Type 0
Returns {A} r = (a : A) × (r.0 ≡ ok a)

-- The call that serves a request returns.
abbrev pub IsServed : Request → World → Type 0
IsServed (set_entry key value) s = Returns (set key value s)
IsServed (delete_entry key) s = Returns (delete key s)
IsServed take_snapshot s = Returns (save_snapshot s)

-- Each request of a list returns in its turn.
abbrev pub AllServed : List Request → World → Type 0
AllServed [] s = Unit
AllServed (q ∷ qs) s = IsServed q s × AllServed qs (serve q s)

-- There is room for each operation of a list in its turn.
abbrev pub HasRoom : Bytes → Map → List Op → Type 0
HasRoom file entries [] = Unit
HasRoom file entries (op ∷ ops) =
    OpRoom file entries op × HasRoom (file ++ frame op) (apply_op op entries) ops

module _ {wal_path snapshot_path : Bytes} (apart : wal_path ≢ snapshot_path)
    (apart' : wal_path ≢ temp_path snapshot_path) where
  -- A `Set` returns.
  pub set-Returned :
      {file : Bytes} {entries : Map} (key value : Bytes) (s : World)
      → OpRoom file entries (put key value)
      → Ready wal_path snapshot_path file entries s
      → Returned apart apart'
          (file ++ frame (put key value))
          (apply_op (put key value) entries)
          (set key value s)
  unfolding set
  set-Returned key value s room r =
      mutation apart apart' (put key value) s (λ _. maybe_snapshot) room.writable room.log r
        (λ _ t r'. maybe_snapshot-Returned apart apart' t room.fits r')

  pub delete-Returned :
      {file : Bytes} {entries : Map} (key : Bytes) (s : World)
      → OpRoom file entries (remove key)
      → Ready wal_path snapshot_path file entries s
      → Returned apart apart'
          (file ++ frame (remove key))
          (apply_op (remove key) entries)
          (delete key s)
  unfolding delete contains
  delete-Returned {file} {entries} key s room r =
      mutation apart apart' (remove key) s (λ s'. maybe_snapshot >> pure (contains key s'))
        room.writable room.log r
        (λ s' t r'.
          Returned-continue apart apart' _ _ (maybe_snapshot t) (λ _. pure (contains key s'))
            (maybe_snapshot-Returned apart apart' t room.fits r') (λ _ _ ready. ready))

  pub save_snapshot-Returned :
      {file : Bytes} {entries : Map} (s : World)
      → Fits entries
      → Ready wal_path snapshot_path file entries s
      → Returned apart apart' file entries (save_snapshot s)
  save_snapshot-Returned {file} {entries} s f r =
      subst (Returned apart apart' file entries) (sym (save_snapshot-some s r.snapshot)) (
        Returned-continue apart apart' _ _ (checkpoint snapshot_path s) (λ _. pure true)
          (checkpoint-Returned apart apart' s f r) (λ _ _ ready. ready))

  pub returned-Ready :
      {A : Type 0} (file : Bytes) (entries : Map) (r : Result A × World)
      → Returned apart apart' file entries r
      → Ready wal_path snapshot_path file entries r.1
  returned-Ready file entries (ok _, s) ready = ready
  returned-Ready file entries (err _, s) ready = absurd ready

  returned-Returns :
      {A : Type 0} (file : Bytes) (entries : Map) (r : Result A × World)
      → Returned apart apart' file entries r
      → Returns r
  returned-Returns file entries (ok a, s) ready = (a, refl)
  returned-Returns file entries (err _, s) ready = absurd ready

  regrouped :
      (file : Bytes) (op : Op) (ops : List Op) (m : Map) (s : World)
      → Ready wal_path snapshot_path ((file ++ frame op) ++ frames ops) m s
      → Ready wal_path snapshot_path (file ++ frames (op ∷ ops)) m s
  regrouped file op ops m s =
      subst (λ b. Ready wal_path snapshot_path b m s) (append_assoc file (frame op) (frames ops))

  -- On a disk where no call is to fail, with the log at another path than the snapshot and its
  -- temporary file, from a good log and a map that a snapshot can hold, with room for each
  -- operation: every request of any list returns in its turn, and together they leave a log that has
  -- grown by exactly the frames of their operations, in their order, and the map that these
  -- operations give.
  pub serve_all-Ready :
      (qs : List Request) {file : Bytes} {entries : Map} (s : World)
      → HasRoom file entries (ops_of qs)
      → Fits entries
      → Ready wal_path snapshot_path file entries s
      → AllServed qs s
        × Ready wal_path snapshot_path
            (file ++ frames (ops_of qs))
            (apply_ops (ops_of qs) entries)
            (serve_all qs s)
  unfolding serve serve_all ops_of
  serve_all-Ready [] {file} {entries} s room f r =
      (tt, subst (λ b. Ready wal_path snapshot_path b entries s) (sym (append-nil file)) r)
  serve_all-Ready (take_snapshot ∷ qs) s room f r =
      let saved = save_snapshot-Returned s f r in
      let (served, ready) =
        serve_all-Ready qs _ room f (returned-Ready _ _ (save_snapshot s) saved) in
      ((returned-Returns _ _ (save_snapshot s) saved, served), ready)
  serve_all-Ready (set_entry key value ∷ qs) {file} {entries} s (room, rest) f r =
      let returned = set-Returned key value s room r in
      let (served, ready) =
        serve_all-Ready qs _ rest room.fits (returned-Ready _ _ (set key value s) returned) in
      (
        (returned-Returns _ _ (set key value s) returned, served),
        regrouped file (put key value) (ops_of qs) _ _ ready,
      )
  serve_all-Ready (delete_entry key ∷ qs) {file} {entries} s (room, rest) f r =
      let returned = delete-Returned key s room r in
      let (served, ready) =
        serve_all-Ready qs _ rest room.fits (returned-Ready _ _ (delete key s) returned) in
      (
        (returned-Returns _ _ (delete key s) returned, served),
        regrouped file (remove key) (ops_of qs) _ _ ready,
      )
