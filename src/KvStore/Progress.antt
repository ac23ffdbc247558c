-- ===== src/KvStore/Progress.antt =====
-- When no call is to fail and the files have room, the requests return.
use agent_kv.Prelude.{
  ℕ, ◌+◌, ◌≤◌, ◌<◌, ◌^◌, Bytes, ◌++◌, length, some, true, ◌≡◌, ◌≢◌, inl, inr, refl, sym, ap, subst,
  ◌∙◌, leb, if_true, if_false, Bool-cases,
}
use agent_kv.Exec.{Result, ok, err, Exec, ◌>>=◌, continue}
use agent_kv.Map.{Map}
use agent_kv.Disk.{Disk, OutStream, Channel, max_offset}
use agent_kv.Disk.Writes.{Holds, Wrote}
use agent_kv.Disk.Progress.{Went, WentOn, IsCalm}
use agent_kv.Snapshot
use agent_kv.Snapshot.{temp_path}
use agent_kv.Snapshot.Image.{image, IsEncodable}
use agent_kv.Snapshot.Save.{Saved, save-Saved}
use agent_kv.Snapshot.Progress.{save-WentOn}
use agent_kv.Wal.Frame.{Op, frame, IsWritable, apply_op}
use agent_kv.Wal.Append.{append, append-Runs}
use agent_kv.Wal.Offset.{Measured, current_offset-Measured, current_offset-Went}
use agent_kv.KvStore.{
  KvStore, World, on_wal, on_disk, when_wal, update_store, write_snapshot, checkpoint,
  maybe_snapshot, count_write, snapshot_interval,
}
use agent_kv.KvStore.Logging.{after, when_wal-some}
use agent_kv.KvStore.Locate.{wal_offset-some}
use agent_kv.KvStore.Checkpoint.{maybe_snapshot-some}
use agent_kv.KvStore.Parted.{change}

-- A store whose log takes records, over a disk where no call is to fail: the log's file holds `file`
-- and the map is `entries`.
pub record Ready (wal_path snapshot_path file : Bytes) (entries : Map) (s : World) : Type 0 where
  pub log : OutStream
  pub wal : s.store.wal ≡ some log
  pub snapshot : s.store.snapshot ≡ some snapshot_path
  pub map : s.store.entries ≡ entries
  pub target : log.path ≡ wal_path
  pub good : log.good ≡ true
  pub holds : s.disk.files wal_path ≡ some file
  pub bound : length file ≤ max_offset
  pub calm : IsCalm s.disk

-- A map that a snapshot can hold.
pub record Fits (m : Map) : Type 0 where
  pub encodable : IsEncodable m
  pub few : length m < 2 ^ 32
  pub room : (n : ℕ) → length (image n m) ≤ max_offset

module _ {wal_path snapshot_path : Bytes} (apart : wal_path ≢ snapshot_path)
    (apart' : wal_path ≢ temp_path snapshot_path) where
  -- A call that returned and left such a store.
  abbrev pub Returned {ℓ} : {A : Type ℓ} → Bytes → Map → Result A × World → Type 0
  Returned file entries (ok _, s) = Ready wal_path snapshot_path file entries s
  Returned file entries (err _, _) = ⊥

  Ready-Holds :
      {file : Bytes} {entries : Map} {s : World} (r : Ready wal_path snapshot_path file entries s)
      → Holds wal_path file s.disk.files (record { output = r.log; disk = s.disk })
  Ready-Holds r = record { target = r.target; file = r.holds; rest = λ q _. refl; bound = r.bound }

  pub Returned-continue :
      {A B : Type 0} (file : Bytes) (entries : Map) (r : Result A × World) (next : A → Exec World B)
      → Returned file entries r
      → ((a : A) (s : World)
          → Ready wal_path snapshot_path file entries s
          → Returned file entries (next a s))
      → Returned file entries (continue r.0 next r.1)
  Returned-continue file entries (ok a, s) next ready goes = goes a s ready
  Returned-continue file entries (err e, s) next ready goes = absurd ready

  saved :
      {file : Bytes} {entries : Map} (n : ℕ) (s : World) (r : Result (Unit {0}) × Disk)
      → Ready wal_path snapshot_path file entries s
      → Saved snapshot_path s.store.entries n s.disk r
      → WentOn r
      → Returned file entries (
          continue r.0
            (λ _. update_store (λ k. record k { writes_since_snapshot = 0 }))
            (record s { disk = r.1 }))
  saved n s (err e, d) r _ went = absurd went
  saved n s (ok u, d) r (_, rest) calm = record {
    log = r.log;
    wal = r.wal;
    snapshot = r.snapshot;
    map = r.map;
    target = r.target;
    good = r.good;
    holds = rest wal_path (λ e. apart (sym e)) (λ e. apart' (sym e)) ∙ r.holds;
    bound = r.bound;
    calm = calm;
  }

  write_snapshot-Returned :
      {file : Bytes} {entries : Map} (n : ℕ) (s : World)
      → Fits entries
      → Ready wal_path snapshot_path file entries s
      → Returned file entries (write_snapshot snapshot_path n s)
  unfolding write_snapshot on_disk
  write_snapshot-Returned {file} {entries} n s f r =
      let f' = subst Fits (sym r.map) f in
      saved n s (Snapshot.save snapshot_path s.store.entries n s.disk) r
        (save-Saved snapshot_path s.store.entries n s.disk f'.encodable)
        (save-WentOn snapshot_path s.store.entries n s.disk f'.encodable f'.few (f'.room n) r.calm)

  measured :
      (file : Bytes) (entries : Map) (s : World) (r : Result ℕ × Channel)
      → s.store.snapshot ≡ some snapshot_path
      → s.store.entries ≡ entries
      → Fits entries
      → Measured wal_path file s.disk.files r
      → Went r
      → Returned file entries (continue r.0 (write_snapshot snapshot_path) (after s r.1))
  measured file entries s (err e, c) path m f _ went = absurd went
  measured file entries s (ok n, c) path m f (_, up, h) calm =
      write_snapshot-Returned n (after s c) f (record {
        log = c.output;
        wal = refl;
        snapshot = path;
        map = m;
        target = h.target;
        good = up;
        holds = h.file;
        bound = h.bound;
        calm = calm;
      })

  pub checkpoint-Returned :
      {file : Bytes} {entries : Map} (s : World)
      → Fits entries
      → Ready wal_path snapshot_path file entries s
      → Returned file entries (checkpoint snapshot_path s)
  unfolding checkpoint on_wal
  checkpoint-Returned {file} {entries} s f r =
      subst (λ o. Returned file entries (continue o.0 (write_snapshot snapshot_path) o.1))
        (sym (wal_offset-some s r.wal))
        (measured file entries s _ r.snapshot r.map f
          (current_offset-Measured wal_path file s.disk.files _ r.good (Ready-Holds r))
          (current_offset-Went wal_path file s.disk.files _ r.good (Ready-Holds r) r.calm))

  pub maybe_snapshot-Returned :
      {file : Bytes} {entries : Map} (s : World)
      → Fits entries
      → Ready wal_path snapshot_path file entries s
      → Returned file entries (maybe_snapshot s)
  maybe_snapshot-Returned {file} {entries} s f r =
      subst (Returned file entries) (sym (maybe_snapshot-some s r.snapshot))
        (elim (Bool-cases (leb snapshot_interval s.store.writes_since_snapshot)) [
          | inl due ↦
              subst (Returned file entries) (sym (if_true _ _ _ due)) (checkpoint-Returned s f r)
          | inr early ↦ subst (Returned file entries) (sym (if_false _ _ _ early)) r
        ])

  changed :
      {A : Type 0} (file : Bytes) (entries : Map) (op : Op) (s : World)
      (next : World → Exec World A) (r : Result (Unit {0}) × Channel)
      → s.store.snapshot ≡ some snapshot_path
      → s.store.entries ≡ entries
      → Wrote wal_path file (frame op) s.disk.files r
      → Went r
      → ((s' t : World)
          → Ready wal_path snapshot_path (file ++ frame op) (apply_op op entries) t
          → Returned (file ++ frame op) (apply_op op entries) (next s' t))
      → Returned
          (file ++ frame op)
          (apply_op op entries)
          (continue r.0 (λ _ s'. change op (next s') s') (after s r.1))
  changed file entries op s next (err e, c) path m _ went goes = absurd went
  changed file entries op s next (ok u, c) path m (up, h) calm goes =
      let s' = after s c in
      let k : KvStore = count_write (record s'.store { entries = apply_op op s'.store.entries }) in
      goes s' (record s' { store = k })
        (record {
          log = c.output;
          wal = refl;
          snapshot = path;
          map = ap (apply_op op) m;
          target = h.target;
          good = up;
          holds = h.file;
          bound = h.bound;
          calm = calm;
        })

  pub mutation :
      {A : Type 0} {file : Bytes} {entries : Map} (op : Op) (s : World)
      (next : World → Exec World A)
      → IsWritable op
      → length file + length (frame op) ≤ max_offset
      → Ready wal_path snapshot_path file entries s
      → ((s' t : World)
          → Ready wal_path snapshot_path (file ++ frame op) (apply_op op entries) t
          → Returned (file ++ frame op) (apply_op op entries) (next s' t))
      → Returned
          (file ++ frame op)
          (apply_op op entries)
          ((when_wal (append op) >>= λ _ s'. change op (next s') s') s)
  unfolding on_wal
  mutation {A} {file} {entries} op s next w room r goes =
      let runs = append-Runs op w in
      let c : Channel = record { output = r.log; disk = s.disk } in
      subst
        (λ (o : Result (Unit {0}) × World).
          Returned (file ++ frame op) (apply_op op entries)
            (continue o.0 (λ _ s'. change op (next s') s') o.1))
        (sym (when_wal-some (append op) s r.wal))
        (changed file entries op s next (append op c) r.snapshot r.map
          (runs.writes.at file c r.good (Ready-Holds r))
          (runs.goes file c r.good (Ready-Holds r) r.calm room) goes)
