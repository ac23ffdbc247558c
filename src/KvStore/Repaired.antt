-- ===== src/KvStore/Repaired.antt =====
-- A snapshot that is saved repairs a store whose log ends in a torn record.
use agent_kv.Prelude.{
  ℕ, ◌≤◌, Bytes, codes, ◌++◌, length, some, Bool, true, ◌≡◌, ◌≢◌, inl, inr, refl, sym, ap, subst,
  ◌∙◌, List,
}
use agent_kv.Exec.{Result, ok, err, pure, continue}
use agent_kv.Map.{Map, IsMap}
use agent_kv.Disk.{Disk, Fate, OutStream, Channel, contents, or_empty, max_offset}
use agent_kv.Disk.Writes.{Holds}
use agent_kv.Snapshot
use agent_kv.Snapshot.{temp_path, LoadResult}
use agent_kv.Snapshot.Image.{IsStorable, IsStorable-IsEncodable}
use agent_kv.Snapshot.Save.{Saved, save-Saved, Counted, save-Counted}
use agent_kv.Wal.{open_log}
use agent_kv.Wal.Offset.{Measured, current_offset-Measured}
use agent_kv.Wal.Open.{Opened, open_log-Opened}
use agent_kv.Wal.Recovery.{frames}
use agent_kv.KvStore.{
  World, KvStore, on_wal, on_disk, update_store, write_snapshot, checkpoint, save_snapshot, start,
  started, fresh_store,
}
use agent_kv.KvStore.Content.{apply_op-IsStorable, apply_op-IsMap}
use agent_kv.KvStore.Durable.{IsDurable, Backed-same}
use agent_kv.KvStore.Logging.{after}
use agent_kv.KvStore.Locate.{Clean, wal_offset-some, kept, entries-IsStorable, entries-IsMap}
use agent_kv.KvStore.Checkpoint.{covered}
use agent_kv.KvStore.Parted.{save_snapshot-some}
use agent_kv.KvStore.Recovery.{IsRecovered, recover-IsDurable, stream_is_good}

module _ (wal_path snapshot_path : Bytes) where
  -- A call that keeps the map and, if it returns, leaves a durable store.
  abbrev pub Repaired : {A : Type 0} → Map → Result A × World → Type 0
  Repaired m (ok _, s) = (s.store.entries ≡ m) × IsDurable wal_path snapshot_path s
  Repaired m (err _, s) = s.store.entries ≡ m

module _ {wal_path snapshot_path : Bytes} (apart : wal_path ≢ snapshot_path)
    (apart' : wal_path ≢ temp_path snapshot_path) where
  write_out :
      {n : ℕ} (s : World) (r : Result (Unit {0}) × Disk)
      → IsStorable s.store.entries
      → IsMap s.store.entries
      → Clean wal_path snapshot_path n s
      → Saved snapshot_path s.store.entries n s.disk r
      → Counted s.store.entries r
      → Repaired wal_path snapshot_path s.store.entries (
          continue r.0
            (λ _. update_store (λ k. record k { writes_since_snapshot = 0 }))
            (record s { disk = r.1 }))
  write_out s (ok u, d) storable map c saved few =
      (refl, Backed-same (covered apart apart' s d storable map c saved few) _ refl refl refl)
  write_out s (err e, d) storable map c _ _ = refl

  measured :
      (s : World) (file : Bytes) (r : Result ℕ × Channel)
      → s.store.snapshot ≡ some snapshot_path
      → IsStorable s.store.entries
      → IsMap s.store.entries
      → Measured wal_path file s.disk.files r
      → Repaired wal_path snapshot_path s.store.entries
          (continue r.0 (write_snapshot snapshot_path) (after s r.1))
  unfolding write_snapshot on_disk
  measured s file (err e, c) path storable map _ = refl
  measured s file (ok n, c) path storable map (size, up, h) =
      write_out (after s c) (Snapshot.save snapshot_path s.store.entries n c.disk) storable map
        (record {
          log = c.output;
          file = file;
          wal = refl;
          snapshot = path;
          target = h.target;
          good = up;
          holds = h.file;
          bound = h.bound;
          size = size;
        })
        (save-Saved snapshot_path s.store.entries n c.disk
          (IsStorable-IsEncodable s.store.entries storable))
        (save-Counted snapshot_path s.store.entries n c.disk)

  replied :
      (m : Map) (r : Result (Unit {0}) × World)
      → Repaired wal_path snapshot_path m r
      → Repaired wal_path snapshot_path m (continue r.0 (λ _. pure true) r.1)
  replied m (ok u, s) h = h
  replied m (err e, s) h = h

  -- A `SaveSnapshot` over a log of any content.
  pub save_snapshot-Repaired :
      {n : ℕ} (s : World)
      → IsStorable s.store.entries
      → IsMap s.store.entries
      → Clean wal_path snapshot_path n s
      → Repaired wal_path snapshot_path s.store.entries (save_snapshot s)
  unfolding checkpoint on_wal
  save_snapshot-Repaired s storable map c =
      let h : Holds wal_path c.file s.disk.files (record { output = c.log; disk = s.disk }) =
        record { target = c.target; file = c.holds; rest = λ q _. refl; bound = c.bound } in
      subst (λ (r : Result Bool × World). Repaired wal_path snapshot_path s.store.entries r)
        (sym (save_snapshot-some s c.snapshot))
        (replied s.store.entries (checkpoint snapshot_path s) (
          subst
            (λ (o : Result ℕ × World).
              Repaired wal_path snapshot_path s.store.entries
                (continue o.0 (write_snapshot snapshot_path) o.1))
            (sym (wal_offset-some s c.wal))
            (measured s c.file _ c.snapshot storable map
              (current_offset-Measured wal_path c.file s.disk.files _ c.good h))))

  -- The outcome of a start behind a store: the map of that store, or with the operation whose record
  -- ends the log behind a failed append; and a snapshot saved then makes it durable.
  abbrev pub Restarted : World → Result (LoadResult × ℕ) × World → Type 0
  Restarted s (ok _, s') =
      IsRecovered wal_path s s'.store.entries
      × Repaired wal_path snapshot_path s'.store.entries (save_snapshot s')
  Restarted s (err e, _) = e ≡ codes "failed to open WAL file: " ++ wal_path

  recovered-IsStorable :
      (s : World) (m : Map)
      → IsDurable wal_path snapshot_path s
      → IsRecovered wal_path s m
      → IsStorable m × IsMap m
  recovered-IsStorable s m b (inl e) =
      (subst IsStorable (sym e) (entries-IsStorable b), subst IsMap (sym e) (entries-IsMap b))
  recovered-IsStorable s m b (inr (op, _, w, _, e)) = (
    subst IsStorable (sym e) (apply_op-IsStorable op s.store.entries w (entries-IsStorable b)),
    subst IsMap (sym e) (apply_op-IsMap op s.store.entries (entries-IsMap b)),
  )

  module _ (s : World) (b : IsDurable wal_path snapshot_path s) where
    opened :
        (fates : List Fate) (r : Result OutStream × Disk)
        → Opened wal_path (record s.disk { fates = fates }) r
        → Restarted s (started wal_path snapshot_path r)
    unfolding started
    opened fates (err message, d) (e, _) = e
    opened fates (ok log, d) (up, h) =
        let old : Channel = record { output = b.log; disk = d } in
        let k : KvStore = fresh_store log snapshot_path in
        let whole : contents s.disk wal_path ≡ b.before ++ (frames b.ops ++ b.tail) =
          ap or_empty b.file in
        let b' = kept apart b old b.ending (record {
          target = b.target;
          file = h.file ∙ ap some whole;
          rest = h.rest;
          bound = b.bound;
        }) in
        let (r, m, eq, cases) = recover-IsDurable wal_path snapshot_path (after s old) k b' refl in
        let same : IsRecovered wal_path s m = elim cases [
          | inl e ↦ inl e
          | inr (op, down, w, (front, whole'), e) ↦ inr (
            op,
            ap stream_is_good b.wal ∙ down,
            w,
            (front, b.file ∙ sym (ap some whole) ∙ sym h.file ∙ whole'),
            e,
          )
        ] in
        let (storable, map) = recovered-IsStorable s m b same in
        subst (Restarted s) (sym eq) (
          same,
          save_snapshot-Repaired (record { store = record k { entries = m }; disk = d }) storable
              map
              (record {
                log = log;
                file = contents s.disk wal_path;
                wal = refl;
                snapshot = refl;
                target = h.target;
                good = up;
                holds = h.file;
                bound = h.bound;
                size = refl;
              }),
        )

    -- Behind a durable store, its log torn or not, with the log at another path than the snapshot
    -- and its temporary file, and with any failures to come: a start returns, or cannot open the log.
    -- The map that it recovers is that of the store; or, only if the log's stream had failed and the
    -- log's file ends with the whole record of an operation, that map with this operation done to it.
    -- A `SaveSnapshot` that returns then makes the store durable with this map, whatever the end of
    -- the log is.
    pub start-Restarted :
        (fates : List Fate)
        → Restarted s (start wal_path snapshot_path (record s.disk { fates = fates }))
    unfolding start
    start-Restarted fates =
        let d : Disk = record s.disk { fates = fates } in
        opened fates (open_log wal_path d) (
          open_log-Opened wal_path d
            (subst (λ f. length f ≤ max_offset) (sym (ap or_empty b.file)) b.bound))
