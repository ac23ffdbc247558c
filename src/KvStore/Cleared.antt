-- ===== src/KvStore/Cleared.antt =====
-- `ClearPersistence` keeps the map in memory, and empties the disk behind it.
use agent_kv.Prelude.{
  Bytes, [], Option, none, some, true, ◌≡◌, ◌≢◌, inl, refl, sym, ap, subst, ◌∙◌, arith,
}
use agent_kv.Exec.{Result, ok, err, ◌>>◌, continue}
use agent_kv.Disk.{Disk, OutStream, Channel}
use agent_kv.Disk.Writes.{Holds}
use agent_kv.Wal
use agent_kv.Wal.Emptied.{Emptied, clear-Emptied}
use agent_kv.Snapshot
use agent_kv.Snapshot.{temp_path}
use agent_kv.Snapshot.Erased.{Erased, clear-Erased}
use agent_kv.KvStore.{
  KvStore, World, on_wal, on_disk, when_snapshot, update_store, clear_persistence,
}
use agent_kv.KvStore.Logging.{when_wal-some}
use agent_kv.KvStore.Durable.{IsTail, Backed}

module _ (wal_path snapshot_path : Bytes) where
  -- The outcome: the map stays; after a return the disk is that of an empty store, and no write is
  -- counted.
  abbrev pub Cleared : World → Result (Unit {0}) × World → Type 0
  Cleared s (ok _, s') =
      (s'.store.entries ≡ s.store.entries)
      × (s'.store.writes_since_snapshot ≡ 0)
      × Backed wal_path snapshot_path [] s'
  Cleared s (err _, s') = s'.store.entries ≡ s.store.entries

abbrev pub reset : KvStore → KvStore
reset k = record k { writes_since_snapshot = 0 }

pub when_snapshot-some :
    {path : Bytes} (s : World)
    → s.store.snapshot ≡ some path
    → when_snapshot Snapshot.clear s ≡ on_disk (Snapshot.clear path) s
unfolding when_snapshot
when_snapshot-some s e =
    ap (λ (o : Option Bytes). elim o [ none ↦ (ok tt, s) | some p ↦ on_disk (Snapshot.clear p) s ])
      e

module _ {wal_path snapshot_path : Bytes} (apart : wal_path ≢ snapshot_path)
    (apart' : wal_path ≢ temp_path snapshot_path) (s : World)
    (path : s.store.snapshot ≡ some snapshot_path) where
  erased :
      (c : Channel)
      → c.output.good ≡ true
      → Holds wal_path [] s.disk.files c
      → (r : Result (Unit {0}) × Disk) → Erased snapshot_path c.disk r
      → Cleared wal_path snapshot_path s (
          continue r.0
            (λ _. update_store reset)
            (record { store = record s.store { wal = some c.output }; disk = r.1 }))
  erased c up h (err e, d) _ = refl
  erased c up h (ok u, d) (gone, _, rest) = (
    refl,
    refl,
    record {
      log = c.output;
      base = [];
      before = [];
      ops = [];
      tail = [];
      wal = refl;
      snapshot = path;
      target = h.target;
      file = rest wal_path (λ e. apart (sym e)) (λ e. apart' (sym e)) ∙ h.file;
      bound = omega arith;
      checkpoint = inl (gone, refl, refl);
      writable = tt;
      ending = subst (λ g. IsTail g []) (sym up) refl;
      rebuilt = refl;
    },
  )

  emptied :
      (r : Result (Unit {0}) × Channel)
      → Emptied wal_path s.disk.files r
      → Cleared wal_path snapshot_path s (
          continue r.0
            (λ _. when_snapshot Snapshot.clear >> update_store reset)
            (record { store = record s.store { wal = some r.1.output }; disk = r.1.disk }))
  unfolding on_disk
  emptied (err e, c) _ = refl
  emptied (ok u, c) (up, h) =
      let t : World = record { store = record s.store { wal = some c.output }; disk = c.disk } in
      subst
        (λ (r : Result (Unit {0}) × World).
          Cleared wal_path snapshot_path s (continue r.0 (λ _. update_store reset) r.1))
        (sym (when_snapshot-some t path))
        (erased c up h (Snapshot.clear snapshot_path c.disk) (clear-Erased snapshot_path c.disk))

  -- With a log and a snapshot attached, the log at another path than the snapshot and its temporary
  -- file, and any failures of the disk: `ClearPersistence` keeps the map in memory; when it returns,
  -- the disk rebuilds the empty map, behind a log that is attached as before, and no write is
  -- counted.
  pub clear_persistence-Cleared :
      {log : OutStream}
      → s.store.wal ≡ some log
      → log.path ≡ wal_path
      → Cleared wal_path snapshot_path s (clear_persistence s)
  unfolding clear_persistence on_wal on_disk
  clear_persistence-Cleared {log} attached target =
      subst
        (λ (r : Result (Unit {0}) × World).
          Cleared wal_path snapshot_path s
            (continue r.0 (λ _. when_snapshot Snapshot.clear >> update_store reset) r.1))
        (sym (when_wal-some Wal.clear s attached))
        (emptied (Wal.clear (record { output = log; disk = s.disk })) (
          subst (λ p. Emptied p s.disk.files (Wal.clear (record { output = log; disk = s.disk })))
            target (clear-Emptied (record { output = log; disk = s.disk }))))
