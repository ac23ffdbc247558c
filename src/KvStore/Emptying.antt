-- ===== src/KvStore/Emptying.antt =====
-- When no call is to fail, `ClearPersistence` returns and leaves an empty log.
use agent_kv.Prelude.{Bytes, [], ◌≢◌, refl, sym, subst, ◌∙◌, arith}
use agent_kv.Exec.{Result, ok, err, ◌>>◌, continue}
use agent_kv.Map.{Map}
use agent_kv.Disk.{Disk, Channel}
use agent_kv.Disk.Progress.{Went, WentOn}
use agent_kv.Wal
use agent_kv.Wal.Emptied.{Emptied, clear-Emptied, clear-Went}
use agent_kv.Snapshot
use agent_kv.Snapshot.{temp_path}
use agent_kv.Snapshot.Erased.{Erased, clear-Erased, clear-WentOn}
use agent_kv.KvStore.{World, on_wal, on_disk, when_snapshot, update_store, clear_persistence}
use agent_kv.KvStore.Logging.{after, when_wal-some}
use agent_kv.KvStore.Cleared.{reset, when_snapshot-some}
use agent_kv.KvStore.Progress.{Ready, Returned}

module _ {wal_path snapshot_path : Bytes} (apart : wal_path ≢ snapshot_path)
    (apart' : wal_path ≢ temp_path snapshot_path) where
  erased :
      {entries : Map} (s : World) (r : Result (Unit {0}) × Disk)
      → Ready wal_path snapshot_path [] entries s
      → Erased snapshot_path s.disk r
      → WentOn r
      → Returned apart apart' [] entries
          (continue r.0 (λ _. update_store reset) (record s { disk = r.1 }))
  erased s (err e, d) r _ went = absurd went
  erased s (ok u, d) r (_, _, rest) calm = record {
    log = r.log;
    wal = r.wal;
    snapshot = r.snapshot;
    map = r.map;
    target = r.target;
    good = r.good;
    holds = rest wal_path (λ e. apart (sym e)) (λ e. apart' (sym e)) ∙ r.holds;
    bound = r.bound;
    calm = calm;
  }

  emptied :
      {file : Bytes} {entries : Map} (s : World) (r : Result (Unit {0}) × Channel)
      → Ready wal_path snapshot_path file entries s
      → Emptied wal_path s.disk.files r
      → Went r
      → Returned apart apart' [] entries
          (continue r.0 (λ _. when_snapshot Snapshot.clear >> update_store reset) (after s r.1))
  unfolding on_disk
  emptied s (err e, c) r _ went = absurd went
  emptied {file} {entries} s (ok u, c) r (up, h) calm =
      subst
        (λ (o : Result (Unit {0}) × World).
          Returned apart apart' [] entries (continue o.0 (λ _. update_store reset) o.1))
        (sym (when_snapshot-some (after s c) r.snapshot))
        (erased (after s c) (Snapshot.clear snapshot_path c.disk)
          (record {
            log = c.output;
            wal = refl;
            snapshot = r.snapshot;
            map = r.map;
            target = h.target;
            good = up;
            holds = h.file;
            bound = omega arith;
            calm = calm;
          })
          (clear-Erased snapshot_path c.disk) (clear-WentOn snapshot_path c.disk calm))

  pub clear_persistence-Returned :
      {file : Bytes} {entries : Map} (s : World)
      → Ready wal_path snapshot_path file entries s
      → Returned apart apart' [] entries (clear_persistence s)
  unfolding clear_persistence on_wal
  clear_persistence-Returned {file} {entries} s r =
      let c : Channel = record { output = r.log; disk = s.disk } in
      subst
        (λ (o : Result (Unit {0}) × World).
          Returned apart apart' [] entries
            (continue o.0 (λ _. when_snapshot Snapshot.clear >> update_store reset) o.1))
        (sym (when_wal-some Wal.clear s r.wal))
        (emptied s (Wal.clear c) r
          (subst (λ p. Emptied p s.disk.files (Wal.clear c)) r.target (clear-Emptied c))
          (clear-Went c r.calm))
