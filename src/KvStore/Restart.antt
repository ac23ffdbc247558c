-- ===== src/KvStore/Restart.antt =====
-- When no call is to fail, a start returns, and a restart finds what the process before was asked.
use agent_kv.Prelude.{
  ℕ, ◌≤◌, Bytes, List, ◌++◌, length, ◌≢◌, refl, ap, sym, subst, ◌∙◌, inl, inr, if_true,
}
use agent_kv.Exec.{Result, ok, err}
use agent_kv.Map.{Map}
use mathlib.Core.Bool.{false≢true}
use agent_kv.Disk.{Disk, OutStream, Channel, contents, or_empty, open_app, max_offset}
use agent_kv.Disk.Writes.{Holds}
use agent_kv.Disk.Moves.{open_app-Holds}
use agent_kv.Disk.Progress.{IsCalm, open_app-IsCalm}
use agent_kv.Wal.{open_log}
use agent_kv.Snapshot.{temp_path, LoadResult}
use agent_kv.Wal.Recovery.{frames, apply_ops}
use agent_kv.KvStore.{start, started, World}
use agent_kv.KvStore.Progress.{Fits, Returned}
use agent_kv.KvStore.Sessions.{IsSound, recover-opened, Request, serve_all}
use agent_kv.KvStore.Liveness.{ops_of, HasRoom, returned-Ready, serve_all-Ready}
use agent_kv.KvStore.Durable.{IsDurable}
use agent_kv.KvStore.Good.{Backed-IsSound}
use agent_kv.KvStore.Sessions.{Started, start-Started, serve_all-IsDurable}

module _ {wal_path snapshot_path : Bytes} (apart : wal_path ≢ snapshot_path)
    (apart' : wal_path ≢ temp_path snapshot_path) where
  -- Over an orderly disk where no call is to fail, with the log at another path than the snapshot and
  -- its temporary file: the start of `main` returns, and the store has the entries of the disk and
  -- goes on with the log that is there.
  pub start-Returned :
      {entries : Map} (d : Disk)
      → IsSound wal_path snapshot_path entries d
      → IsCalm d
      → Returned apart apart' (contents d wal_path) entries (start wal_path snapshot_path d)
  unfolding start started open_log
  start-Returned {entries} d i calm =
      let small = subst (λ b. length b ≤ max_offset) (sym i.file) i.bound in
      let (up, calm') = open_app-IsCalm wal_path d calm in
      let c : Channel = open_app wal_path d in
      let h : Holds wal_path (contents d wal_path) d.files c =
        elim (open_app-Holds wal_path d small) [
          | inl (_, h) ↦ h
          | inr (down, _) ↦ absurd (false≢true (sym down ∙ up))
        ] in
      let (r, eq) = recover-opened apart i c up h in
      subst
        (λ (o : Result OutStream × Disk).
          Returned apart apart' (contents d wal_path) entries (started wal_path snapshot_path o))
        (sym (if_true _ _ _ up))
        (subst (Returned apart apart' (contents d wal_path) entries) (sym eq) (record {
          log = c.output;
          wal = refl;
          snapshot = refl;
          map = refl;
          target = h.target;
          good = up;
          holds = h.file;
          bound = h.bound;
          calm = calm';
        }))

  returned-IsDurable :
      (entries : Map) (file : Bytes) (r : Result (LoadResult × ℕ) × World)
      → Returned apart apart' file entries r
      → Started wal_path snapshot_path entries r
      → IsDurable wal_path snapshot_path r.1
  returned-IsDurable entries file (ok _, s) _ (_, b) = b
  returned-IsDurable entries file (err _, s) ready _ = absurd ready

  -- That store is durable.
  pub start-IsDurable :
      {entries : Map} (d : Disk)
      → IsSound wal_path snapshot_path entries d
      → IsCalm d
      → IsDurable wal_path snapshot_path (start wal_path snapshot_path d).1
  start-IsDurable {entries} d i calm =
      returned-IsDurable entries (contents d wal_path) (start wal_path snapshot_path d)
        (start-Returned d i calm) (start-Started apart i)

  -- Over an orderly disk where no call is to fail, with the log at another path than the snapshot
  -- and its temporary file, from entries that a snapshot can hold, and with room for each
  -- operation: `main` starts, serves any requests and dies; its next start returns, and the store
  -- has the entries that the operations of the requests give, in their order, from those that the
  -- disk held at first.
  pub restart-Returned :
      {entries : Map} (d : Disk) (qs : List Request)
      → IsSound wal_path snapshot_path entries d
      → IsCalm d
      → Fits entries
      → HasRoom (contents d wal_path) entries (ops_of qs)
      → Returned apart apart'
          (contents d wal_path ++ frames (ops_of qs))
          (apply_ops (ops_of qs) entries)
          (start wal_path snapshot_path (serve_all qs (start wal_path snapshot_path d).1).disk)
  restart-Returned {entries} d qs i calm fits room =
      let first = start-Returned d i calm in
      let s : World = (start wal_path snapshot_path d).1 in
      let ready = returned-Ready apart apart' _ _ (start wal_path snapshot_path d) first in
      let last = (serve_all-Ready apart apart' qs s room fits ready).1 in
      let s' : World = serve_all qs s in
      let b = serve_all-IsDurable apart apart' qs s (start-IsDurable d i calm) in
      let i' = Backed-IsSound b (last.log, last.wal, last.good) in
      subst
        (λ file.
          Returned apart apart' file (apply_ops (ops_of qs) entries)
            (start wal_path snapshot_path s'.disk))
        (ap or_empty last.holds)
        (start-Returned s'.disk (subst (λ m. IsSound wal_path snapshot_path m s'.disk) last.map i')
          last.calm)
