-- ===== src/KvStore/Starting.antt =====
-- Disks that a start finds in order, and a start that throws.
use agent_kv.Prelude.{
  ℕ, ◌≤◌, Bytes, [], length, Option, none, ◌≡◌, ◌≢◌, inl, refl, sym, ap, subst, ◌∙◌, arith,
}
use agent_kv.Exec.{Result, ok, err}
use agent_kv.Map.{Map}
use agent_kv.Disk.{Disk, OutStream, or_empty, max_offset}
use agent_kv.Snapshot.{LoadResult}
use agent_kv.Wal.{open_log}
use agent_kv.Wal.Open.{Opened, open_log-Opened}
use agent_kv.KvStore.{World, start, started}
use agent_kv.KvStore.Durable.{IsCheckpoint}
use agent_kv.KvStore.Sessions.{IsSound, recover-opened}

pub IsSound-same :
    {wal_path snapshot_path : Bytes} {entries : Map} {d : Disk} (d' : Disk)
    → d'.files ≡ d.files
    → IsSound wal_path snapshot_path entries d
    → IsSound wal_path snapshot_path entries d'
IsSound-same {wal_path} {snapshot_path} d' same i = record {
  base = i.base;
  before = i.before;
  ops = i.ops;
  file = ap (λ (f : Bytes → Option Bytes). or_empty (f wal_path)) same ∙ i.file;
  bound = i.bound;
  checkpoint =
      subst (λ (f : Bytes → Option Bytes). IsCheckpoint (f snapshot_path) (length i.before) i.base)
        (sym same) i.checkpoint;
  writable = i.writable;
  rebuilt = i.rebuilt;
}

-- A disk with no log and no snapshot holds the empty map.
pub IsSound-new :
    (wal_path snapshot_path : Bytes) (d : Disk)
    → d.files wal_path ≡ none
    → d.files snapshot_path ≡ none
    → IsSound wal_path snapshot_path [] d
IsSound-new wal_path snapshot_path d log snap = record {
  base = [];
  before = [];
  ops = [];
  file = ap or_empty log;
  bound = omega arith;
  checkpoint = inl (snap, refl, refl);
  writable = tt;
  rebuilt = refl;
}

module _ {wal_path snapshot_path : Bytes} (apart : wal_path ≢ snapshot_path) where
  -- A start that throws changes no file.
  abbrev pub Untouched : Disk → Result (LoadResult × ℕ) × World → Type 0
  Untouched d (ok _, s) = Unit
  Untouched d (err _, s) = s.disk.files ≡ d.files

  started-Untouched :
      {entries : Map} (d : Disk) (r : Result OutStream × Disk)
      → IsSound wal_path snapshot_path entries d
      → Opened wal_path d r
      → Untouched d (started wal_path snapshot_path r)
  unfolding started
  started-Untouched d (err message, d') i (_, files) = files
  started-Untouched d (ok log, d') i (good, h) =
      let (r, eq) = recover-opened apart i (record { output = log; disk = d' }) good h in
      subst (Untouched d) (sym eq) tt

  pub start-Untouched :
      {entries : Map} (d : Disk)
      → IsSound wal_path snapshot_path entries d
      → Untouched d (start wal_path snapshot_path d)
  unfolding start
  start-Untouched d i =
      started-Untouched d (open_log wal_path d) i
        (open_log-Opened wal_path d (subst (λ b. length b ≤ max_offset) (sym i.file) i.bound))
