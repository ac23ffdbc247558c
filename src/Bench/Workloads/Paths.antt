-- ===== src/Bench/Workloads/Paths.antt =====
-- The log, the snapshot and the temporary file of a directory are different files.
use mathlib.Core.List.{append_cancel_left}
use agent_kv.Prelude.{Bytes, bytes_eq, differ, codes, append_assoc, ◌≢◌, refl, ◌∙◌}
use agent_kv.Snapshot.{temp_path}
use agent_kv.Bench.Utils.{file_path}
use agent_kv.Bench.Workloads.{wal_path, snapshot_path}

module _ (directory : Bytes) where
  pub wal_path-ne : wal_path directory ≢ snapshot_path directory
  unfolding wal_path snapshot_path file_path bytes_eq
  wal_path-ne e =
      differ (codes "/wal.log") (codes "/store.snapshot") refl (append_cancel_left directory _ _ e)

  pub wal_path-ne_temp : wal_path directory ≢ temp_path (snapshot_path directory)
  unfolding wal_path snapshot_path file_path bytes_eq
  wal_path-ne_temp e = differ (codes "/wal.log") (codes "/store.snapshot.tmp") refl (
      append_cancel_left directory _ _
        (e ∙ append_assoc directory (codes "/store.snapshot") (codes ".tmp")))
