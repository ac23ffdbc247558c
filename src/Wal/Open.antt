-- ===== src/Wal/Open.antt =====
-- Opening the log for appending.
use agent_kv.Prelude.{
  ◌≤◌, Bytes, codes, ◌++◌, length, true, ◌≡◌, refl, sym, subst, inl, inr, if_true, if_false,
}
use agent_kv.Exec.{Result, ok, err}
use agent_kv.Disk.{Disk, OutStream, contents, max_offset}
use agent_kv.Disk.Writes.{Holds}
use agent_kv.Disk.Moves.{open_app-Holds}
use agent_kv.Wal.{open_log}

-- The outcome: a good stream behind the bytes that the log held, with no other file changed; or the
-- exception, with none changed.
abbrev pub Opened : Bytes → Disk → Result OutStream × Disk → Type 0
Opened path d (ok log, d') =
    (log.good ≡ true) × Holds path (contents d path) d.files (record { output = log; disk = d' })
Opened path d (err e, d') = (e ≡ codes "failed to open WAL file: " ++ path) × (d'.files ≡ d.files)

pub open_log-Opened :
    (path : Bytes) (d : Disk)
    → length (contents d path) ≤ max_offset
    → Opened path d (open_log path d)
unfolding open_log
open_log-Opened path d bound = elim (open_app-Holds path d bound) [
  | inl (up, h) ↦ subst (Opened path d) (sym (if_true _ _ _ up)) (up, h)
  | inr (down, files) ↦ subst (Opened path d) (sym (if_false _ _ _ down)) (refl, files)
]
