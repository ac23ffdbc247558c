-- ===== src/KvStore/Behind.antt =====
-- What a log and a snapshot may stand for: a map, or nothing that is known, as behind a log with a
-- torn record in its middle.
pub mod Logging
pub mod Saving
pub mod Start
use agent_kv.Prelude.{
  ℕ, ◌≤◌, Bytes, ◌++◌, length, some, Bool, true, false, ltb, ltb→le, ltb→lt, ◌≡◌, ◌≢◌, ◌⊎◌, inl,
  inr, refl, sym, ap, subst, ◌∙◌, Bool-cases,
}
use agent_kv.Exec.{Result, ok, err, continue}
use agent_kv.Map.{Map, IsMap}
use agent_kv.Disk.{Disk, OutStream, Channel, max_offset}
use agent_kv.Disk.Writes.{Holds, Wrote}
use agent_kv.Snapshot
use agent_kv.Snapshot.{temp_path}
use agent_kv.Snapshot.Image.{IsStorable, IsStorable-IsEncodable}
use agent_kv.Snapshot.Save.{Saved, save-Saved, Counted, save-Counted}
use agent_kv.Wal.{max_record_length, current_offset}
use agent_kv.Wal.Append.{append, append-Wrote, append_bad, append_large}
use agent_kv.Wal.Frame.{Op, apply_op, frame, payload, IsWritable}
use agent_kv.Wal.Offset.{Measured, current_offset-Measured, current_offset_bad}
use agent_kv.KvStore.{
  World, on_wal, on_disk, when_wal, update_store, wal_offset, write_snapshot, checkpoint,
}
use agent_kv.KvStore.Durable.{IsCheckpoint, Backed, IsDurable, Backed-same}
use agent_kv.KvStore.Logging.{after, when_wal-some, when_wal-Logged, Logged}
use agent_kv.KvStore.Locate.{wal_offset-some}
use agent_kv.KvStore.Checkpoint.{covered, Saves, checkpoint-Saves}

-- What outlives the process: this map; between processes also this map, possibly with one operation
-- more; or a map that is not known.
pub data Stored : Type 0 where
  kept torn : Map → Stored
  unknown : Stored

abbrev pub op_on : Op → Stored → Stored
op_on op (kept n) = kept (apply_op op n)
op_on op (torn n) = torn n
op_on op unknown = unknown

-- A log of any bytes, its stream good or not, and a snapshot.
pub record Loose (wal_path snapshot_path : Bytes) (s : World) : Type 0 where
  pub log : OutStream
  pub file : Bytes
  pub offset : ℕ
  pub base : Map
  pub wal : s.store.wal ≡ some log
  pub snapshot : s.store.snapshot ≡ some snapshot_path
  pub target : log.path ≡ wal_path
  pub holds : s.disk.files wal_path ≡ some file
  pub bound : length file ≤ max_offset
  pub small : offset ≤ max_offset
  pub checkpoint : IsCheckpoint (s.disk.files snapshot_path) offset base

abbrev pub Behind : Bytes → Bytes → Stored → World → Type 0
Behind wal_path snapshot_path (kept n) s = Backed wal_path snapshot_path n s
Behind wal_path snapshot_path (torn n) s = ⊥
Behind wal_path snapshot_path unknown s = Loose wal_path snapshot_path s

pub Behind-path :
    (wal_path : Bytes) {snapshot_path : Bytes} (stored : Stored) (s : World)
    → Behind wal_path snapshot_path stored s
    → s.store.snapshot ≡ some snapshot_path
Behind-path w (kept n) s b = b.snapshot
Behind-path w (torn n) s b = absurd b
Behind-path w unknown s b = b.snapshot

pub Behind-log :
    (wal_path snapshot_path : Bytes) (stored : Stored) (s : World)
    → Behind wal_path snapshot_path stored s
    → (log : OutStream) × (s.store.wal ≡ some log) × (log.path ≡ wal_path)
Behind-log w p (kept n) s b = (b.log, b.wal, b.target)
Behind-log w p (torn n) s b = absurd b
Behind-log w p unknown s b = (b.log, b.wal, b.target)

module _ (wal_path snapshot_path : Bytes) where
  Loose-same :
      (s s' : World)
      → Loose wal_path snapshot_path s
      → s'.store.wal ≡ s.store.wal
      → s'.store.snapshot ≡ s.store.snapshot
      → s'.disk ≡ s.disk
      → Loose wal_path snapshot_path s'
  Loose-same s s' b w p d = record {
    log = b.log;
    file = b.file;
    offset = b.offset;
    base = b.base;
    wal = w ∙ b.wal;
    snapshot = p ∙ b.snapshot;
    target = b.target;
    holds = ap (λ (e : Disk). e.files wal_path) d ∙ b.holds;
    bound = b.bound;
    small = b.small;
    checkpoint =
        subst (λ (e : Disk). IsCheckpoint (e.files snapshot_path) b.offset b.base) (sym d)
          b.checkpoint;
  }

  -- Only the log, the snapshot's path and the disk matter.
  pub Behind-same :
      (stored : Stored) (s s' : World)
      → Behind wal_path snapshot_path stored s
      → s'.store.wal ≡ s.store.wal
      → s'.store.snapshot ≡ s.store.snapshot
      → s'.disk ≡ s.disk
      → Behind wal_path snapshot_path stored s'
  Behind-same (kept n) s s' b w p d = Backed-same b s' w p d
  Behind-same (torn n) s s' b w p d = absurd b
  Behind-same unknown s s' b w p d = Loose-same s s' b w p d
