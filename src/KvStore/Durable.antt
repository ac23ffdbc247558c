-- ===== src/KvStore/Durable.antt =====
-- The invariant of a store over a log and a snapshot: what is on the disk rebuilds the map.
use agent_kv.Prelude.{
  ℕ, ◌≤◌, ◌<◌, ◌^◌, Bytes, List, [], ◌++◌, length, All, Option, none, some, Bool, true, false, ◌≡◌,
  ◌⊎◌, refl, sym, ap, subst, ◌∙◌,
}
use agent_kv.Map.{Map, IsMap}
use agent_kv.Disk.{Disk, OutStream, max_offset}
use agent_kv.Disk.Writes.{Holds}
use agent_kv.Snapshot.Image.{image, IsStorable}
use agent_kv.Wal.Frame.{Op, frame, IsWritable}
use agent_kv.Wal.Recovery.{frames, apply_ops}
use agent_kv.KvStore.{World}

-- The snapshot holds `base` and covers the log up to `offset`; with no snapshot these are nothing.
abbrev pub IsCheckpoint : Option Bytes → ℕ → Map → Type 0
IsCheckpoint file offset base =
    ((file ≡ none) × (base ≡ []) × (offset ≡ 0))
    ⊎ ((file ≡ some (image offset base)) × IsStorable base × IsMap base × (length base < 2 ^ 32))

-- Behind the frames of a good log there is nothing. Behind those of a log whose stream has failed
-- there is a front of one frame, or that whole frame.
abbrev pub IsTail : Bool → Bytes → Type 0
IsTail true tail = tail ≡ []
IsTail false tail = (op : Op) × IsWritable op × (missing : Bytes) × (tail ++ missing ≡ frame op)

-- The snapshot and the log behind it rebuild `entries`.
pub record Backed (wal_path snapshot_path : Bytes) (entries : Map) (s : World) : Type 0 where
  pub log : OutStream
  pub base : Map
  pub before : Bytes
  pub ops : List Op
  pub tail : Bytes
  pub wal : s.store.wal ≡ some log
  pub snapshot : s.store.snapshot ≡ some snapshot_path
  pub target : log.path ≡ wal_path
  pub file : s.disk.files wal_path ≡ some (before ++ (frames ops ++ tail))
  pub bound : length (before ++ (frames ops ++ tail)) ≤ max_offset
  pub checkpoint : IsCheckpoint (s.disk.files snapshot_path) (length before) base
  pub writable : All IsWritable ops
  pub ending : IsTail log.good tail
  pub rebuilt : entries ≡ apply_ops ops base

-- The map in memory is what the disk rebuilds.
abbrev pub IsDurable : Bytes → Bytes → World → Type 0
IsDurable wal_path snapshot_path s = Backed wal_path snapshot_path s.store.entries s

module _ {wal_path snapshot_path : Bytes} {entries : Map} {s : World}
    (b : Backed wal_path snapshot_path entries s) where
  -- Only the log, the snapshot's path and the disk matter.
  pub Backed-same :
      (s' : World)
      → s'.store.wal ≡ s.store.wal
      → s'.store.snapshot ≡ s.store.snapshot
      → s'.disk ≡ s.disk
      → Backed wal_path snapshot_path entries s'
  Backed-same s' w p d = record {
    log = b.log;
    base = b.base;
    before = b.before;
    ops = b.ops;
    tail = b.tail;
    wal = w ∙ b.wal;
    snapshot = p ∙ b.snapshot;
    target = b.target;
    file = ap (λ (e : Disk). e.files wal_path) d ∙ b.file;
    bound = b.bound;
    checkpoint =
        subst (λ (e : Disk). IsCheckpoint (e.files snapshot_path) (length b.before) b.base) (sym d)
          b.checkpoint;
    writable = b.writable;
    ending = b.ending;
    rebuilt = b.rebuilt;
  }

  -- The log as its stream sees it.
  pub Backed-Holds :
      Holds wal_path
        (b.before ++ (frames b.ops ++ b.tail))
        s.disk.files
        (record { output = b.log; disk = s.disk })
  Backed-Holds = record { target = b.target; file = b.file; rest = λ q _. refl; bound = b.bound }
