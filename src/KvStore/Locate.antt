-- ===== src/KvStore/Locate.antt =====
-- Asking the log for its length keeps the disk in step with the map, whether or not the call fails.
use agent_kv.Prelude.{
  ℕ, ◌≤◌, Bytes, [], ◌++◌, length, Option, none, some, Bool, true, false, ◌≡◌, ◌≢◌, inl, inr, refl,
  sym, ap, subst, Bool-cases,
}
use agent_kv.Exec.{Result, ok, err}
use agent_kv.Map.{Map, IsMap}
use agent_kv.Disk.{OutStream, Channel, max_offset}
use agent_kv.Disk.Writes.{Holds}
use agent_kv.Snapshot.Image.{IsStorable}
use agent_kv.Wal.{current_offset}
use agent_kv.Wal.Offset.{Measured, current_offset-Measured, current_offset_bad}
use agent_kv.Wal.Frame.{remove, frame}
use agent_kv.Wal.Recovery.{smallest-IsWritable, frames}
use agent_kv.KvStore.{World, on_wal, wal_offset}
use agent_kv.KvStore.Content.{apply_ops-IsStorable, apply_ops-IsMap}
use agent_kv.KvStore.Durable.{IsCheckpoint, IsTail, Backed, Backed-same, Backed-Holds}
use agent_kv.KvStore.Logging.{after}

-- What is on the disk is storable.
module _ {wal_path snapshot_path : Bytes} {entries : Map} {s : World}
    (b : Backed wal_path snapshot_path entries s) where
  base-IsStorable : IsStorable b.base
  base-IsStorable = elim b.checkpoint [
    | inl (_, empty, _) ↦ subst IsStorable (sym empty) tt
    | inr (_, storable, _, _) ↦ storable
  ]

  base-IsMap : IsMap b.base
  base-IsMap = elim b.checkpoint [
    | inl (_, empty, _) ↦ subst IsMap (sym empty) tt
    | inr (_, _, map, _) ↦ map
  ]

  pub entries-IsStorable : IsStorable entries
  entries-IsStorable =
      subst IsStorable (sym b.rebuilt)
        (apply_ops-IsStorable b.ops b.base b.writable base-IsStorable)

  pub entries-IsMap : IsMap entries
  entries-IsMap = subst IsMap (sym b.rebuilt) (apply_ops-IsMap b.ops b.base base-IsMap)

-- A good log of `n` bytes.
pub record Clean (wal_path snapshot_path : Bytes) (n : ℕ) (s : World) : Type 0 where
  pub log : OutStream
  pub file : Bytes
  pub wal : s.store.wal ≡ some log
  pub snapshot : s.store.snapshot ≡ some snapshot_path
  pub target : log.path ≡ wal_path
  pub good : log.good ≡ true
  pub holds : s.disk.files wal_path ≡ some file
  pub bound : length file ≤ max_offset
  pub size : n ≡ length file

-- The outcome of asking for the log's offset.
abbrev pub Located : Bytes → Bytes → Map → World → Result ℕ × World → Type 0
Located wal_path snapshot_path entries s (ok n, s') =
    (s'.store.entries ≡ s.store.entries)
    × Backed wal_path snapshot_path entries s'
    × Clean wal_path snapshot_path n s'
Located wal_path snapshot_path entries s (err _, s') =
    (s'.store.entries ≡ s.store.entries) × Backed wal_path snapshot_path entries s'

pub wal_offset-some :
    (s : World) {log : OutStream}
    → s.store.wal ≡ some log
    → wal_offset s ≡ on_wal log current_offset s
unfolding wal_offset
wal_offset-some s e =
    ap (λ (o : Option OutStream). elim o [ none ↦ (ok 0, s) | some w ↦ on_wal w current_offset s ])
      e

module _ {wal_path snapshot_path : Bytes} (apart : wal_path ≢ snapshot_path) {entries : Map}
    {s : World} (b : Backed wal_path snapshot_path entries s) where
  -- The log is still as it was after a call that changed no file.
  pub kept :
      (c : Channel)
      → IsTail c.output.good b.tail
      → Holds wal_path (b.before ++ (frames b.ops ++ b.tail)) s.disk.files c
      → Backed wal_path snapshot_path entries (after s c)
  kept c ending h = record {
    log = c.output;
    base = b.base;
    before = b.before;
    ops = b.ops;
    tail = b.tail;
    wal = refl;
    snapshot = b.snapshot;
    target = h.target;
    file = h.file;
    bound = h.bound;
    checkpoint =
        subst (λ f. IsCheckpoint f (length b.before) b.base) (sym (h.rest snapshot_path apart))
          b.checkpoint;
    writable = b.writable;
    ending = ending;
    rebuilt = b.rebuilt;
  }

  -- Nothing behind the frames, whatever has become of the stream.
  none_behind : (good : Bool) → b.tail ≡ [] → IsTail good b.tail
  none_behind true clean = clean
  none_behind false clean =
      (remove [], smallest-IsWritable, frame (remove []), ap (λ t. t ++ frame (remove [])) clean)

  measured :
      (r : Result ℕ × Channel)
      → b.tail ≡ []
      → Measured wal_path (b.before ++ (frames b.ops ++ b.tail)) s.disk.files r
      → Located wal_path snapshot_path entries s (r.0, after s r.1)
  measured (ok n, c) clean (e, up, h) = (
    refl,
    kept c (subst (λ g. IsTail g b.tail) (sym up) clean) h,
    record {
      log = c.output;
      file = b.before ++ (frames b.ops ++ b.tail);
      wal = refl;
      snapshot = b.snapshot;
      target = h.target;
      good = up;
      holds = h.file;
      bound = h.bound;
      size = e;
    },
  )
  measured (err message, c) clean h = (refl, kept c (none_behind c.output.good clean) h)

  unmeasured :
      (e : Bytes) × (current_offset (record { output = b.log; disk = s.disk })
          ≡ (err e, record { output = b.log; disk = s.disk }))
      → Located wal_path snapshot_path entries s (on_wal b.log current_offset s)
  unfolding on_wal
  unmeasured (e, eq) =
      subst (λ r. Located wal_path snapshot_path entries s (r.0, after s r.1)) (sym eq)
        (
          refl,
          Backed-same b (after s (record { output = b.log; disk = s.disk })) (sym b.wal) refl refl,
        )

  pub wal_offset-Located : Located wal_path snapshot_path entries s (wal_offset s)
  unfolding on_wal
  wal_offset-Located =
      subst (Located wal_path snapshot_path entries s) (sym (wal_offset-some s b.wal))
        (elim (Bool-cases b.log.good) [
          | inr down ↦ unmeasured (current_offset_bad _ down)
          | inl up ↦
              measured (current_offset (record { output = b.log; disk = s.disk }))
                (subst (λ g. IsTail g b.tail) up b.ending)
                (current_offset-Measured _ _ _ _ up (Backed-Holds b))
        ])
