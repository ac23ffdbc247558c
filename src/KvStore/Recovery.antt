-- ===== src/KvStore/Recovery.antt =====
-- What `main` recovers from the disk of a durable store, and that a store started over a sound disk
-- is durable.
use agent_kv.Prelude.{
  ℕ, ◌≤◌, ◌^◌, ◌%◌, Bytes, List, [], ◌∷◌, ◌++◌, length, length-append, All, All-append, Option,
  none, some, Bool, true, false, ◌≡◌, ◌⊎◌, inl, inr, refl, sym, ap, subst, ◌∙◌, append-nil,
  append_assoc, arith,
}
use agent_kv.Exec.{Result, ok, continue, ◌>>=◌, pure}
use agent_kv.Map.{Map}
use agent_kv.Disk.{Disk, OutStream, max_offset}
use agent_kv.Snapshot
use agent_kv.Snapshot.{LoadResult, nothing_loaded}
use agent_kv.Snapshot.Load.{load-image, load-none}
use agent_kv.Wal
use agent_kv.Wal.Frame.{remove, Op, apply_op, frame, IsWritable}
use agent_kv.Wal.Recovery.{frames, frames-append, apply_ops, IsTorn, IsTorn-nil, replay_from-frames}
use agent_kv.KvStore.{KvStore, World, loaded_into, load_snapshot, replay_from_wal, recover}
use agent_kv.KvStore.Content.{apply_ops-append}
use agent_kv.KvStore.Durable.{IsCheckpoint, IsTail, IsDurable}

abbrev pub stream_is_good : Option OutStream → Bool
stream_is_good none = false
stream_is_good (some log) = log.good

-- Loading a checkpoint into an empty map.
pub load-IsCheckpoint :
    (path : Bytes) (d : Disk) (offset : ℕ) (base : Map)
    → IsCheckpoint (d.files path) offset base
    → offset ≤ max_offset
    → (r : LoadResult) × (Snapshot.load path d [] ≡ ok (r, base)) × (r.wal_offset ≡ offset)
load-IsCheckpoint path d offset base (inl (file, empty, zero_offset)) small = (
  nothing_loaded,
  load-none path d [] file ∙ ap (λ m. ok (nothing_loaded, m)) (sym empty),
  sym zero_offset,
)
load-IsCheckpoint path d offset base (inr (file, storable, map, few)) small = (
  record { loaded = true; entry_count = length base; wal_offset = offset },
  load-image path d offset base [] file storable map few (omega arith),
  refl,
)

-- The log's file ends with the whole record of an operation.
abbrev pub EndsWith : Option Bytes → Op → Type 0
EndsWith file op = (front : Bytes) × (file ≡ some (front ++ frame op))

-- What is replayed: the logged operations, or also the one whose record ends the file behind a
-- failed append.
abbrev Replayed : Bytes → Disk → ℕ → List Op → Map → Bool → Type 0
Replayed path d offset ops base good =
    (n : ℕ) × (m : Map) × (Wal.replay_from path d offset base ≡ ok (n, m))
    × ((m ≡ apply_ops ops base)
        ⊎ ((op : Op) × (good ≡ false)
            × IsWritable op
            × EndsWith (d.files path) op
            × (m ≡ apply_op op (apply_ops ops base))))

module _ (path : Bytes) (d : Disk) (before : Bytes) (ops : List Op) (tail : Bytes) (base : Map)
    (file : d.files path ≡ some (before ++ (frames ops ++ tail)))
    (small : length before ≤ max_offset) (ws : All IsWritable ops) where
  replay-torn :
      (good : Bool) (op : Op) → IsTorn op tail → Replayed path d (length before) ops base good
  replay-torn good op t = (
    length ops % 2 ^ 64,
    apply_ops ops base,
    replay_from-frames path d before ops op tail base file small ws t,
    inl refl,
  )

  replay-whole :
      (op : Op) → IsWritable op → tail ≡ frame op → Replayed path d (length before) ops base false
  replay-whole op w whole =
      let more : List Op = ops ++ (op ∷ []) in
      let seam : frames ops ++ tail ≡ frames more ++ [] =
        ap (λ t. frames ops ++ t) whole
        ∙ sym (frames-append ops op)
        ∙ sym (append-nil (frames more)) in
      (
        length more % 2 ^ 64,
        apply_ops more base,
        replay_from-frames path d before more (remove []) [] base
            (file ∙ ap (λ b. some (before ++ b)) seam) small
            (All-append IsWritable ops (op ∷ []) ws (w, tt)) IsTorn-nil,
        inr (
          op,
          refl,
          w,
          (before ++ frames ops, rw (file, whole, append_assoc) refl),
          apply_ops-append ops op base,
        ),
      )

  replay-front :
      (op : Op) (missing : Bytes)
      → IsWritable op
      → tail ++ missing ≡ frame op
      → Replayed path d (length before) ops base false
  replay-front op [] w joined = replay-whole op w (sym (append-nil tail) ∙ joined)
  replay-front op (x ∷ missing) w joined =
      replay-torn false op
        (record { writable = w; missing = x ∷ missing; joined = joined; ne_nil = λ e. cc })

  replay-tail : (good : Bool) → IsTail good tail → Replayed path d (length before) ops base good
  replay-tail true clean =
      replay-torn true (remove []) (subst (IsTorn (remove [])) (sym clean) IsTorn-nil)
  replay-tail false (op, w, missing, joined) = replay-front op missing w joined

-- Whether the stream of the store's log is good.
abbrev pub log_is_good : World → Bool
log_is_good s = stream_is_good s.store.wal

-- The map that recovery gives: that of the store, or, if the log's stream has failed and the log's
-- file ends with the whole record of an operation, possibly with that operation.
abbrev pub IsRecovered : Bytes → World → Map → Type 0
IsRecovered wal_path s m =
    (m ≡ s.store.entries)
    ⊎ ((op : Op) × (log_is_good s ≡ false)
        × IsWritable op
        × EndsWith (s.disk.files wal_path) op
        × (m ≡ apply_op op s.store.entries))

abbrev with_entries : World → Map → World
with_entries s m = record { store = record s.store { entries = m }; disk = s.disk }

load_snapshot-ok :
    (path : Bytes) (s : World) {r : LoadResult} {m : Map}
    → Snapshot.load path s.disk s.store.entries ≡ ok (r, m)
    → load_snapshot path s ≡ (ok r, with_entries s m)
unfolding load_snapshot
load_snapshot-ok path s e = ap (λ o. loaded_into o s) e

replay_from_wal-ok :
    (path : Bytes) (offset : ℕ) (s : World) {n : ℕ} {m : Map}
    → Wal.replay_from path s.disk offset s.store.entries ≡ ok (n, m)
    → replay_from_wal path offset s ≡ (ok n, with_entries s m)
unfolding replay_from_wal
replay_from_wal-ok path offset s e = ap (λ o. loaded_into o s) e

pub recover-ok :
    (wal_path snapshot_path : Bytes) (s : World) {r : LoadResult} {base : Map} {n : ℕ} {m : Map}
    → Snapshot.load snapshot_path s.disk s.store.entries ≡ ok (r, base)
    → Wal.replay_from wal_path s.disk r.wal_offset base ≡ ok (n, m)
    → recover wal_path snapshot_path s ≡ (ok (r, n), with_entries s m)
unfolding recover
recover-ok wal_path snapshot_path s {r} {base} loaded replayed =
    ap
      (λ (o : Result LoadResult × World).
        continue o.0
          (λ result.
            replay_from_wal wal_path result.wal_offset >>= λ recovered. pure (result, recovered))
          o.1)
      (load_snapshot-ok snapshot_path s loaded)
    ∙ ap (λ (o : Result ℕ × World). continue o.0 (λ recovered. pure (r, recovered)) o.1)
        (replay_from_wal-ok wal_path r.wal_offset (with_entries s base) replayed)

-- A process that dies at any moment leaves a disk from which `main` recovers, into a new store, the
-- map of the old store; if the stream of the log had failed, the operation whose record ends the log
-- may be there as well.
pub recover-IsDurable :
    (wal_path snapshot_path : Bytes) (s : World) (k : KvStore)
    → IsDurable wal_path snapshot_path s
    → k.entries ≡ []
    → (r : LoadResult × ℕ) × (m : Map) × (recover wal_path snapshot_path
          (record { store = k; disk = s.disk })
        ≡ (ok r, record { store = record k { entries = m }; disk = s.disk }))
      × IsRecovered wal_path s m
recover-IsDurable wal_path snapshot_path s k b empty =
    let small : length b.before ≤ max_offset =
      omega (arith, b.bound, length-append b.before (frames b.ops ++ b.tail)) in
    let (r, loaded, offset) =
      load-IsCheckpoint snapshot_path s.disk (length b.before) b.base b.checkpoint small in
    let (n, m, replayed, cases) =
      replay-tail wal_path s.disk b.before b.ops b.tail b.base b.file small b.writable b.log.good
        b.ending in
    (
      (r, n),
      m,
      recover-ok wal_path snapshot_path (record { store = k; disk = s.disk })
          (ap (Snapshot.load snapshot_path s.disk) empty ∙ loaded)
          (ap (λ o. Wal.replay_from wal_path s.disk o b.base) offset ∙ replayed),
      elim cases [
        | inl e ↦ inl (e ∙ sym b.rebuilt)
        | inr (op, down, w, whole, e) ↦
            inr (op, ap stream_is_good b.wal ∙ down, w, whole, e ∙ ap (apply_op op) (sym b.rebuilt))
      ],
    )
