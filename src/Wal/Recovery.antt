-- ===== src/Wal/Recovery.antt =====
-- What `ReplayFrom` makes of a log file: it folds `apply_record` over the records, stops in front of
-- a torn tail, and rebuilds the map from the operations that were appended.
use agent_kv.Prelude.{
  ℕ, zero, suc, ◌+◌, ◌%◌, ◌^◌, ◌<◌, ◌≤◌, Bytes, List, [], ◌∷◌, ◌++◌, length, length-append,
  drop-append, All, Option, none, some, ◌≡◌, arith, append_assoc, append-nil, ap, sym, ◌∙◌, refl,
  ◌≢◌, inl, inr, Option-cases, ltb-false,
}
use mathlib.Core.List.{map}
use agent_kv.Exec.{ok}
use agent_kv.Map.{Map}
use agent_kv.Disk.{Disk, max_offset}
use agent_kv.BinaryIo.Codec.{sized, length-sized}
use agent_kv.Wal.{
  max_record_length, apply_record, next_record, replay_loop, replay_bytes, replay_from, replay_file,
}
use agent_kv.Wal.Frame.{
  remove, length-payload-remove, Op, apply_op, payload, frame, IsWritable, apply_record-payload,
}
use agent_kv.Wal.Replay.{
  next_record-sized, next_record_torn, replay_loop_break, replay_loop_skip, replay_loop_apply,
}

abbrev pub IsRecord : Bytes → Type 0
IsRecord bytes = length bytes ≤ max_record_length

-- The file that holds these records.
abbrev pub records : List Bytes → Bytes
records [] = []
records (r ∷ rs) = sized r ++ records rs

-- A malformed record is passed over.
abbrev pub step : Option Map → ℕ → Map → ℕ × Map
step none recovered store = (recovered, store)
step (some store') recovered store = ((recovered + 1) % 2 ^ 64, store')

abbrev pub fold_records : List Bytes → ℕ × Map → ℕ × Map
fold_records [] r = r
fold_records (b ∷ bs) (recovered, store) =
    fold_records bs (step (apply_record b store) recovered store)

replay_loop-records :
    (rs : List Bytes) (tail : Bytes) (fuel recovered : ℕ) (store : Map)
    → All IsRecord rs
    → next_record tail ≡ none
    → length (records rs ++ tail) < fuel
    → replay_loop fuel (records rs ++ tail) recovered store
      ≡ some (fold_records rs (recovered, store))
replay_loop-records rs tail zero recovered store all stop enough = absurd (omega arith)
replay_loop-records [] tail (suc fuel) recovered store all stop enough =
    replay_loop_break fuel tail recovered store stop
replay_loop-records (b ∷ bs) tail (suc fuel) recovered store (small, all) stop enough =
    let input : Bytes = records (b ∷ bs) ++ tail in
    let next : next_record input ≡ some (b, records bs ++ tail) =
      ap next_record (append_assoc (sized b) (records bs) tail)
      ∙ next_record-sized b (records bs ++ tail) small in
    let less : length (records bs ++ tail) < fuel = omega (
      arith,
      ap length (append_assoc (sized b) (records bs) tail),
      length-append (sized b) (records bs ++ tail),
      length-sized b,
    ) in
    elim (Option-cases (apply_record b store)) [
      | inl skip ↦
          replay_loop_skip fuel input recovered store next skip
          ∙ replay_loop-records bs tail fuel recovered store all stop less
          ∙ rw skip
      | inr (store', done) ↦
          replay_loop_apply fuel input recovered store next done
          ∙ replay_loop-records bs tail fuel ((recovered + 1) % 2 ^ 64) store' all stop less
          ∙ rw done
    ]

pub replay_bytes-records :
    (rs : List Bytes) (tail : Bytes) (store : Map)
    → All IsRecord rs
    → next_record tail ≡ none
    → replay_bytes (records rs ++ tail) store ≡ fold_records rs (0, store)
unfolding replay_bytes
replay_bytes-records rs tail store all stop =
    rw (
      replay_loop-records rs tail (suc (length (records rs ++ tail))) 0 store all stop
        (omega arith))

abbrev pub frames : List Op → Bytes
frames ops = records (map payload ops)

pub frames-append : (ops : List Op) (op : Op) → frames (ops ++ (op ∷ [])) ≡ frames ops ++ frame op
frames-append [] op = append-nil (frame op)
frames-append (o ∷ ops) op =
    ap (λ b. frame o ++ b) (frames-append ops op)
    ∙ sym (append_assoc (frame o) (frames ops) (frame op))

abbrev pub apply_ops : List Op → Map → Map
apply_ops [] store = store
apply_ops (op ∷ ops) store = apply_ops ops (apply_op op store)

-- The front of the record that an append was writing when it stopped; it may be empty.
pub record IsTorn (op : Op) (torn : Bytes) : Type 0 where
  pub writable : IsWritable op
  pub missing : Bytes
  pub joined : torn ++ missing ≡ frame op
  pub ne_nil : missing ≢ []

pub IsTorn-stops : {op : Op} {torn : Bytes} → IsTorn op torn → next_record torn ≡ none
IsTorn-stops {op} {torn} t =
    next_record_torn torn t.missing (payload op) t.writable t.joined t.ne_nil

pub smallest-IsWritable : IsWritable (remove [])
smallest-IsWritable = omega (arith, length-payload-remove [])

pub frame-ne-nil : (op : Op) → frame op ≢ []
frame-ne-nil op e = absurd (omega (arith, length-sized (payload op), ap length e))

-- Nothing is a front of a record.
pub IsTorn-nil : IsTorn (remove []) []
IsTorn-nil = record {
  writable = smallest-IsWritable;
  missing = frame (remove []);
  joined = refl;
  ne_nil = frame-ne-nil (remove []);
}

pub IsRecord-payloads : (ops : List Op) → All IsWritable ops → All IsRecord (map payload ops)
IsRecord-payloads [] _ = tt
IsRecord-payloads (op ∷ ops) (w, ws) = (w, IsRecord-payloads ops ws)

fold_records-payloads :
    (ops : List Op) (recovered : ℕ) (store : Map)
    → All IsWritable ops
    → recovered < 2 ^ 64
    → fold_records (map payload ops) (recovered, store)
      ≡ ((recovered + length ops) % 2 ^ 64, apply_ops ops store)
fold_records-payloads [] recovered store _ small =
    let e : (recovered + 0) % 2 ^ 64 ≡ recovered = omega arith in rw e
fold_records-payloads (op ∷ ops) recovered store (w, ws) small =
    let wrapped : ((recovered + 1) % 2 ^ 64 + length ops) % 2 ^ 64
        ≡ (recovered + suc (length ops)) % 2 ^ 64 =
      omega arith in
    ap (λ (o : Option Map). fold_records (map payload ops) (step o recovered store))
      (apply_record-payload op store w)
    ∙ (fold_records-payloads ops ((recovered + 1) % 2 ^ 64) (apply_op op store) ws (omega arith)
        ∙ ap (λ n. (n, apply_ops ops (apply_op op store))) wrapped)

pub replay_bytes-frames :
    (ops : List Op) (tail : Bytes) (store : Map)
    → All IsWritable ops
    → next_record tail ≡ none
    → replay_bytes (frames ops ++ tail) store ≡ (length ops % 2 ^ 64, apply_ops ops store)
replay_bytes-frames ops tail store ws stop =
    replay_bytes-records (map payload ops) tail store (IsRecord-payloads ops ws) stop
    ∙ fold_records-payloads ops 0 store ws (omega arith)
    ∙ let e : 0 + length ops ≡ length ops = omega arith in rw e

-- Replaying a file from the end of `before` on.
pub replay_from_at :
    (path : Bytes) (d : Disk) (before input : Bytes) (store : Map)
    → d.files path ≡ some (before ++ input)
    → length before ≤ max_offset
    → replay_from path d (length before) store ≡ ok (replay_bytes input store)
unfolding replay_from
replay_from_at path d before input store file small =
    rw (ltb-false max_offset (length before) small, file, replay_file, drop-append before input)

-- A log of any well-framed records, whole or malformed inside, and behind them the torn front of a
-- record or nothing: replay from the offset where they begin is the fold of `apply_record` over
-- them, in order; a malformed record is passed over and the torn one dropped.
pub replay_from-records :
    (path : Bytes) (d : Disk) (before : Bytes) (rs : List Bytes) (op : Op) (torn : Bytes)
    (store : Map)
    → d.files path ≡ some (before ++ (records rs ++ torn))
    → length before ≤ max_offset
    → All IsRecord rs
    → IsTorn op torn
    → replay_from path d (length before) store ≡ ok (fold_records rs (0, store))
replay_from-records path d before rs op torn store file small all t =
    replay_from_at path d before (records rs ++ torn) store file small
    ∙ ap ok (replay_bytes-records rs torn store all (IsTorn-stops t))

-- A log whose bytes from the given offset on are the frames of writable operations, and behind them
-- the torn front of one more frame or nothing: replay from there applies exactly those operations,
-- in order, and counts them modulo 2 ^ 64.
pub replay_from-frames :
    (path : Bytes) (d : Disk) (before : Bytes) (ops : List Op) (op : Op) (torn : Bytes)
    (store : Map)
    → d.files path ≡ some (before ++ (frames ops ++ torn))
    → length before ≤ max_offset
    → All IsWritable ops
    → IsTorn op torn
    → replay_from path d (length before) store ≡ ok (length ops % 2 ^ 64, apply_ops ops store)
replay_from-frames path d before ops op torn store file small ws t =
    replay_from_at path d before (frames ops ++ torn) store file small
    ∙ ap ok (replay_bytes-frames ops torn store ws (IsTorn-stops t))
