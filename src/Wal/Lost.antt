-- ===== src/Wal/Lost.antt =====
-- What becomes of records that are appended behind a torn one: the log is opened again where it ends,
-- and replay takes their bytes for the rest of the torn record.
use agent_kv.Prelude.{
  ℕ, ◌≤◌, ◌<◌, ◌%◌, ◌^◌, Bytes, List, ◌++◌, length, length-append, take, drop, take-append_le,
  take-append-drop, All, none, some, ◌≡◌, sym, ap, ◌∙◌, arith, append_assoc, ltb-false, drop-all,
  [],
}
use agent_kv.Exec.{ok}
use agent_kv.Map.{Map}
use agent_kv.Disk.{Disk, max_offset}
use agent_kv.BinaryIo.{le_bytes}
use agent_kv.BinaryIo.Codec.{
  sized, length-sized, length-le_bytes, take_exact, read_primitive-le_bytes, read_bytes_short,
  read_primitive_short,
}
use agent_kv.Wal.{max_record_length, next_record, replay_bytes, replay_file, replay_from}
use agent_kv.Wal.Replay.{replay_loop_break}
use agent_kv.Wal.Frame.{Op, payload, frame, IsWritable}
use agent_kv.Wal.Recovery.{frames, apply_ops, replay_bytes-frames, replay_from_at}

-- A torn record that has its length field starts with that field.
length_field :
    (torn missing bytes : Bytes)
    → torn ++ missing ≡ sized bytes
    → 4 ≤ length torn
    → torn ≡ le_bytes 4 (length bytes) ++ drop 4 torn
length_field torn missing bytes joined long =
    let size : Bytes = le_bytes 4 (length bytes) in
    let front : take 4 torn ≡ size =
      sym (take-append_le 4 torn missing long)
      ∙ ap (take 4) joined
      ∙ take_exact 4 size bytes (length-le_bytes 4 (length bytes)) in
    sym (take-append-drop 4 torn) ∙ ap (λ b. b ++ drop 4 torn) front

next_record_lost :
    (torn missing more bytes : Bytes)
    → length bytes ≤ max_record_length
    → torn ++ missing ≡ sized bytes
    → 4 ≤ length torn
    → length more < length missing
    → next_record (torn ++ more) ≡ none
unfolding next_record
next_record_lost torn missing more bytes small joined long short =
    let size : Bytes = le_bytes 4 (length bytes) in
    let field = length_field torn missing bytes joined long in
    let seam : torn ++ more ≡ size ++ (drop 4 torn ++ more) =
      ap (λ b. b ++ more) field ∙ append_assoc size (drop 4 torn) more in
    let few : length (drop 4 torn ++ more) < length bytes = omega (
      arith,
      ap length seam,
      length-append torn more,
      length-append torn missing,
      ap length joined,
      length-sized bytes,
      length-append size (drop 4 torn ++ more),
      length-le_bytes 4 (length bytes),
    ) in
    rw
      (
        seam,
        read_primitive-le_bytes 4 (length bytes) (drop 4 torn ++ more) (omega arith),
        ltb-false max_record_length (length bytes) small,
      )
      (read_bytes_short (length bytes) (drop 4 torn ++ more) few)

-- A log with the front of a record that has its length field but not all its bytes, and behind it
-- fewer bytes than that record lacks: replay applies the operations in front of the torn record and
-- none of what was appended behind it.
pub replay_from_lost :
    (path : Bytes) (d : Disk) (before : Bytes) (ops : List Op) (op : Op) (torn missing more : Bytes)
    (store : Map)
    → d.files path ≡ some (before ++ (frames ops ++ (torn ++ more)))
    → length before ≤ max_offset
    → All IsWritable ops
    → IsWritable op
    → torn ++ missing ≡ frame op
    → 4 ≤ length torn
    → length more < length missing
    → replay_from path d (length before) store ≡ ok (length ops % 2 ^ 64, apply_ops ops store)
replay_from_lost path d before ops op torn missing more store file small ws w joined long short =
    replay_from_at path d before (frames ops ++ (torn ++ more)) store file small
    ∙ ap ok (
        replay_bytes-frames ops (torn ++ more) store ws
          (next_record_lost torn missing more (payload op) w joined long short))

replay_bytes-nil : (store : Map) → replay_bytes [] store ≡ (0, store)
unfolding replay_bytes next_record
replay_bytes-nil store =
    rw (replay_loop_break 0 [] 0 store (rw (read_primitive_short 4 [] (omega arith))))

-- Behind the end of the log there is nothing to replay.
pub replay_from_behind :
    (path : Bytes) (d : Disk) (offset : ℕ) (log : Bytes) (store : Map)
    → d.files path ≡ some log
    → length log ≤ offset
    → offset ≤ max_offset
    → replay_from path d offset store ≡ ok (0, store)
unfolding replay_from replay_file
replay_from_behind path d offset log store file short small = rw (
  ltb-false max_offset offset small,
  file,
  replay_file,
  drop-all offset log short,
  replay_bytes-nil store,
)
