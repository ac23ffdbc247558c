-- ===== src/Wal/Frame.antt =====
-- The operations that the log stands for, and the record of each: what the code writes, said once.
use agent_kv.Prelude.{
  ℕ, ◌+◌, ◌≤◌, Bytes, [], ◌++◌, length, length-append, some, ◌≡◌, arith, ==_iff, append-nil,
  append_assoc, sym, ◌∙◌, subst, refl,
}
use native.Mathlib.Nat.{add-zero}
use agent_kv.Map.{Map, insert, erase}
use agent_kv.BinaryIo.{le_bytes, consume_primitive, consume_bytes}
use agent_kv.BinaryIo.Codec.{length-le_bytes, sized, length-sized}
use agent_kv.BinaryIo.Cursor.{
  At, At-start, At-skip, At-length, consume_primitive-At, consume_bytes-At,
}
use agent_kv.Wal.{max_record_length, WalOp, op_code, apply_record}

pub data Op : Type 0 where
  put : Bytes → Bytes → Op
  remove : Bytes → Op

abbrev pub apply_op : Op → Map → Map
apply_op (put key value) store = insert key value store
apply_op (remove key) store = erase key store

-- Behind the length field: [op][key_size][key], and [value_size][value] for a SET.
abbrev pub payload : Op → Bytes
payload (put key value) = le_bytes 1 (op_code WalOp.set) ++ (sized key ++ sized value)
payload (remove key) = le_bytes 1 (op_code WalOp.delete) ++ sized key

abbrev pub frame : Op → Bytes
frame op = sized (payload op)

abbrev pub IsWritable : Op → Type 0
IsWritable op = length (payload op) ≤ max_record_length

pub length-payload-put :
    (key value : Bytes) → length (payload (put key value)) ≡ 1 + 4 + length key + 4 + length value
length-payload-put key value = omega (
  arith,
  length-append (le_bytes 1 (op_code WalOp.set)) (sized key ++ sized value),
  length-le_bytes 1 (op_code WalOp.set),
  length-append (sized key) (sized value),
  length-sized key,
  length-sized value,
)

pub length-payload-remove : (key : Bytes) → length (payload (remove key)) ≡ 1 + 4 + length key
length-payload-remove key = omega (
  arith,
  length-append (le_bytes 1 (op_code WalOp.delete)) (sized key),
  length-le_bytes 1 (op_code WalOp.delete),
  length-sized key,
)

-- A sized field at the offset: the size, the field, and what comes next.
record SizedAt (buffer field rest : Bytes) (offset : ℕ) : Type 0 where
  size : consume_primitive 4 buffer offset ≡ some (length field, offset + 4)
  bytes : consume_bytes buffer (offset + 4) (length field) ≡ some (field, offset + 4 + length field)
  next : At buffer (offset + 4 + length field) rest

sized_at :
    {buffer : Bytes} (field rest : Bytes) (offset : ℕ)
    → At buffer offset (sized field ++ rest)
    → length field ≤ max_record_length
    → SizedAt buffer field rest offset
sized_at {buffer} field rest offset a small =
    let size : Bytes = le_bytes 4 (length field) in
    let at_size : At buffer offset (size ++ (field ++ rest)) =
      subst (At buffer offset) (append_assoc size field rest) a in
    let at_field = At-skip size offset 4 at_size (length-le_bytes 4 (length field)) in
    record {
      size = consume_primitive-At 4 (length field) offset (field ++ rest) at_size (omega arith);
      bytes = consume_bytes-At field rest (offset + 4) (length field) at_field refl;
      next = At-skip field (offset + 4) (length field) at_field refl;
    }

-- Parsing the record that was written for an operation applies that operation to the map, when the
-- record is not too large.
pub apply_record-payload :
    (op : Op) (store : Map)
    → IsWritable op
    → apply_record (payload op) store ≡ some (apply_op op store)
unfolding apply_record
apply_record-payload (put key value) store w =
    let buffer = payload (put key value) in
    let total = length-payload-put key value in
    let start = At-start buffer in
    let k =
      sized_at key (sized value) 1 (At-skip (le_bytes 1 1) 0 1 start (length-le_bytes 1 1))
        (omega (arith, total)) in
    let v =
      sized_at value [] (1 + 4 + length key)
        (subst (At buffer (1 + 4 + length key)) (sym (append-nil (sized value))) k.next)
        (omega (arith, total)) in
    let last = (==_iff _ _).1 (sym (At-length _ v.next ∙ add-zero _)) in
    rw (
      consume_primitive-At 1 1 0 (sized key ++ sized value) start (omega arith),
      k.size,
      k.bytes,
      v.size,
      v.bytes,
      last,
    )
apply_record-payload (remove key) store w =
    let buffer = payload (remove key) in
    let total = length-payload-remove key in
    let start = At-start buffer in
    let k =
      sized_at key [] 1
        (subst (At buffer 1) (sym (append-nil (sized key)))
          (At-skip (le_bytes 1 2) 0 1 start (length-le_bytes 1 2)))
        (omega (arith, total)) in
    let last = (==_iff _ _).1 (sym (At-length _ k.next ∙ add-zero _)) in
    rw (consume_primitive-At 1 2 0 (sized key) start (omega arith), k.size, k.bytes, last)
