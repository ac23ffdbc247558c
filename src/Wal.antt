-- ===== src/Wal.antt =====
-- src/persistence/wal.cpp, class WriteAheadLog: framed records appended to a file and replayed into
-- a map. The object is its output stream, which keeps the path that it was opened on.
pub mod Frame
pub mod Append
pub mod Open
pub mod Offset
pub mod Replay
pub mod Recovery
pub mod Emptied
pub mod Lost
pub mod Safe
use agent_kv.Prelude.{
  ℕ, zero, suc, ◌+◌, ◌%◌, ◌*◌, ◌^◌, Bytes, codes, [], ◌∷◌, ◌++◌, length, drop, Option, none, some,
  Bool, true, false, ltb, ◌==◌, if◌then◌else◌,
}
use agent_kv.Exec.{Result, ok, err, Exec, lift, gets, ◌>>=◌, ◌>>◌}
use agent_kv.Map.{Map, insert, erase}
use agent_kv.Disk.{
  Disk, OutStream, Channel, contents, max_offset, modify, require_good, sync, tell, open_app,
  open_trunc, fail_stream,
}
use agent_kv.BinaryIo.{
  checked_size, write_primitive, write_bytes, read_primitive, read_bytes, consume_primitive,
  consume_bytes,
}

-- `kMaxRecordLength`
abbrev pub max_record_length : ℕ
max_record_length = 64 * 1024 * 1024

-- `enum class WalOp`
pub data WalOp : Type 0 where
  set delete : WalOp

abbrev pub op_code : WalOp → ℕ
op_code set = 1
op_code delete = 2

unfoldable pub checked_record_length : ℕ → Result ℕ
checked_record_length record_length =
    if ltb max_record_length record_length
    then err (codes "WAL record is too large")
    else ok (record_length % 2 ^ 32)

infixl 5 ◌>>=?◌
abbrev ◌>>=?◌ {ℓ κ} : {A : Type ℓ} {B : Type κ} → Option A → (A → Option B) → Option B
none >>=? f = none
some a >>=? f = f a

-- The part of `apply_record` behind the key, for each opcode. `none` stands for `false`: the store
-- stays as it is.
apply_set : Bytes → ℕ → Bytes → Map → Option Map
apply_set bytes offset key store = consume_primitive 4 bytes offset >>=? λ (value_size, offset').
    consume_bytes bytes offset' value_size >>=? λ (value, offset'').
    if offset'' == length bytes then some (insert key value store) else none

apply_delete : Bytes → ℕ → Bytes → Map → Option Map
apply_delete bytes offset key store =
    if offset == length bytes then some (erase key store) else none

pub apply_record : Bytes → Map → Option Map
unfolding apply_set apply_delete
apply_record bytes store = consume_primitive 1 bytes 0 >>=? λ (op, offset).
    consume_primitive 4 bytes offset >>=? λ (key_size, offset').
    consume_bytes bytes offset' key_size >>=? λ (key, offset'').
    if op == op_code set
    then apply_set bytes offset'' key store
    else if op == op_code delete
    then apply_delete bytes offset'' key store
    else none

-- The constructor: it throws if the file cannot be opened.
unfoldable pub open_log : Bytes → Disk → Result OutStream × Disk
open_log path d =
    let c = open_app path d in
    if c.output.good
    then (ok c.output, c.disk)
    else (err (codes "failed to open WAL file: " ++ path), c.disk)

pub append_set : Bytes → Bytes → Exec Channel (Unit {0})
append_set key value = do
  key_size ← lift (checked_size key (codes "WAL key"))
  value_size ← lift (checked_size value (codes "WAL value"))
  record_length ← lift (checked_record_length (1 + 4 + key_size + 4 + value_size))
  write_primitive 4 record_length (codes "WAL primitive")
  write_primitive 1 (op_code set) (codes "WAL primitive")
  write_primitive 4 key_size (codes "WAL primitive")
  write_bytes key (codes "WAL bytes")
  write_primitive 4 value_size (codes "WAL primitive")
  write_bytes value (codes "WAL bytes")
  modify sync
  require_good (codes "failed to write WAL SET record")

pub append_delete : Bytes → Exec Channel (Unit {0})
append_delete key = do
  key_size ← lift (checked_size key (codes "WAL key"))
  record_length ← lift (checked_record_length (1 + 4 + key_size))
  write_primitive 4 record_length (codes "WAL primitive")
  write_primitive 1 (op_code delete) (codes "WAL primitive")
  write_primitive 4 key_size (codes "WAL primitive")
  write_bytes key (codes "WAL bytes")
  modify sync
  require_good (codes "failed to write WAL DELETE record")

-- Each of `flush`, `seekp` and `tellp` may fail, and only the last leaves the stream good then.
pub current_offset : Exec Channel ℕ
current_offset = do
  modify sync
  require_good (codes "failed to flush WAL before reading offset")
  modify sync
  require_good (codes "failed to seek WAL output stream")
  tell (codes "failed to read WAL offset")

-- The stream is closed, the file truncated by a second stream, and the stream opened again. Where the
-- truncation fails the source leaves the stream closed with no error flag: like the failed stream of
-- the model it takes no byte, and a later `CurrentOffset` throws at its seek in place of its flush.
clear_reopened : Bytes → Channel → Result (Unit {0}) × Channel
clear_reopened path reopened =
    if reopened.output.good
    then (ok tt, reopened)
    else (err (codes "failed to reopen WAL file: " ++ path), reopened)

clear_truncated : Bytes → Channel → Channel → Result (Unit {0}) × Channel
clear_truncated path closed truncated =
    if truncated.output.good
    then clear_reopened path (open_app path truncated.disk)
    else (err (codes "failed to clear WAL file: " ++ path), record closed { disk = truncated.disk })

pub clear : Exec Channel (Unit {0})
unfolding clear_reopened clear_truncated
clear c =
    let path = c.output.path in
    let closed = fail_stream c in
    let truncated = open_trunc path c.disk in
    if truncated.output.good then clear_truncated path closed (sync truncated) else (
      err (codes "failed to truncate WAL file: " ++ path),
      record closed { disk = truncated.disk },
    )

-- One framed record and what follows it; `none` where the loop breaks.
unfoldable pub next_record : Bytes → Option (Bytes × Bytes)
next_record input = read_primitive 4 input >>=? λ (record_length, rest).
    if ltb max_record_length record_length then none else read_bytes record_length rest

-- The loop of `ReplayFrom` over what the stream still holds. `none`: the fuel ran out.
unfoldable pub replay_loop : ℕ → Bytes → ℕ → Map → Option (ℕ × Map)
replay_loop zero input recovered store = none
replay_loop (suc fuel) input recovered store = elim (next_record input) [
  | none ↦ some (recovered, store)
  | some (bytes, rest) ↦ elim (apply_record bytes store) [
    | none ↦ replay_loop fuel rest recovered store
    | some store' ↦ replay_loop fuel rest ((recovered + 1) % 2 ^ 64) store'
  ]
]

abbrev pub or_start : Option (ℕ × Map) → Map → ℕ × Map
or_start none store = (0, store)
or_start (some r) store = r

-- Each round takes four bytes at least, so the fuel is enough.
unfoldable pub replay_bytes : Bytes → Map → ℕ × Map
replay_bytes input store = or_start (replay_loop (suc (length input)) input 0 store) store

-- The number of operations applied, and the store. A missing file replays to nothing, and so does
-- an offset behind the end.
replay_file : Option Bytes → ℕ → Map → ℕ × Map
replay_file none offset store = (0, store)
replay_file (some bytes) offset store = replay_bytes (drop offset bytes) store

pub replay_from : Bytes → Disk → ℕ → Map → Result (ℕ × Map)
unfolding replay_file
replay_from path d offset store =
    if ltb max_offset offset
    then err (codes "WAL replay offset is too large")
    else ok (replay_file (d.files path) offset store)

pub replay : Bytes → Disk → Map → Result (ℕ × Map)
unfolding replay_from
replay path d store = replay_from path d 0 store
