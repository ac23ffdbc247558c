-- ===== src/BinaryIo.antt =====
-- include/persistence/binary_io.h: fixed-width primitives in the byte order of a little-endian host,
-- length-checked byte strings, and bounded parsing from a buffer.
pub mod Codec
pub mod Cursor
pub mod Streams
pub mod Progress
use agent_kv.Prelude.{ℕ, zero, suc, ◌+◌, ◌-◌, ◌*◌, ◌/◌, ◌%◌, ◌^◌, Bytes, codes, [], ◌∷◌, ◌++◌}
use agent_kv.Prelude.{length, take, drop, Option, none, some, ◌||◌, ltb, leb, if◌then◌else◌}
use agent_kv.Exec.{Exec, Result, ok, err, ◌>>=◌, ◌>>◌}
use agent_kv.Disk.{Channel, write, modify, require_good}

-- The object representation of an unsigned integer of `w` bytes.
unfoldable pub le_bytes : ℕ → ℕ → Bytes
le_bytes zero value = []
le_bytes (suc w) value = (value % 256) ∷ le_bytes w (value / 256)

unfoldable pub of_le_bytes : Bytes → ℕ
of_le_bytes [] = 0
of_le_bytes (b ∷ bytes) = b + 256 * of_le_bytes bytes

-- `std::numeric_limits<SizeType>::max()`
abbrev pub max_size : ℕ
max_size = 2 ^ 32 - 1

unfoldable pub write_primitive : ℕ → ℕ → Bytes → Exec Channel (Unit {0})
write_primitive w value description = do
  modify (write (le_bytes w value))
  require_good (codes "failed to write " ++ description)

-- `false` on a short read, else the value and what the stream holds behind it.
unfoldable pub read_primitive : ℕ → Bytes → Option (ℕ × Bytes)
read_primitive w input =
    if leb w (length input) then some (of_le_bytes (take w input), drop w input) else none

unfoldable pub write_bytes : Bytes → Bytes → Exec Channel (Unit {0})
write_bytes bytes description = do
  modify (write bytes)
  require_good (codes "failed to write " ++ description)

-- `input.read(record.data(), size)` and the test of the stream behind it.
unfoldable pub read_bytes : ℕ → Bytes → Option (Bytes × Bytes)
read_bytes size input =
    if leb size (length input) then some (take size input, drop size input) else none

unfoldable pub checked_size : Bytes → Bytes → Result ℕ
checked_size bytes field_name =
    if ltb max_size (length bytes)
    then err (field_name ++ codes " is too large")
    else ok (length bytes % 2 ^ 32)

-- The value and the new offset, or `none` for `false`, where the offset stays.
unfoldable pub consume_primitive : ℕ → Bytes → ℕ → Option (ℕ × ℕ)
consume_primitive w buffer offset =
    if ltb (length buffer) offset || ltb (length buffer - offset) w
    then none
    else some (of_le_bytes (take w (drop offset buffer)), offset + w)

unfoldable pub consume_bytes : Bytes → ℕ → ℕ → Option (Bytes × ℕ)
consume_bytes buffer offset size =
    if ltb (length buffer) offset || ltb (length buffer - offset) size
    then none
    else some (take size (drop offset buffer), offset + size)
