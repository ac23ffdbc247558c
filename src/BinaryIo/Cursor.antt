-- ===== src/BinaryIo/Cursor.antt =====
-- Parsing from a buffer at an offset, seen as reading the bytes behind the offset.
use agent_kv.Prelude.{
  ℕ, ◌+◌, ◌-◌, ◌^◌, ◌<◌, ◌≤◌, Bytes, ◌++◌, length, drop, drop-drop, length-drop, length-append,
  some, ◌≡◌, ◌∙◌, ap, sym, arith, refl, ltb-false,
}
use agent_kv.BinaryIo.{le_bytes, consume_primitive, consume_bytes}
use agent_kv.BinaryIo.Codec.{length-le_bytes, of_le_bytes-le_bytes, take_exact, drop_exact}

-- The bytes of `buffer` from `offset` on are `rest`.
pub record At (buffer : Bytes) (offset : ℕ) (rest : Bytes) : Type 0 where
  pub inside : offset ≤ length buffer
  pub ahead : drop offset buffer ≡ rest

pub At-start : (buffer : Bytes) → At buffer 0 buffer
At-start buffer = record { inside = omega arith; ahead = refl }

pub At-length :
    {buffer rest : Bytes} (offset : ℕ)
    → At buffer offset rest
    → length buffer ≡ offset + length rest
At-length {buffer} {rest} offset a =
    omega (arith, length-drop offset buffer, ap length a.ahead, a.inside)

module _ {buffer rest : Bytes} (field : Bytes) (offset n : ℕ) where
  pub At-skip : At buffer offset (field ++ rest) → length field ≡ n → At buffer (offset + n) rest
  At-skip a e = record {
    inside = omega (arith, At-length offset a, length-append field rest);
    ahead = sym (drop-drop offset n buffer) ∙ ap (drop n) a.ahead ∙ drop_exact n field rest e;
  }

pub consume_bytes-At :
    {buffer : Bytes} (field rest : Bytes) (offset n : ℕ)
    → At buffer offset (field ++ rest)
    → length field ≡ n
    → consume_bytes buffer offset n ≡ some (field, offset + n)
unfolding consume_bytes
consume_bytes-At {buffer} field rest offset n a e =
    let total = At-length offset a in
    rw (
      a.ahead,
      take_exact n field rest e,
      ltb-false (length buffer) offset a.inside,
      ltb-false (length buffer - offset) n (omega (arith, total, length-append field rest)),
    )

pub consume_primitive-At :
    {buffer : Bytes} (w value offset : ℕ) (rest : Bytes)
    → At buffer offset (le_bytes w value ++ rest)
    → value < 256 ^ w
    → consume_primitive w buffer offset ≡ some (value, offset + w)
unfolding consume_primitive
consume_primitive-At {buffer} w value offset rest a h =
    let total = At-length offset a in
    let e = length-le_bytes w value in
    rw (
      a.ahead,
      take_exact w (le_bytes w value) rest e,
      of_le_bytes-le_bytes w value h,
      ltb-false (length buffer) offset a.inside,
      ltb-false (length buffer - offset) w
          (omega (arith, total, length-append (le_bytes w value) rest, e)),
    )
