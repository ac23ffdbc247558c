-- ===== src/BinaryIo/Codec.antt =====
-- Integers and byte strings are read back as they were written, whatever follows them.
use agent_kv.Prelude.{
  take-append_le, drop-append_le, take-append-drop, length-take, length-drop, ℕ, zero, suc, ◌+◌,
  ◌/◌, ◌^◌, ◌<◌, Bytes, ◌++◌, length, take, drop, take-append, drop-append, length-append, none,
  some, ◌≡◌, ap, subst, arith, refl, le→leb,
}
use native.Mathlib.Nat.{pow-suc}
use agent_kv.BinaryIo.{le_bytes, of_le_bytes, read_primitive, read_bytes}

pub length-le_bytes : (w value : ℕ) → length (le_bytes w value) ≡ w
unfolding le_bytes
length-le_bytes zero value = refl
length-le_bytes (suc w) value = ap suc (length-le_bytes w (value / 256))

-- A byte string behind its length.
abbrev pub sized : Bytes → Bytes
sized field = le_bytes 4 (length field) ++ field

pub length-sized : (field : Bytes) → length (sized field) ≡ 4 + length field
length-sized field =
    omega (arith, length-append (le_bytes 4 (length field)) field, length-le_bytes 4 (length field))

pub of_le_bytes-le_bytes : (w value : ℕ) → value < 256 ^ w → of_le_bytes (le_bytes w value) ≡ value
unfolding le_bytes of_le_bytes
of_le_bytes-le_bytes zero value h = omega arith
of_le_bytes-le_bytes (suc w) value h =
    let small : value / 256 < 256 ^ w = omega (arith, pow-suc 256 w) in
    omega (arith, of_le_bytes-le_bytes w (value / 256) small)

pub take_exact : (n : ℕ) (xs ys : Bytes) → length xs ≡ n → take n (xs ++ ys) ≡ xs
take_exact n xs ys e = subst (λ k. take k (xs ++ ys) ≡ xs) e (take-append xs ys)

pub drop_exact : (n : ℕ) (xs ys : Bytes) → length xs ≡ n → drop n (xs ++ ys) ≡ ys
drop_exact n xs ys e = subst (λ k. drop k (xs ++ ys) ≡ ys) e (drop-append xs ys)

pub read_bytes-append :
    (n : ℕ) (xs ys : Bytes) → length xs ≡ n → read_bytes n (xs ++ ys) ≡ some (xs, ys)
unfolding read_bytes
read_bytes-append n xs ys e = rw (
  take_exact n xs ys e,
  drop_exact n xs ys e,
  le→leb n (length (xs ++ ys)) (omega (arith, length-append xs ys)),
)

-- A value that fits its width is read back as it was written, with the bytes that follow it left.
pub read_primitive-le_bytes :
    (w value : ℕ) (rest : Bytes)
    → value < 256 ^ w
    → read_primitive w (le_bytes w value ++ rest) ≡ some (value, rest)
unfolding read_primitive
read_primitive-le_bytes w value rest h =
    let e = length-le_bytes w value in
    rw (
      take_exact w _ rest e,
      drop_exact w _ rest e,
      le→leb w (length (le_bytes w value ++ rest))
          (omega (arith, length-append (le_bytes w value) rest, e)),
      of_le_bytes-le_bytes w value h,
    )

-- Too few bytes are refused.
pub read_bytes_short : (n : ℕ) (input : Bytes) → length input < n → read_bytes n input ≡ none
unfolding read_bytes
read_bytes_short n input h = ground arith

pub read_primitive_short :
    (w : ℕ) (input : Bytes) → length input < w → read_primitive w input ≡ none
unfolding read_primitive
read_primitive_short w input h = ground arith

-- What a successful read took off the input.
pub read_primitive-eq-some :
    (w : ℕ) (input : Bytes) {value : ℕ} {rest : Bytes}
    → read_primitive w input ≡ some (value, rest)
    → length input ≡ w + length rest
unfolding read_primitive
read_primitive-eq-some w input h = ground (arith, length-drop w input)

pub read_bytes-eq-some :
    (n : ℕ) (input : Bytes) {bytes rest : Bytes}
    → read_bytes n input ≡ some (bytes, rest)
    → (length bytes ≡ n) × (bytes ++ rest ≡ input)
unfolding read_bytes
read_bytes-eq-some n input h = ground (arith, length-take n input, take-append-drop n input)

-- A successful read does not look at bytes that come later.
pub read_primitive-append :
    (w : ℕ) (input more : Bytes) {value : ℕ} {rest : Bytes}
    → read_primitive w input ≡ some (value, rest)
    → read_primitive w (input ++ more) ≡ some (value, rest ++ more)
unfolding read_primitive
read_primitive-append w input more h =
    ground
      (arith, length-append input more, take-append_le w input more, drop-append_le w input more)

pub read_bytes-append_more :
    (n : ℕ) (input more : Bytes) {bytes rest : Bytes}
    → read_bytes n input ≡ some (bytes, rest)
    → read_bytes n (input ++ more) ≡ some (bytes, rest ++ more)
unfolding read_bytes
read_bytes-append_more n input more h =
    ground
      (arith, length-append input more, take-append_le n input more, drop-append_le n input more)
