-- ===== src/BinaryIo/Streams.antt =====
-- A sequence of checked writes puts the joined bytes into the file, or a front of them and throws.
use agent_kv.Prelude.{
  ℕ, ◌%◌, ◌^◌, ◌≤◌, Bytes, codes, [], ◌++◌, length, Option, true, ◌≡◌, arith, ltb-false,
}
use agent_kv.Exec.{ok, Exec, pure, ◌>>◌}
use agent_kv.Disk.{Channel, sync, modify, require_good}
use agent_kv.Disk.Writes.{Holds, Holds-same, Wrote, Wrote-continue, write-Wrote, sync-Wrote}
use agent_kv.BinaryIo.{le_bytes, checked_size, write_primitive, write_bytes, max_size}

-- On a good stream to `path`, `m` writes `bytes`.
pub record Writes (path : Bytes) (others : Bytes → Option Bytes) (bytes : Bytes)
    (m : Exec Channel (Unit {0})) : Type 0 where
  pub at :
      (old : Bytes) (c : Channel)
      → c.output.good ≡ true
      → Holds path old others c
      → Wrote path old bytes others (m c)

module _ {path : Bytes} {others : Bytes → Option Bytes} where
  pub Writes-then :
      {bytes more : Bytes} {m next : Exec Channel (Unit {0})}
      → Writes path others bytes m
      → Writes path others more next
      → Writes path others (bytes ++ more) (m >> next)
  Writes-then {bytes} {more} {m} {next} w v = record {
    at = λ old c up h.
        Wrote-continue path others old bytes more (m c) next (w.at old c up h)
          (v.at (old ++ bytes));
  }

  pub Writes-primitive :
      (w value : ℕ) (description : Bytes)
      → Writes path others (le_bytes w value) (write_primitive w value description)
  unfolding write_primitive
  Writes-primitive w value description = record {
    at = λ old c up h.
        write-Wrote (codes "failed to write " ++ description) c up h (le_bytes w value);
  }

  pub Writes-bytes :
      (bytes description : Bytes) → Writes path others bytes (write_bytes bytes description)
  unfolding write_bytes
  Writes-bytes bytes description = record {
    at = λ old c up h. write-Wrote (codes "failed to write " ++ description) c up h bytes;
  }

  pub Writes-pure : Writes path others [] (pure tt)
  Writes-pure = record { at = λ old c up h. (up, Holds-same h) }

  pub Writes-sync : (message : Bytes) → Writes path others [] (modify sync >> require_good message)
  Writes-sync message = record { at = λ old c up h. sync-Wrote message c up h }

pub checked_size-fits :
    (bytes name : Bytes) → length bytes ≤ max_size → checked_size bytes name ≡ ok (length bytes)
unfolding checked_size
checked_size-fits bytes name h =
    let e : length bytes % 2 ^ 32 ≡ length bytes = omega arith in
    rw (ltb-false max_size (length bytes) h, e)
