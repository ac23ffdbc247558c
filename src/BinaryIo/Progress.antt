-- ===== src/BinaryIo/Progress.antt =====
-- A sequence of checked writes goes through when no call is to fail and its bytes have room.
use agent_kv.Prelude.{
  ℕ, ◌+◌, ◌≤◌, Bytes, codes, [], ◌++◌, length, length-append, Option, true, ◌≡◌, arith, sym, subst,
}
use agent_kv.Exec.{Result, ok, err, Exec, pure, lift, ◌>>=◌, ◌>>◌, continue}
use agent_kv.Disk.{Channel, max_offset, sync, modify, require_good}
use agent_kv.Disk.Writes.{Holds, Wrote, length-contents}
use agent_kv.Disk.Progress.{Went, IsCalm, write-Went, sync-Went}
use agent_kv.BinaryIo.{le_bytes, write_primitive, write_bytes}
use agent_kv.BinaryIo.Streams.{
  Writes, Writes-then, Writes-primitive, Writes-bytes, Writes-pure, Writes-sync,
}

-- `m` writes `bytes` and goes through.
pub record Runs (path : Bytes) (others : Bytes → Option Bytes) (bytes : Bytes)
    (m : Exec Channel (Unit {0})) : Type 0 where
  pub writes : Writes path others bytes m
  pub goes :
      (old : Bytes) (c : Channel)
      → c.output.good ≡ true
      → Holds path old others c
      → IsCalm c.disk
      → length old + length bytes ≤ max_offset
      → Went (m c)

module _ {path : Bytes} {others : Bytes → Option Bytes} where
  pub Went-continue :
      {A : Type 0} (old bytes : Bytes) (r : Result (Unit {0}) × Channel) (next : Exec Channel A)
      → Wrote path old bytes others r
      → Went r
      → ((c : Channel)
          → c.output.good ≡ true
          → Holds path (old ++ bytes) others c
          → IsCalm c.disk
          → Went (next c))
      → Went (continue r.0 (λ _. next) r.1)
  Went-continue old bytes (ok u, c) next (up, h) calm then_goes = then_goes c up h calm
  Went-continue old bytes (err e, c) next w went then_goes = absurd went

  pub Runs-then :
      {bytes more : Bytes} {m next : Exec Channel (Unit {0})}
      → Runs path others bytes m
      → Runs path others more next
      → Runs path others (bytes ++ more) (m >> next)
  Runs-then {bytes} {more} {m} {next} r s = record {
    writes = Writes-then r.writes s.writes;
    goes = λ old c up h calm room.
        let sum = length-append bytes more in
        let sum' = length-append old bytes in
        Went-continue old bytes (m c) next (r.writes.at old c up h)
          (r.goes old c up h calm (omega arith))
          λ c' up' h' calm'. s.goes (old ++ bytes) c' up' h' calm' (omega arith);
  }

  pub Runs-primitive :
      (w value : ℕ) (description : Bytes)
      → Runs path others (le_bytes w value) (write_primitive w value description)
  unfolding write_primitive
  Runs-primitive w value description = record {
    writes = Writes-primitive w value description;
    goes = λ old c up h calm room.
        write-Went (codes "failed to write " ++ description) c up calm (le_bytes w value)
          (omega (arith, length-contents c h));
  }

  pub Runs-bytes :
      (bytes description : Bytes) → Runs path others bytes (write_bytes bytes description)
  unfolding write_bytes
  Runs-bytes bytes description = record {
    writes = Writes-bytes bytes description;
    goes = λ old c up h calm room.
        write-Went (codes "failed to write " ++ description) c up calm bytes
          (omega (arith, length-contents c h));
  }

  pub Runs-pure : Runs path others [] (pure tt)
  Runs-pure = record { writes = Writes-pure; goes = λ old c up h calm room. calm }

  pub Runs-sync : (message : Bytes) → Runs path others [] (modify sync >> require_good message)
  Runs-sync message = record {
    writes = Writes-sync message;
    goes = λ old c up h calm room. sync-Went message c up calm;
  }

  -- Behind a check that passes.
  pub Runs-lift :
      {bytes : Bytes} {A : Type 0} (r : Result A) {a : A} (next : A → Exec Channel (Unit {0}))
      → r ≡ ok a
      → Runs path others bytes (next a)
      → Runs path others bytes (lift r >>= next)
  Runs-lift {bytes} r next e runs =
      subst (λ r'. Runs path others bytes (lift r' >>= next)) (sym e) runs
