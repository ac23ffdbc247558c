-- ===== src/Bench/Machine.antt =====
-- What a run needs of the machine, bench/benchmark_utils.cpp, TempDirectory: the clock and the
-- generator that it reads, the room of its containers, and the directory that it works in.
use agent_kv.Prelude.{ℕ, ◌+◌, Bytes, Bool}
use agent_kv.Exec.{Result, ok, Exec, lift, ◌>>=◌}
use agent_kv.Bench.Utils.{Reserve, temp_directory, remove_all}
use agent_kv.Bench.Workloads.{Bench}

-- The environment of a run.
pub record Machine : Type 0 where
  -- The nanoseconds of the clock's readings.
  pub clock : ℕ → ℕ
  pub generator : ℕ → ℕ → ℕ
  -- `std::filesystem::temp_directory_path()`
  pub base : Result Bytes
  pub create : Bytes → Bool
  pub reserve : Reserve
  -- The files that `remove_all` fails to remove.
  pub stays : Bytes → Bool

module _ (machine : Machine) where
  -- `Clock::now()`
  unfoldable pub now : Exec Bench ℕ
  now s = (ok (machine.clock s.readings), record s { readings = s.readings + 1 })

  unfoldable pub enter_directory : Bytes → Exec Bench Bytes
  unfolding now
  enter_directory label = do
    stamp ← now
    base ← lift machine.base
    lift (temp_directory base machine.create label stamp)

  -- The destructor of `TempDirectory`, behind whatever was returned or thrown.
  unfoldable pub without_directory : {A : Type 0} → Bytes → Result A × Bench → Result A × Bench
  without_directory directory (r, s) = (
    r,
    record s { world = record s.world { disk = remove_all machine.stays directory s.world.disk } },
  )

  -- A workload in a directory of its own.
  unfoldable pub in_directory : {A : Type 0} → Bytes → (Bytes → Exec Bench A) → Exec Bench A
  unfolding enter_directory without_directory
  in_directory label run = do
    directory ← enter_directory label
    λ s. without_directory directory (run directory s)
