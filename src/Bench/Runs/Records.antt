-- ===== src/Bench/Runs/Records.antt =====
-- The snapshot workload: how many records its store holds.
use agent_kv.Prelude.{◌+◌, ◌≤◌, ◌^◌, Bytes, codes, [], length, ◌≡◌, ap, arith}
use agent_kv.Exec.{◌>>=◌, gets}
use agent_kv.KvStore.{save_snapshot, size}
use agent_kv.Bench.Doubles.{Doubles}
use agent_kv.Bench.Utils.{fixed_value}
use agent_kv.Bench.Workloads.{
  WorkloadConfig, SnapshotBenchmarkResult, indexed_keys, Bench, on_world, open_store, preload_store,
}
use agent_kv.Bench.Workloads.Plan.{length-indexed_keys}
use agent_kv.Bench.Workloads.Keys.{indexed_keys-Fresh}
use agent_kv.Bench.Workloads.Filled.{filled, length-filled}
use agent_kv.Bench.Machine.{Machine, now}
use agent_kv.Bench.Runs.{snapshot_result, snapshot_workload, run_snapshot_benchmark}
use agent_kv.Bench.Causes.{
  Ends, Ends-continue, make_fixed_value-Ends, make_keys-Ends, in_directory-Ends, preload_store-Ends,
  open_store-Ends, save_snapshot-Ends,
}

module _ (D : Type 0) ⦃d : Doubles D⦄ (machine : Machine) (config : WorkloadConfig) where
  snapshot_workload-Ends :
      (directory : Bytes) (t : Bench)
      → config.operations ≤ 2 ^ 64
      → Ends machine
          (λ (result : SnapshotBenchmarkResult D) _. result.records ≡ config.operations)
          (snapshot_workload machine config directory t)
  unfolding snapshot_workload now snapshot_result size
  snapshot_workload-Ends directory t room =
      let keys = indexed_keys (codes "snapshot_key") config.operations in
      let value = fixed_value config.value_size_bytes in
      let Counts : SnapshotBenchmarkResult D → Bench → Type 0 =
        λ result _. result.records ≡ config.operations in
      Ends-continue machine (λ _ u. u.world.store.entries ≡ []) Counts (open_store directory t) _
        (open_store-Ends machine directory t)
        (λ _ u empty. make_keys-Ends machine Counts (codes "snapshot_key") config.operations _ u (
          make_fixed_value-Ends machine Counts config.value_size_bytes _ u (
            Ends-continue machine (λ _ v. v.world.store.entries ≡ filled keys value []) Counts
              (preload_store keys value u) _ (preload_store-Ends machine keys value [] u empty)
              (λ _ v held.
                let w : Bench = record v { readings = v.readings + 1 } in
                Ends-continue machine (λ _ x. x.world.store.entries ≡ w.world.store.entries) Counts
                  (on_world save_snapshot w)
                  (λ written. now machine >>= λ end.
                    gets (λ x.
                      snapshot_result directory (machine.clock v.readings) end written x.world))
                  (save_snapshot-Ends machine w)
                  (λ _ x same. omega (
                    arith,
                    ap length same,
                    ap length held,
                    length-filled keys value []
                        (indexed_keys-Fresh (codes "snapshot_key") config.operations room),
                    length-indexed_keys (codes "snapshot_key") config.operations,
                  ))))))

  -- On any disk, with any clock and arithmetic, for a number of operations of 64 bits: a snapshot run
  -- that returns reports as many records as operations were asked for. One that throws has met the path
  -- of temporary files that is not there, a directory that could not be made, a `reserve` without
  -- room, a log that could not be opened, or a `Set` or `SaveSnapshot` that threw.
  pub run_snapshot_benchmark-Ends :
      (s : Bench)
      → config.operations ≤ 2 ^ 64
      → Ends machine
          (λ (result : SnapshotBenchmarkResult D) _. result.records ≡ config.operations)
          (run_snapshot_benchmark machine config s)
  unfolding run_snapshot_benchmark
  run_snapshot_benchmark-Ends s room =
      in_directory-Ends machine
        (λ (result : SnapshotBenchmarkResult D). result.records ≡ config.operations)
        (codes "snapshot") (snapshot_workload machine config) s
        (λ directory t _. snapshot_workload-Ends directory t room)
