-- ===== src/Bench/Runs/Recovered.antt =====
-- The recovery workload: the second store holds what was written through the first.
use mathlib.Core.Bool.{false≢true}
use agent_kv.Prelude.{
  ℕ, ◌+◌, ◌≤◌, ◌^◌, Bytes, codes, [], length, none, Bool, true, false, if◌then◌else◌, ◌≡◌, sym, ap,
  subst, ◌∙◌,
}
use agent_kv.Exec.{Result, ok, Exec, pure, throw, ◌>>=◌, ◌>>◌, continue, gets}
use agent_kv.Map.{Map}
use agent_kv.Disk.{or_empty, max_offset}
use agent_kv.Snapshot.{LoadResult}
use agent_kv.KvStore.{World, save_snapshot, recover, size}
use agent_kv.KvStore.Sessions.{recover-opened}
use agent_kv.KvStore.Good.{Backed-IsSound}
use agent_kv.Bench.Doubles.{Doubles}
use agent_kv.Bench.Utils.{fixed_value, temp_directory}
use agent_kv.Bench.Workloads.{
  WorkloadConfig, RecoveryBenchmarkResult, recovery_tail_operations, Bench, on_world, open_store,
  preload_store, prepare_recovery, wal_path, snapshot_path,
}
use agent_kv.Bench.Workloads.Paths.{wal_path-ne}
use agent_kv.Bench.Workloads.Filled.{filled, base_keys, tail_keys, length-recovery_filled}
use agent_kv.Bench.Machine.{Machine, now}
use agent_kv.Bench.Runs.{recovery_result, recovery_workload, run_recovery_benchmark}
use agent_kv.Bench.Causes.{
  Ends, Ends-continue, make_fixed_value-Ends, make_keys-Ends, in_directory-Ends,
}
use agent_kv.Bench.Kept.{
  Kept, open_store_over, open_store-Kept, preload_store-Kept, save_snapshot-Kept,
}

module _ (machine : Machine) (config : WorkloadConfig) (directory : Bytes) where
  value : Bytes
  value = fixed_value config.value_size_bytes

  abbrev written : Map
  written =
      filled (tail_keys config (fixed_value config.value_size_bytes))
        (fixed_value config.value_size_bytes)
        (filled (base_keys config (fixed_value config.value_size_bytes))
          (fixed_value config.value_size_bytes) [])

  -- The check of the reply of `SaveSnapshot`.
  saved_all :
      {B : Type 0} (P : B → Bench → Type 0) (saved : Bool) (message : Bytes) (next : Exec Bench B)
      (s : Bench)
      → saved ≡ true
      → Ends machine P (next s)
      → Ends machine P (((if saved then pure tt else throw message) >> next) s)
  saved_all P true message next s e ends = ends
  saved_all P false message next s e ends = absurd (false≢true e)

  prepare_recovery-Kept :
      (s : Bench)
      → s.world.disk.files (wal_path directory) ≡ none
      → s.world.disk.files (snapshot_path directory) ≡ none
      → Ends machine
          (λ _ t. Kept directory written t)
          (prepare_recovery machine.reserve directory config s)
  unfolding prepare_recovery
  prepare_recovery-Kept s no_wal no_snapshot =
      let v = fixed_value config.value_size_bytes in
      let base = base_keys config v in
      let tail = tail_keys config v in
      let Done : Unit {0} → Bench → Type 0 = λ _ t. Kept directory written t in
      make_fixed_value-Ends machine Done config.value_size_bytes _ s (
        Ends-continue machine (λ _ t. Kept directory [] t) Done (open_store directory s) _
          (open_store-Kept machine directory s no_wal no_snapshot)
          (λ _ t k. make_keys-Ends machine Done (codes "recovery_base_key") config.operations _ t (
            Ends-continue machine (λ _ u. Kept directory (filled base v []) u) Done
              (preload_store base v t) _ (preload_store-Kept machine directory base v [] t k)
              (λ _ u k'.
                Ends-continue machine
                  (λ saved x. (saved ≡ true) × Kept directory (filled base v []) x) Done
                  (on_world save_snapshot u) _
                  (save_snapshot-Kept machine directory (filled base v []) u k')
                  (λ saved x (fine, k''). saved_all Done saved _ _ x fine (
                    make_keys-Ends machine Done (codes "recovery_tail_key")
                      (recovery_tail_operations config) (λ keys. preload_store keys v) x
                      (preload_store-Kept machine directory tail v (filled base v []) x k'')))))))

  -- Recovery is going to return, with this map.
  Recoverable : Map → Bench → Type 0
  Recoverable m s =
      (r : LoadResult × ℕ) × (w : World) × (recover (wal_path directory) (snapshot_path directory)
          s.world
        ≡ (ok r, w))
      × (w.store.entries ≡ m)

  reopened :
      (m : Map) (s : Bench)
      → Kept directory m s
      → Ends machine (λ _ t. Recoverable m t) (open_store directory s)
  unfolding Recoverable
  reopened m s k =
      let b = k.durable in
      let bound = subst (λ f. length f ≤ max_offset) (sym (ap or_empty b.file)) b.bound in
      open_store_over machine directory (Recoverable m) s bound (λ c up h.
        let (r, eq) =
          recover-opened (wal_path-ne directory) (Backed-IsSound k.durable k.good) c up h in
        (r, _, eq, k.map))

module _ (D : Type 0) ⦃d : Doubles D⦄ (machine : Machine) (config : WorkloadConfig)
    (directory : Bytes) where
  abbrev Restored : RecoveryBenchmarkResult D → Type 0
  Restored result = result.entries_restored ≡ config.operations + recovery_tail_operations config

  timed_recovery :
      (s : Bench)
      → config.operations ≤ 2 ^ 64
      → Recoverable machine config directory (written machine config directory) s
      → Ends machine
          (λ result _. Restored result)
          ((now machine >>= λ start.
              on_world (recover (wal_path directory) (snapshot_path directory)) >>= λ recovered.
              now machine >>= λ end.
              gets
                (λ t. recovery_result {D = D} directory start end recovered.0 recovered.1 t.world))
            s)
  unfolding Recoverable now on_world recovery_result size
  timed_recovery s room (r, w, eq, same) =
      subst
        (λ (o : Result (LoadResult × ℕ) × World).
          Ends machine (λ result _. Restored result)
            (continue o.0
              (λ recovered. now machine >>= λ end. gets (λ t.
                recovery_result {D = D} directory (machine.clock s.readings) end recovered.0
                  recovered.1 t.world))
              (record s { readings = s.readings + 1; world = o.1 })))
        (sym eq)
        (ap length same ∙ length-recovery_filled config (fixed_value config.value_size_bytes) room)

  recovery_workload-Restored :
      (s : Bench)
      → config.operations ≤ 2 ^ 64
      → s.world.disk.files (wal_path directory) ≡ none
      → s.world.disk.files (snapshot_path directory) ≡ none
      → Ends machine
          (λ (result : RecoveryBenchmarkResult D) _.
            result.entries_restored ≡ config.operations + recovery_tail_operations config)
          (recovery_workload machine config directory s)
  unfolding recovery_workload
  recovery_workload-Restored s room no_wal no_snapshot =
      let m = written machine config directory in
      Ends-continue machine (λ _ t. Kept directory m t) (λ result _. Restored result)
        (prepare_recovery machine.reserve directory config s) _
        (prepare_recovery-Kept machine config directory s no_wal no_snapshot)
        (λ _ t k.
          Ends-continue machine (λ _ u. Recoverable machine config directory m u)
            (λ result _. Restored result) (open_store directory t) _
            (reopened machine config directory m t k) (λ _ u goes. timed_recovery u room goes))

module _ (D : Type 0) ⦃d : Doubles D⦄ (machine : Machine) (config : WorkloadConfig)
    (s : Bench) where
  -- On any disk, with any clock and arithmetic, where a directory that is made has no log and no
  -- snapshot yet, for a number of operations of 64 bits: a recovery run that returns has restored an
  -- entry for each operation and for each of the tail. One that throws has met the path of temporary
  -- files that is not there, a directory that could not be made, a `reserve` without room, a log that
  -- could not be opened, or a `Set` or `SaveSnapshot` that threw: the recovery itself does not throw.
  pub run_recovery_benchmark-Ends :
      config.operations ≤ 2 ^ 64
      → ((stamp : ℕ) (base directory : Bytes)
          → machine.base ≡ ok base
          → temp_directory base machine.create (codes "recovery") stamp ≡ ok directory
          → (s.world.disk.files (wal_path directory) ≡ none)
            × (s.world.disk.files (snapshot_path directory) ≡ none))
      → Ends machine
          (λ (result : RecoveryBenchmarkResult D) _.
            result.entries_restored ≡ config.operations + recovery_tail_operations config)
          (run_recovery_benchmark machine config s)
  unfolding run_recovery_benchmark
  run_recovery_benchmark-Ends room empty =
      in_directory-Ends machine
        (λ (result : RecoveryBenchmarkResult D).
          result.entries_restored ≡ config.operations + recovery_tail_operations config)
        (codes "recovery") (recovery_workload machine config) s
        (λ directory t (same, stamp, base, there, made).
          let (no_wal, no_snapshot) = empty stamp base directory there made in
          recovery_workload-Restored D machine config directory t room
            (ap (λ (w : World). w.disk.files (wal_path directory)) same ∙ no_wal)
            (ap (λ (w : World). w.disk.files (snapshot_path directory)) same ∙ no_snapshot))
