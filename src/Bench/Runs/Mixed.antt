-- ===== src/Bench/Runs/Mixed.antt =====
-- The mixed workload: its plan stays within the keys, so no read of it misses.
use agent_kv.Prelude.{
  sym, subst, refl, ℕ, ◌+◌, Bytes, codes, List, [], ◌∷◌, length, All, Option, none, some,
  none-ne-some, ◌≡◌, refl, sym, subst, arith, Bool-cases, inl, inr, if_true, if_false,
}
use agent_kv.Exec.{Exec, pure, ◌>>=◌, ◌>>◌}
use agent_kv.Map.{Map, lookup, insert}
use agent_kv.KvStore.{set, get}
use agent_kv.Bench.Utils.{latency_doubles, fixed_value}
use agent_kv.Bench.Doubles.{Doubles}
use agent_kv.Bench.Workloads.{
  WorkloadConfig, MixedBenchmarkResult, MixedOperation, indexed_keys, mixed_keyspace_size,
  mixed_plan, Bench, on_world, open_store, expect_hit, key_at, Tally,
}
use agent_kv.Bench.Workloads.Plan.{
  Within, mixed_keyspace_size-bounds, mixed_plan-Within, length-indexed_keys, key_at-All,
}
use agent_kv.Bench.Workloads.Filled.{filled, Present, Present-insert, filled-Present}
use agent_kv.Bench.Machine.{Machine, now}
use agent_kv.Bench.Runs.{
  timed_read, timed_write, timed_operation, mixed_loop, no_tally, mixed_result,
  build_operation_result, mixed_workload, run_mixed_benchmark,
}
use agent_kv.Bench.Causes.{
  make_fixed_value-Ends, make_keys-Ends, build_mixed_plan-Ends, reserve-Ends, Ends, Ends-continue,
  set-Ends, in_directory-Ends, open_store-Ends, preload_store-Ends,
}

All-Present :
    (m m' : Map) (keys : List Bytes)
    → ((key : Bytes) → Present m key → Present m' key)
    → All (Present m) keys
    → All (Present m') keys
All-Present m m' [] keep _ = tt
All-Present m m' (k ∷ ks) keep (here, all) = (keep k here, All-Present m m' ks keep all)

hit :
    (machine : Machine) (message : Bytes) {B : Type 0} (P : B → Bench → Type 0)
    (found : Option Bytes) (s : Bench) (next : Exec Bench B)
    → ((v : Bytes) × (found ≡ some v))
    → Ends machine P (next s)
    → Ends machine P ((expect_hit message found >> next) s)
unfolding expect_hit
hit machine message P none s next (v, e) goes = absurd (none-ne-some e)
hit machine message P (some w) s next found goes = goes

module _ {D : Type 0} ⦃d : Doubles D⦄ (machine : Machine) (keys : List Bytes) (value : Bytes) where
  -- The operations counted so far, and the keys are still there.
  abbrev Counted : ℕ → Tally D → Bench → Type 0
  Counted n tally s =
      (tally.read_operations + tally.write_operations ≡ n)
      × All (Present s.world.store.entries) keys

  timed_read-Ends :
      (n : ℕ) (key : Bytes) (tally : Tally D) (s : Bench)
      → Present s.world.store.entries key
      → Counted n tally s
      → Ends machine (Counted (n + 1)) (timed_read machine key tally s)
  unfolding timed_read now get
  timed_read-Ends n key tally s there (count, all) =
      hit machine (codes "mixed benchmark expected read hit") (Counted (n + 1))
        (lookup key s.world.store.entries) (record s { readings = s.readings + 1 + 1 }) _ there
        (omega (arith, count), all)

  timed_write-Ends :
      (n : ℕ) (key : Bytes) (tally : Tally D) (s : Bench)
      → Counted n tally s
      → Ends machine (Counted (n + 1)) (timed_write machine key value tally s)
  unfolding timed_write now
  timed_write-Ends n key tally s (count, all) =
      let t : Bench = record s { readings = s.readings + 1 } in
      Ends-continue machine (λ _ u. u.world.store.entries ≡ insert key value s.world.store.entries)
        (Counted (n + 1)) (on_world (set key value) t) _ (set-Ends machine key value t)
        (λ _ u grown. (
          omega (arith, count),
          subst (λ m. All (Present m) keys) (sym grown)
              (All-Present _ _ keys (λ k h. Present-insert key value k s.world.store.entries h)
                all),
        ))

  timed_operation-Ends :
      (n : ℕ) (operation : MixedOperation) (tally : Tally D) (s : Bench)
      → Within (length keys) operation
      → Counted n tally s
      → Ends machine (Counted (n + 1)) (timed_operation machine keys value operation tally s)
  unfolding timed_operation
  timed_operation-Ends n operation tally s inside (count, all) =
      elim (Bool-cases operation.is_read) [
        | inl reads ↦
            subst (λ (m : Exec Bench (Tally D)). Ends machine (Counted (n + 1)) (m s))
              (sym (if_true _ _ _ reads))
              (timed_read-Ends n (key_at keys operation.key_index) tally s
                (key_at-All (Present s.world.store.entries) keys operation.key_index all inside)
                (count, all))
        | inr writes ↦
            subst (λ (m : Exec Bench (Tally D)). Ends machine (Counted (n + 1)) (m s))
              (sym (if_false _ _ _ writes))
              (timed_write-Ends n (key_at keys operation.key_index) tally s (count, all))
      ]

  mixed_loop-Ends :
      (plan : List MixedOperation) (n : ℕ) (tally : Tally D) (s : Bench)
      → All (Within (length keys)) plan
      → Counted n tally s
      → Ends machine (Counted (n + length plan)) (mixed_loop machine keys value plan tally s)
  unfolding mixed_loop
  mixed_loop-Ends [] n tally s inside (count, all) = (omega (arith, count), all)
  mixed_loop-Ends (operation ∷ plan) n tally s (here, inside) counted =
      Ends-continue machine (Counted (n + 1)) (Counted (n + length (operation ∷ plan)))
        (timed_operation machine keys value operation tally s) (mixed_loop machine keys value plan)
        (timed_operation-Ends n operation tally s here counted)
        (λ tally' t counted'.
          let next = mixed_loop-Ends plan (n + 1) tally' t inside counted' in
          subst (λ k. Ends machine (Counted k) (mixed_loop machine keys value plan tally' t))
            (omega arith) next)

module _ (D : Type 0) ⦃d : Doubles D⦄ (machine : Machine) (config : WorkloadConfig) where
  -- The reads and writes of a result are the operations asked for.
  abbrev pub Complete : MixedBenchmarkResult D → Type 0
  Complete result =
      (result.read_operations + result.write_operations ≡ config.operations)
      × (result.overall.operations ≡ config.operations)

  mixed_workload-Ends :
      (directory : Bytes) (t : Bench)
      → Ends machine (λ result _. Complete result) (mixed_workload machine config directory t)
  unfolding mixed_workload no_tally mixed_result build_operation_result now
  mixed_workload-Ends directory t =
      let size = mixed_keyspace_size config in
      let keys = indexed_keys (codes "mixed_key") size in
      let value = fixed_value config.value_size_bytes in
      let (planned, within) =
        mixed_plan-Within machine.generator config size (mixed_keyspace_size-bounds config).0 in
      let inside : All (Within (length keys)) (mixed_plan machine.generator config size) =
        subst (λ n. All (Within n) (mixed_plan machine.generator config size))
          (sym (length-indexed_keys (codes "mixed_key") size)) within in
      let Ended : MixedBenchmarkResult D → Bench → Type 0 = λ result _. Complete result in
      Ends-continue machine (λ _ u. u.world.store.entries ≡ []) Ended (open_store directory t) _
        (open_store-Ends machine directory t)
        (λ _ u empty. make_keys-Ends machine Ended (codes "mixed_key") size _ u (
          make_fixed_value-Ends machine Ended config.value_size_bytes _ u (
            Ends-continue machine (λ _ v. v.world.store.entries ≡ filled keys value []) Ended _ _
              (preload_store-Ends machine keys value [] u empty)
              (λ _ v l. build_mixed_plan-Ends machine Ended config size _ v (
                reserve-Ends machine Ended latency_doubles config.operations _ v (
                  reserve-Ends machine Ended latency_doubles config.operations _ v (
                    reserve-Ends machine Ended latency_doubles config.operations _ v (
                      Ends-continue machine
                        (Counted {D = D} machine keys value
                          (0 + length (mixed_plan machine.generator config size)))
                        Ended _
                        (λ tally. now machine >>= λ end.
                          pure (mixed_result config (machine.clock v.readings) end tally))
                        (mixed_loop-Ends {D = D} machine keys value
                          (mixed_plan machine.generator config size) 0 no_tally
                          (record v { readings = v.readings + 1 }) inside
                          (
                            refl,
                            subst (λ m. All (Present m) keys) (sym l)
                                (filled-Present keys value []),
                          ))
                        (λ tally w counted. (omega (arith, counted.0, planned), refl))))))))))

  -- On any disk, with any clock, generator and arithmetic: a mixed run that returns reports as many
  -- reads and writes together as operations were asked for. One that throws has met the path of
  -- temporary files that is not there, a directory that could not be made, a `reserve` without room, a
  -- log that could not be opened or a `Set` or `SaveSnapshot` that threw: no read misses its key.
  pub run_mixed_benchmark-Ends :
      (s : Bench)
      → Ends machine (λ result _. Complete result) (run_mixed_benchmark machine config s)
  unfolding run_mixed_benchmark
  run_mixed_benchmark-Ends s =
      in_directory-Ends machine Complete (codes "mixed") (mixed_workload machine config) s
        (λ directory t _. mixed_workload-Ends directory t)
