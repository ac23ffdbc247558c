-- ===== src/Bench/Runs.antt =====
-- bench/workloads.cpp: the runs. The arithmetic of `double` is a parameter, and the machine another.
pub mod Mixed
pub mod Records
pub mod Recovered
use agent_kv.Prelude.{
  ℕ, zero, suc, ◌+◌, Bytes, codes, List, [], ◌∷◌, ◌++◌, Option, Bool, true, false, if◌then◌else◌,
}
use agent_kv.Exec.{Result, ok, err, Exec, pure, throw, lift, gets, ◌>>=◌, ◌>>◌}
use agent_kv.Disk.{Disk}
use agent_kv.Snapshot.{LoadResult}
use agent_kv.KvStore
use agent_kv.KvStore.{World, set, get, save_snapshot, recover}
use agent_kv.Bench.Doubles.{Doubles}
use agent_kv.Bench.Machine.{Machine, now, enter_directory, without_directory, in_directory}
use agent_kv.Bench.Utils.{
  LatencyStats, compute_latency_stats, throughput_ops_per_second, elapsed_seconds,
  elapsed_milliseconds, elapsed_microseconds, latency_doubles, make_fixed_value, file_size_or_zero,
  temp_directory, remove_all,
}
use agent_kv.Bench.Workloads.{
  WorkloadConfig, OperationBenchmarkResult, MixedBenchmarkResult, RecoveryBenchmarkResult,
  SnapshotBenchmarkResult, MixedOperation, make_keys, mixed_keyspace_size, recovery_tail_operations,
  build_mixed_plan, wal_path, snapshot_path, Bench, on_world, open_store, preload_store,
  prepare_recovery, expect_hit, key_at, Tally,
}

module _ {D : Type 0} ⦃d : Doubles D⦄ where
  build_operation_result : ℕ → D → List D → OperationBenchmarkResult D
  build_operation_result operations elapsed latencies = record {
    operations = operations;
    elapsed_sec = elapsed;
    throughput_ops_sec = throughput_ops_per_second operations elapsed;
    latency = compute_latency_stats latencies;
  }

  no_tally : Tally D
  no_tally = record {
    overall_latencies = [];
    read_latencies = [];
    write_latencies = [];
    read_operations = 0;
    write_operations = 0;
  }

  mixed_result : WorkloadConfig → ℕ → ℕ → Tally D → MixedBenchmarkResult D
  unfolding build_operation_result
  mixed_result config start end tally = record {
    overall =
        build_operation_result config.operations (elapsed_seconds start end)
          tally.overall_latencies;
    read_operations = tally.read_operations;
    write_operations = tally.write_operations;
    read_latency = compute_latency_stats tally.read_latencies;
    write_latency = compute_latency_stats tally.write_latencies;
  }

  recovery_result : Bytes → ℕ → ℕ → LoadResult → ℕ → World → RecoveryBenchmarkResult D
  recovery_result directory start end snapshot_result wal_operations w = record {
    recovery_time_ms = elapsed_milliseconds start end;
    entries_restored = KvStore.size w;
    snapshot_entries = snapshot_result.entry_count;
    wal_operations_replayed = wal_operations;
    snapshot_loaded = snapshot_result.loaded;
    snapshot_wal_offset = snapshot_result.wal_offset;
    snapshot_file_bytes = file_size_or_zero (w.disk.files (snapshot_path directory));
    wal_file_bytes = file_size_or_zero (w.disk.files (wal_path directory));
  }

  snapshot_result : Bytes → ℕ → ℕ → Bool → World → SnapshotBenchmarkResult D
  snapshot_result directory start end written w = record {
    snapshot_time_ms = elapsed_milliseconds start end;
    records = KvStore.size w;
    snapshot_written = written;
    snapshot_file_bytes = file_size_or_zero (w.disk.files (snapshot_path directory));
    wal_file_bytes = file_size_or_zero (w.disk.files (wal_path directory));
  }

module _ {D : Type 0} ⦃d : Doubles D⦄ (machine : Machine) where
  timed_writes : List Bytes → Bytes → List D → Exec Bench (List D)
  unfolding now
  timed_writes [] value latencies = pure latencies
  timed_writes (key ∷ keys) value latencies = do
    start ← now machine
    on_world (set key value)
    end ← now machine
    timed_writes keys value (latencies ++ (elapsed_microseconds start end ∷ []))

  timed_reads : List Bytes → List D → Exec Bench (List D)
  unfolding now
  timed_reads [] latencies = pure latencies
  timed_reads (key ∷ keys) latencies = do
    start ← now machine
    result ← gets (λ s. get key s.world)
    end ← now machine
    expect_hit (codes "read benchmark expected preloaded key") result
    timed_reads keys (latencies ++ (elapsed_microseconds start end ∷ []))

  timed_read : Bytes → Tally D → Exec Bench (Tally D)
  unfolding now
  timed_read key tally = do
    start ← now machine
    result ← gets (λ s. get key s.world)
    end ← now machine
    expect_hit (codes "mixed benchmark expected read hit") result
    let latency : D = elapsed_microseconds start end
    pure (record tally {
      overall_latencies = tally.overall_latencies ++ (latency ∷ []);
      read_latencies = tally.read_latencies ++ (latency ∷ []);
      read_operations = tally.read_operations + 1;
    })

  timed_write : Bytes → Bytes → Tally D → Exec Bench (Tally D)
  unfolding now
  timed_write key value tally = do
    start ← now machine
    on_world (set key value)
    end ← now machine
    let latency : D = elapsed_microseconds start end
    pure (record tally {
      overall_latencies = tally.overall_latencies ++ (latency ∷ []);
      write_latencies = tally.write_latencies ++ (latency ∷ []);
      write_operations = tally.write_operations + 1;
    })

  timed_operation : List Bytes → Bytes → MixedOperation → Tally D → Exec Bench (Tally D)
  unfolding timed_read timed_write
  timed_operation keys value operation tally =
      let key = key_at keys operation.key_index in
      if operation.is_read then timed_read key tally else timed_write key value tally

  mixed_loop : List Bytes → Bytes → List MixedOperation → Tally D → Exec Bench (Tally D)
  unfolding timed_operation
  mixed_loop keys value [] tally = pure tally
  mixed_loop keys value (operation ∷ plan) tally = do
    tally' ← timed_operation keys value operation tally
    mixed_loop keys value plan tally'

  write_workload : WorkloadConfig → Bytes → Exec Bench (OperationBenchmarkResult D)
  unfolding now timed_writes build_operation_result
  write_workload config directory = do
    open_store directory
    keys ← make_keys machine.reserve (codes "key") config.operations
    value ← make_fixed_value machine.reserve config.value_size_bytes
    lift (machine.reserve latency_doubles config.operations)
    start ← now machine
    latencies ← timed_writes keys value []
    end ← now machine
    pure (build_operation_result config.operations (elapsed_seconds start end) latencies)

  pub run_write_benchmark : WorkloadConfig → Exec Bench (OperationBenchmarkResult D)
  unfolding write_workload
  run_write_benchmark config = in_directory machine (codes "write") (write_workload config)

  read_workload : WorkloadConfig → Bytes → Exec Bench (OperationBenchmarkResult D)
  unfolding now timed_reads build_operation_result
  read_workload config directory = do
    open_store directory
    keys ← make_keys machine.reserve (codes "key") config.operations
    value ← make_fixed_value machine.reserve config.value_size_bytes
    preload_store keys value
    lift (machine.reserve latency_doubles config.operations)
    start ← now machine
    latencies ← timed_reads keys []
    end ← now machine
    pure (build_operation_result config.operations (elapsed_seconds start end) latencies)

  pub run_read_benchmark : WorkloadConfig → Exec Bench (OperationBenchmarkResult D)
  unfolding read_workload
  run_read_benchmark config = in_directory machine (codes "read") (read_workload config)

  mixed_workload : WorkloadConfig → Bytes → Exec Bench (MixedBenchmarkResult D)
  unfolding now mixed_loop no_tally mixed_result
  mixed_workload config directory = do
    open_store directory
    let keyspace_size = mixed_keyspace_size config
    keys ← make_keys machine.reserve (codes "mixed_key") keyspace_size
    value ← make_fixed_value machine.reserve config.value_size_bytes
    preload_store keys value
    plan ← build_mixed_plan machine.reserve machine.generator config keyspace_size
    lift (machine.reserve latency_doubles config.operations)
    lift (machine.reserve latency_doubles config.operations)
    lift (machine.reserve latency_doubles config.operations)
    start ← now machine
    tally ← mixed_loop keys value plan no_tally
    end ← now machine
    pure (mixed_result config start end tally)

  pub run_mixed_benchmark : WorkloadConfig → Exec Bench (MixedBenchmarkResult D)
  unfolding mixed_workload
  run_mixed_benchmark config = in_directory machine (codes "mixed") (mixed_workload config)

  recovery_workload : WorkloadConfig → Bytes → Exec Bench (RecoveryBenchmarkResult D)
  unfolding now recovery_result
  recovery_workload config directory = do
    prepare_recovery machine.reserve directory config
    open_store directory
    start ← now machine
    recovered ← on_world (recover (wal_path directory) (snapshot_path directory))
    end ← now machine
    gets (λ s. recovery_result directory start end recovered.0 recovered.1 s.world)

  pub run_recovery_benchmark : WorkloadConfig → Exec Bench (RecoveryBenchmarkResult D)
  unfolding recovery_workload
  run_recovery_benchmark config = in_directory machine (codes "recovery") (recovery_workload config)

  snapshot_workload : WorkloadConfig → Bytes → Exec Bench (SnapshotBenchmarkResult D)
  unfolding now snapshot_result
  snapshot_workload config directory = do
    open_store directory
    keys ← make_keys machine.reserve (codes "snapshot_key") config.operations
    value ← make_fixed_value machine.reserve config.value_size_bytes
    preload_store keys value
    start ← now machine
    written ← on_world save_snapshot
    end ← now machine
    gets (λ s. snapshot_result directory start end written s.world)

  pub run_snapshot_benchmark : WorkloadConfig → Exec Bench (SnapshotBenchmarkResult D)
  unfolding snapshot_workload
  run_snapshot_benchmark config = in_directory machine (codes "snapshot") (snapshot_workload config)
