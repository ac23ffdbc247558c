-- ===== src/Bench/Report.antt =====
-- bench/benchmark.cpp: what the benchmark prints, and its `main`. How a `double` is printed with a
-- fixed number of digits is a parameter.
use agent_kv.Prelude.{ℕ, ◌-◌, ◌%◌, ◌+◌, ◌^◌, Bytes, codes, List, [], ◌++◌, Bool, leb, if◌then◌else◌}
use agent_kv.Exec.{Result, ok, err, Exec, lift, ◌>>=◌, ◌>>◌}
use agent_kv.Bench.Decimal.{to_string}
use agent_kv.Bench.Doubles.{Doubles}
use agent_kv.Bench.Options.{parse_operations}
use agent_kv.Bench.Utils.{LatencyStats}
use agent_kv.Bench.Workloads.{
  WorkloadConfig, OperationBenchmarkResult, MixedBenchmarkResult, RecoveryBenchmarkResult,
  SnapshotBenchmarkResult, recovery_path_description, min_size, Bench,
}
use agent_kv.Bench.Machine.{Machine}
use agent_kv.Bench.Runs.{
  run_write_benchmark, run_read_benchmark, run_mixed_benchmark, run_recovery_benchmark,
  run_snapshot_benchmark,
}

-- A line with a name and a value.
line : Bytes → Bytes → Bytes
line name value = name ++ (codes ": " ++ (value ++ codes "\n"))

count : Bytes → ℕ → Bytes
unfolding line
count name n = line name (to_string n)

flag : Bytes → Bool → Bytes
unfolding line
flag name b = line name (if b then codes "true" else codes "false")

-- `PrintConfig`
print_config : WorkloadConfig → Bytes
unfolding count line
print_config config =
    codes "[BENCHMARK CONFIG]\n"
    ++ (count (codes "operations") config.operations
        ++ (count (codes "value_size_bytes") config.value_size_bytes
            ++ (count (codes "mixed_read_percent") config.mixed_read_percent
                ++ (count (codes "mixed_write_percent")
                      ((100 + (2 ^ 32 - config.mixed_read_percent)) % 2 ^ 32)
                    ++ (count (codes "mixed_keyspace_size")
                          (min_size config.operations config.mixed_keyspace_size)
                        ++ (count (codes "random_seed") config.random_seed
                            ++ line (codes "persistence") (codes "wal+snapshot")))))))

module _ {D : Type 0} ⦃d : Doubles D⦄ (fixed : ℕ → D → Bytes) where
  real : Bytes → ℕ → D → Bytes
  unfolding line
  real name digits x = line name (fixed digits x)

  scaled : ℕ → ℕ → Bytes → Bytes
  scaled bytes unit name = fixed 2 (d.div (d.of_number bytes) (d.of_number unit)) ++ name

  -- `FormatBytes`
  format_bytes : ℕ → Bytes
  unfolding scaled
  format_bytes bytes =
      if leb 1073741824 bytes
      then scaled bytes 1073741824 (codes " GiB")
      else if leb 1048576 bytes
      then scaled bytes 1048576 (codes " MiB")
      else if leb 1024 bytes
      then scaled bytes 1024 (codes " KiB")
      else to_string bytes ++ codes " B"

  -- `PrintLatencyStats`, and the two blocks of `PrintMixedBenchmark` that name their operations.
  print_latency : Bytes → LatencyStats D → Bytes
  unfolding real
  print_latency prefix stats =
      real (prefix ++ codes "avg_latency_us") 2 stats.average_us
      ++ (real (prefix ++ codes "p50_latency_us") 2 stats.p50_us
          ++ (real (prefix ++ codes "p95_latency_us") 2 stats.p95_us
              ++ real (prefix ++ codes "p99_latency_us") 2 stats.p99_us))

  print_operation_benchmark : Bytes → OperationBenchmarkResult D → Bytes
  unfolding count real print_latency
  print_operation_benchmark title result =
      (codes "\n[" ++ (title ++ codes "]\n"))
      ++ (count (codes "operations") result.operations
          ++ (real (codes "elapsed_sec") 6 result.elapsed_sec
              ++ (real (codes "throughput_ops_sec") 2 result.throughput_ops_sec
                  ++ print_latency [] result.latency)))

  print_mixed_benchmark : MixedBenchmarkResult D → Bytes
  unfolding print_operation_benchmark count print_latency
  print_mixed_benchmark result =
      print_operation_benchmark (codes "MIXED BENCHMARK") result.overall
      ++ (count (codes "read_operations") result.read_operations
          ++ (count (codes "write_operations") result.write_operations
              ++ (print_latency (codes "read_") result.read_latency
                  ++ print_latency (codes "write_") result.write_latency)))

  -- The sizes of the two files, as numbers and for a reader.
  print_files : ℕ → ℕ → Bytes
  unfolding count line format_bytes
  print_files snapshot wal =
      count (codes "snapshot_file_bytes") snapshot
      ++ (line (codes "snapshot_file_human") (format_bytes snapshot)
          ++ (count (codes "wal_file_bytes") wal
              ++ line (codes "wal_file_human") (format_bytes wal)))

  print_recovery_benchmark : RecoveryBenchmarkResult D → Bytes
  unfolding real count line flag print_files
  print_recovery_benchmark result =
      codes "\n[RECOVERY BENCHMARK]\n"
      ++ (real (codes "recovery_time_ms") 2 result.recovery_time_ms
          ++ (count (codes "entries_restored") result.entries_restored
              ++ (line (codes "recovery_path") (recovery_path_description result)
                  ++ (flag (codes "snapshot_loaded") result.snapshot_loaded
                      ++ (count (codes "snapshot_entries") result.snapshot_entries
                          ++ (count (codes "wal_operations_replayed") result.wal_operations_replayed
                              ++ (count (codes "snapshot_wal_offset") result.snapshot_wal_offset
                                  ++ print_files result.snapshot_file_bytes
                                      result.wal_file_bytes)))))))

  print_snapshot_benchmark : SnapshotBenchmarkResult D → Bytes
  unfolding real count flag print_files
  print_snapshot_benchmark result =
      codes "\n[SNAPSHOT BENCHMARK]\n"
      ++ (real (codes "snapshot_time_ms") 2 result.snapshot_time_ms
          ++ (count (codes "records") result.records
              ++ (flag (codes "snapshot_written") result.snapshot_written
                  ++ print_files result.snapshot_file_bytes result.wal_file_bytes)))

-- The run's state and its two output streams.
pub record Console : Type 0 where
  pub bench : Bench
  pub output : Bytes
  pub errors : Bytes

print : Bytes → Exec Console (Unit {0})
print text s = (ok tt, record s { output = s.output ++ text })

on_bench : {A : Type 0} → Exec Bench A → Exec Console A
on_bench m s = let (r, b) = m s.bench in (r, record s { bench = b })

-- The configuration of `main`, with the number of operations asked for.
abbrev pub configured : ℕ → WorkloadConfig
configured n = record {
  operations = n;
  value_size_bytes = 128;
  mixed_keyspace_size = 10000;
  mixed_read_percent = 70;
  random_seed = 12345;
}

-- The end of `main`: the exit status, with the message of an exception.
finished : Result (Unit {0}) × Console → ℕ × Console
finished (ok u, s) = (0, s)
finished (err message, s) =
    (1, record s { errors = s.errors ++ (codes "benchmark failed: " ++ (message ++ codes "\n")) })

module _ {D : Type 0} ⦃d : Doubles D⦄ (fixed : ℕ → D → Bytes) (machine : Machine) where
  run_benchmarks : WorkloadConfig → Exec Console (Unit {0})
  unfolding print on_bench
  run_benchmarks config = do
    print (print_config config)
    written ← on_bench (run_write_benchmark machine config)
    print (print_operation_benchmark fixed (codes "WRITE BENCHMARK") written)
    found ← on_bench (run_read_benchmark machine config)
    print (print_operation_benchmark fixed (codes "READ BENCHMARK") found)
    mixed ← on_bench (run_mixed_benchmark machine config)
    print (print_mixed_benchmark fixed mixed)
    recovered ← on_bench (run_recovery_benchmark machine config)
    print (print_recovery_benchmark fixed recovered)
    saved ← on_bench (run_snapshot_benchmark machine config)
    print (print_snapshot_benchmark fixed saved)

  body : List Bytes → Exec Console (Unit {0})
  unfolding run_benchmarks
  body arguments = do
    operations ← lift (parse_operations arguments)
    run_benchmarks (configured operations)

  -- `main`
  pub benchmark_main : List Bytes → Console → ℕ × Console
  unfolding finished body
  benchmark_main arguments s = finished (body arguments s)
