-- ===== src/Tests/Benchmarks.antt =====
-- The theorems on the benchmarks, at a machine whose clock ticks and whose disk starts empty.
use agent_kv.Prelude.{
  refl, ◌+◌, ◌-◌, ◌*◌, ◌^◌, Bytes, codes, List, [], ◌∷◌, none, true, false, ◌≡◌, arith, leb,
  if◌then◌else◌,
}
use agent_kv.Exec.{ok, err}
use agent_kv.Bench.Decimal.{to_string}
use agent_kv.Bench.Options.{parse_operations}
use agent_kv.Bench.Options.Requested.{
  InRange, parse_operations-InRange, parse_operations-to_string, parse_operations-blank_minus,
}
use agent_kv.Bench.Doubles.{Hundredths, hundredths, Hundredths-IsMonotone}
use agent_kv.Bench.Utils.{compute_latency_stats}
use agent_kv.Bench.Utils.Percentiles.{Reported, compute_latency_stats-Reported}
use agent_kv.Bench.Workloads.{
  WorkloadConfig, RecoveryBenchmarkResult, recovery_tail_operations, Bench,
}
use agent_kv.Bench.Machine.{Machine}
use agent_kv.Bench.Runs.{run_mixed_benchmark, run_recovery_benchmark}
use agent_kv.Bench.Runs.Mixed.{Complete, run_mixed_benchmark-Ends}
use agent_kv.Bench.Runs.Recovered.{run_recovery_benchmark-Ends}
use agent_kv.Bench.Causes.{Ends}

abbrev program : Bytes
program = codes "./benchmark"

parse_operations-to_string_example : parse_operations (program ∷ to_string 500 ∷ []) ≡ ok 500
parse_operations-to_string_example =
    parse_operations-to_string 500 (omega arith) (omega arith) program

parse_operations-blank_minus_example :
    parse_operations (program ∷ (32 ∷ 45 ∷ to_string 5) ∷ []) ≡ ok (2 ^ 64 - 5)
parse_operations-blank_minus_example =
    parse_operations-blank_minus 5 (omega arith) (omega arith) program

parse_operations-InRange_example : InRange (parse_operations (program ∷ codes "12x" ∷ []))
parse_operations-InRange_example = parse_operations-InRange (program ∷ codes "12x" ∷ [])

abbrev latencies : List Hundredths
latencies = 300 ∷ 100 ∷ 200 ∷ []

compute_latency_stats-Reported_example :
    Reported Hundredths-IsMonotone latencies (compute_latency_stats latencies)
compute_latency_stats-Reported_example =
    compute_latency_stats-Reported Hundredths-IsMonotone 300 (100 ∷ 200 ∷ [])

abbrev config : WorkloadConfig
config = record {
  operations = 3;
  value_size_bytes = 2;
  mixed_keyspace_size = 2;
  mixed_read_percent = 70;
  random_seed = 1;
}

abbrev machine : Machine
machine = record {
  clock = λ n. n * 1000;
  generator = λ seed n. seed + n * 37;
  base = ok (codes "/tmp");
  reserve = λ elements count. if leb count 1000000 then ok tt else err (codes "vector::reserve");
  create = λ _. true;
  stays = λ _. false;
}

abbrev idle : Bench
idle = record {
  world = record {
    store = record { entries = []; wal = none; snapshot = none; writes_since_snapshot = 0 };
    disk = record { files = λ _. none; fates = [] };
  };
  readings = 0;
}

run_mixed_benchmark-Ends_example :
    Ends machine
      (λ result _. Complete Hundredths machine config result)
      (run_mixed_benchmark machine config idle)
run_mixed_benchmark-Ends_example = run_mixed_benchmark-Ends Hundredths machine config idle

run_recovery_benchmark-Ends_example :
    Ends machine
      (λ (result : RecoveryBenchmarkResult Hundredths) _.
        result.entries_restored ≡ 3 + recovery_tail_operations config)
      (run_recovery_benchmark machine config idle)
run_recovery_benchmark-Ends_example =
    run_recovery_benchmark-Ends Hundredths machine config idle (omega arith)
      (λ stamp base directory there made. (refl, refl))
