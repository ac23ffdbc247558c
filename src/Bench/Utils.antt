-- ===== src/Bench/Utils.antt =====
-- bench/benchmark_utils.cpp: the statistics of a run, its keys and values, and its directory.
pub mod Percentiles
use mathlib.Core.List.{foldl}
use agent_kv.Prelude.{
  ℕ, zero, suc, ◌+◌, ◌-◌, ◌*◌, ◌%◌, ◌≤◌, Bytes, codes, List, [], ◌∷◌, ◌++◌, length, Option, none,
  some, Bool, true, false, ltb, leb, ◌==◌, ◌&&◌, not, if◌then◌else◌,
}
use agent_kv.Exec.{Result, ok, err, Exec, pure, lift, ◌>>=◌, ◌>>◌}
use agent_kv.Disk.{Disk}
use agent_kv.Bench.Decimal.{to_string}
use agent_kv.Bench.Doubles.{Doubles}

-- `std::min`
abbrev min_index : ℕ → ℕ → ℕ
min_index a b = if ltb b a then b else a

module _ {D : Type 0} ⦃d : Doubles D⦄ where
  -- `std::sort`, of numbers.
  insert_sorted : D → List D → List D
  insert_sorted x [] = x ∷ []
  insert_sorted x (y ∷ ys) = if d.lt x y then x ∷ y ∷ ys else y ∷ insert_sorted x ys

  sort : List D → List D
  sort [] = []
  sort (x ∷ xs) = insert_sorted x (sort xs)

  -- `values[index]`; past the end nothing is promised, and the model gives 0.
  value_at : List D → ℕ → D
  value_at [] i = d.of_number 0
  value_at (x ∷ xs) zero = x
  value_at (x ∷ xs) (suc i) = value_at xs i

  -- `std::max(1.0, rank)`
  abbrev at_least_one : D → D
  at_least_one rank = if d.lt (d.of_number 1) rank then rank else d.of_number 1

  -- The index of a percentile of `size` values, before it is limited.
  rank_index : ℕ → D → ℕ
  rank_index size percentile =
      d.cast (at_least_one (d.ceil (d.mul (d.div percentile (d.of_number 100)) (d.of_number size))))
      - 1

  -- `PercentileNearestRank`
  percentile_nearest_rank : List D → D → D
  unfolding rank_index
  percentile_nearest_rank [] percentile = d.of_number 0
  percentile_nearest_rank (x ∷ xs) percentile =
      let sorted = sort (x ∷ xs) in
      value_at sorted (min_index (rank_index (length sorted) percentile) (length sorted - 1))

-- `LatencyStats`
pub record LatencyStats (D : Type 0) : Type 0 where
  pub average_us : D
  pub p50_us : D
  pub p95_us : D
  pub p99_us : D

module _ {D : Type 0} ⦃d : Doubles D⦄ where
  pub compute_latency_stats : List D → LatencyStats D
  compute_latency_stats [] = record {
    average_us = d.of_number 0;
    p50_us = d.of_number 0;
    p95_us = d.of_number 0;
    p99_us = d.of_number 0;
  }
  compute_latency_stats (x ∷ xs) =
      let latencies = x ∷ xs in
      record {
        average_us = d.div (foldl d.add (d.of_number 0) latencies) (d.of_number (length latencies));
        p50_us = percentile_nearest_rank latencies (d.of_number 50);
        p95_us = percentile_nearest_rank latencies (d.of_number 95);
        p99_us = percentile_nearest_rank latencies (d.of_number 99);
      }

  pub throughput_ops_per_second : ℕ → D → D
  throughput_ops_per_second operations elapsed =
      if d.lt (d.of_number 0) elapsed then d.div (d.of_number operations) elapsed else d.of_number 0

  -- The clock counts nanoseconds and never goes back.
  pub elapsed_seconds : ℕ → ℕ → D
  elapsed_seconds start end = d.div (d.of_number (end - start)) (d.of_number 1000000000)

  pub elapsed_milliseconds : ℕ → ℕ → D
  elapsed_milliseconds start end = d.div (d.of_number (end - start)) (d.of_number 1000000)

  pub elapsed_microseconds : ℕ → ℕ → D
  elapsed_microseconds start end = d.div (d.of_number (end - start)) (d.of_number 1000)

unfoldable pub make_indexed_key : Bytes → ℕ → Bytes
make_indexed_key prefix index = prefix ++ (codes "_" ++ to_string index)

-- The loop, with `i` letters made already.
value_from : ℕ → ℕ → Bytes
value_from zero i = []
value_from (suc n) i = (b'a' + i % 26) ∷ value_from n (i + 1)

pub fixed_value : ℕ → Bytes
unfolding value_from
fixed_value size_bytes = value_from size_bytes 0

-- What a container holds, which bounds how many of them it can have.
pub data Elements : Type 0 where
  value_bytes key_strings plan_steps latency_doubles : Elements

-- `reserve(count)`, which throws for more than a container can have.
abbrev pub Reserve : Type 0
Reserve = Elements → ℕ → Result (Unit {0})

unfoldable pub make_fixed_value : {S : Type 0} → Reserve → ℕ → Exec S Bytes
make_fixed_value reserve size_bytes = do
  lift (reserve value_bytes size_bytes)
  pure (fixed_value size_bytes)

-- `FilePath`, of a directory whose name ends in a digit.
unfoldable pub file_path : Bytes → Bytes → Bytes
file_path directory filename = directory ++ (codes "/" ++ filename)

pub file_size_or_zero : Option Bytes → ℕ
file_size_or_zero none = 0
file_size_or_zero (some bytes) = length bytes

-- The directory for temporary files, and whether `create_directory` makes a directory of a name.
module _ (base : Bytes) (create : Bytes → Bool) where
  candidate : Bytes → ℕ → ℕ → Bytes
  candidate label stamp attempt = file_path base (
      codes "kv_store_bench_"
      ++ (label ++ (codes "_" ++ (to_string stamp ++ (codes "_" ++ to_string attempt)))))

  -- The loop, with `remaining` attempts to go.
  attempt_from : ℕ → ℕ → Bytes → ℕ → Result Bytes
  attempt_from zero attempt label stamp =
      err (codes "failed to create temporary benchmark directory")
  attempt_from (suc remaining) attempt label stamp =
      let rest = attempt_from remaining (attempt + 1) label stamp in
      if create (candidate label stamp attempt) then ok (candidate label stamp attempt) else rest

  -- The constructor of `TempDirectory`.
  pub temp_directory : Bytes → ℕ → Result Bytes
  unfolding attempt_from
  temp_directory label stamp = attempt_from 100 0 label stamp

starts_with : Bytes → Bytes → Bool
starts_with [] p = true
starts_with (c ∷ cs) [] = false
starts_with (c ∷ cs) (b ∷ bs) = if c == b then starts_with cs bs else false

-- `std::filesystem::remove_all` of a directory, which may fail on some of its files.
pub remove_all : (Bytes → Bool) → Bytes → Disk → Disk
unfolding starts_with
remove_all stays directory d = record d {
  files = λ p. if starts_with (file_path directory []) p && not (stays p) then none else d.files p;
}
