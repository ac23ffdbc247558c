-- ===== src/Bench/Workloads.antt =====
-- bench/workloads.cpp: the five workloads over the store, and how they are made.
pub mod Plan
pub mod Keys
pub mod Paths
pub mod Filled
use agent_kv.Prelude.{
  ℕ, zero, suc, ◌+◌, ◌-◌, ◌/◌, ◌%◌, ◌≤◌, Bytes, codes, List, [], ◌∷◌, ◌++◌, length, Option, none,
  some, Bool, true, false, ◌&&◌, ltb, if◌then◌else◌,
}
use agent_kv.Exec.{Result, ok, err, Exec, pure, throw, lift, gets, ◌>>=◌, ◌>>◌}
use agent_kv.Disk.{Disk, OutStream}
use agent_kv.Wal
use agent_kv.Snapshot.{LoadResult}
use agent_kv.KvStore
use agent_kv.KvStore.{World, fresh_store, set, get, save_snapshot, recover}
use agent_kv.Bench.Doubles.{Doubles}
use agent_kv.Bench.Utils.{
  LatencyStats, compute_latency_stats, throughput_ops_per_second, elapsed_seconds,
  elapsed_milliseconds, elapsed_microseconds, make_indexed_key, Reserve, key_strings, plan_steps,
  make_fixed_value, file_path, file_size_or_zero, temp_directory,
}

pub record WorkloadConfig : Type 0 where
  pub operations : ℕ
  pub value_size_bytes : ℕ
  pub mixed_keyspace_size : ℕ
  pub mixed_read_percent : ℕ
  pub random_seed : ℕ

pub record OperationBenchmarkResult (D : Type 0) : Type 0 where
  pub operations : ℕ
  pub elapsed_sec : D
  pub throughput_ops_sec : D
  pub latency : LatencyStats D

pub record MixedBenchmarkResult (D : Type 0) : Type 0 where
  pub overall : OperationBenchmarkResult D
  pub read_operations : ℕ
  pub write_operations : ℕ
  pub read_latency : LatencyStats D
  pub write_latency : LatencyStats D

pub record RecoveryBenchmarkResult (D : Type 0) : Type 0 where
  pub recovery_time_ms : D
  pub entries_restored : ℕ
  pub snapshot_entries : ℕ
  pub wal_operations_replayed : ℕ
  pub snapshot_loaded : Bool
  pub snapshot_wal_offset : ℕ
  pub snapshot_file_bytes : ℕ
  pub wal_file_bytes : ℕ

pub record SnapshotBenchmarkResult (D : Type 0) : Type 0 where
  pub snapshot_time_ms : D
  pub records : ℕ
  pub snapshot_written : Bool
  pub snapshot_file_bytes : ℕ
  pub wal_file_bytes : ℕ

pub record MixedOperation : Type 0 where
  pub is_read : Bool
  pub key_index : ℕ

-- The keys from number `i` on.
keys_from : Bytes → ℕ → ℕ → List Bytes
keys_from prefix zero i = []
keys_from prefix (suc n) i = make_indexed_key prefix i ∷ keys_from prefix n (i + 1)

pub indexed_keys : Bytes → ℕ → List Bytes
unfolding keys_from
indexed_keys prefix count = keys_from prefix count 0

unfoldable pub make_keys : {S : Type 0} → Reserve → Bytes → ℕ → Exec S (List Bytes)
make_keys reserve prefix count = do
  lift (reserve key_strings count)
  pure (indexed_keys prefix count)

-- `std::max` and `std::min` of sizes.
abbrev max_size : ℕ → ℕ → ℕ
max_size a b = if ltb a b then b else a

abbrev pub min_size : ℕ → ℕ → ℕ
min_size a b = if ltb b a then b else a

pub mixed_keyspace_size : WorkloadConfig → ℕ
mixed_keyspace_size config = max_size 1 (min_size config.operations config.mixed_keyspace_size)

pub recovery_tail_operations : WorkloadConfig → ℕ
recovery_tail_operations config = max_size 1 (min_size 999 (config.operations / 20))

-- The plan from number `drawn` of the generator on: two draws for each operation.
plan_from : (ℕ → ℕ) → ℕ → ℕ → ℕ → ℕ → List MixedOperation
plan_from draw read_percent keyspace_size zero drawn = []
plan_from draw read_percent keyspace_size (suc n) drawn =
    record {
      is_read = ltb (draw drawn % 100) read_percent;
      key_index = draw (drawn + 1) % keyspace_size;
    }
    ∷ plan_from draw read_percent keyspace_size n (drawn + 2)

-- `generator seed` is the sequence of `std::mt19937` from that seed.
pub mixed_plan : (ℕ → ℕ → ℕ) → WorkloadConfig → ℕ → List MixedOperation
unfolding plan_from
mixed_plan generator config keyspace_size =
    plan_from (generator config.random_seed) config.mixed_read_percent keyspace_size
      config.operations 0

unfoldable pub build_mixed_plan :
    {S : Type 0} → Reserve → (ℕ → ℕ → ℕ) → WorkloadConfig → ℕ → Exec S (List MixedOperation)
build_mixed_plan reserve generator config keyspace_size = do
  lift (reserve plan_steps config.operations)
  pure (mixed_plan generator config keyspace_size)

pub wal_path : Bytes → Bytes
wal_path directory = file_path directory (codes "wal.log")

pub snapshot_path : Bytes → Bytes
snapshot_path directory = file_path directory (codes "store.snapshot")

-- The store and its disk, and how often the clock was read.
pub record Bench : Type 0 where
  pub world : World
  pub readings : ℕ

-- A call of the store.
unfoldable pub on_world : {A : Type 0} → Exec World A → Exec Bench A
on_world m s = let (r, w) = m s.world in (r, record s { world = w })

unfoldable pub opened_store : Bytes → Bench → Result OutStream × Disk → Result (Unit {0}) × Bench
opened_store directory s (ok log, d) = (
  ok tt,
  record s { world = record { store = fresh_store log (snapshot_path directory); disk = d } },
)
opened_store directory s (err message, d) =
    (err message, record s { world = record s.world { disk = d } })

-- A log, a snapshot and a store over them, in a directory.
unfoldable pub open_store : Bytes → Exec Bench (Unit {0})
unfolding opened_store
open_store directory s = opened_store directory s (Wal.open_log (wal_path directory) s.world.disk)

unfoldable pub preload_store : List Bytes → Bytes → Exec Bench (Unit {0})
preload_store [] value = pure tt
preload_store (key ∷ keys) value = do on_world (set key value); preload_store keys value

-- The first process of the recovery workload.
unfoldable pub prepare_recovery : Reserve → Bytes → WorkloadConfig → Exec Bench (Unit {0})
prepare_recovery reserve directory config = do
  value ← make_fixed_value reserve config.value_size_bytes
  open_store directory
  base_keys ← make_keys reserve (codes "recovery_base_key") config.operations
  preload_store base_keys value
  saved ← on_world save_snapshot
  if saved then pure tt else throw (codes "recovery benchmark failed to save snapshot")
  tail_keys ← make_keys reserve (codes "recovery_tail_key") (recovery_tail_operations config)
  preload_store tail_keys value

-- `if (!result.has_value()) throw …`
unfoldable pub expect_hit : Bytes → Option Bytes → Exec Bench (Unit {0})
expect_hit message none = throw message
expect_hit message (some value) = pure tt

-- `keys[index]`; past the end nothing is promised, and the model gives no byte.
pub key_at : List Bytes → ℕ → Bytes
key_at [] i = []
key_at (k ∷ ks) zero = k
key_at (k ∷ ks) (suc i) = key_at ks i

-- What the mixed workload counts.
pub record Tally (D : Type 0) : Type 0 where
  pub overall_latencies : List D
  pub read_latencies : List D
  pub write_latencies : List D
  pub read_operations : ℕ
  pub write_operations : ℕ

pub recovery_path_description : {D : Type 0} → RecoveryBenchmarkResult D → Bytes
recovery_path_description r =
    if r.snapshot_loaded && ltb 0 r.wal_operations_replayed
    then codes "snapshot+wal"
    else if r.snapshot_loaded
    then codes "snapshot"
    else if ltb 0 r.wal_operations_replayed
    then codes "wal"
    else codes "empty"
