-- ===== src/Bench.antt =====
-- bench/: the benchmark program, its arguments, its statistics and its workloads over the store.
pub mod Decimal
pub mod Options
pub mod Doubles
pub mod Utils
pub mod Workloads
pub mod Machine
pub mod Runs
pub mod Causes
pub mod Report
pub mod Kept
