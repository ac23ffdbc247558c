-- ===== src/Bench/Workloads/Plan.antt =====
-- The keys of a workload and the plan of the mixed one.
use native.Mathlib.Nat.{mod-lt}
use agent_kv.Prelude.{
  ℕ, zero, suc, ◌+◌, ◌≤◌, ◌<◌, Bytes, List, [], ◌∷◌, length, All, ◌≡◌, refl, ap, arith,
}
use agent_kv.Bench.Workloads.{
  WorkloadConfig, MixedOperation, indexed_keys, keys_from, mixed_keyspace_size,
  recovery_tail_operations, plan_from, mixed_plan, key_at,
}
use agent_kv.KvStore.{snapshot_interval}

-- The keyspace has a key, and no more than the larger of one and the operations.
pub mixed_keyspace_size-bounds :
    (config : WorkloadConfig)
    → (1 ≤ mixed_keyspace_size config) × (mixed_keyspace_size config ≤ config.operations + 1)
unfolding mixed_keyspace_size
mixed_keyspace_size-bounds config = ground arith

-- An operation within the keys.
abbrev pub Within : ℕ → MixedOperation → Type 0
Within size operation = operation.key_index < size

plan_from-Within :
    (draw : ℕ → ℕ) (percent size n drawn : ℕ)
    → 1 ≤ size
    → All (Within size) (plan_from draw percent size n drawn)
unfolding plan_from
plan_from-Within draw percent size zero drawn some_keys = tt
plan_from-Within draw percent size (suc n) drawn some_keys = (
  mod-lt (draw (drawn + 1)) some_keys,
  plan_from-Within draw percent size n (drawn + 2) some_keys,
)

length-plan_from :
    (draw : ℕ → ℕ) (percent size n drawn : ℕ) → length (plan_from draw percent size n drawn) ≡ n
unfolding plan_from
length-plan_from draw percent size zero drawn = refl
length-plan_from draw percent size (suc n) drawn =
    ap suc (length-plan_from draw percent size n (drawn + 2))

module _ (generator : ℕ → ℕ → ℕ) (config : WorkloadConfig) (keyspace_size : ℕ)
    (some_keys : 1 ≤ keyspace_size) where
  -- For a keyspace that is not empty, the plan has as many operations as are asked for, and each of
  -- them names a key of the keyspace, whatever the generator gives.
  pub mixed_plan-Within :
      (length (mixed_plan generator config keyspace_size) ≡ config.operations)
      × All (Within keyspace_size) (mixed_plan generator config keyspace_size)
  unfolding mixed_plan
  mixed_plan-Within = (length-plan_from _ _ _ _ _, plan_from-Within _ _ _ _ _ some_keys)

length-keys_from : (prefix : Bytes) (n i : ℕ) → length (keys_from prefix n i) ≡ n
unfolding keys_from
length-keys_from prefix zero i = refl
length-keys_from prefix (suc n) i = ap suc (length-keys_from prefix n (i + 1))

pub length-indexed_keys : (prefix : Bytes) (n : ℕ) → length (indexed_keys prefix n) ≡ n
unfolding indexed_keys
length-indexed_keys prefix n = length-keys_from prefix n 0

pub key_at-All :
    (P : Bytes → Type 0) (keys : List Bytes) (i : ℕ)
    → All P keys
    → i < length keys
    → P (key_at keys i)
unfolding key_at
key_at-All P [] i all inside = absurd (omega (arith, inside))
key_at-All P (k ∷ ks) zero (here, all) inside = here
key_at-All P (k ∷ ks) (suc i) (here, all) inside = key_at-All P ks i all (omega (arith, inside))

-- The recovery workload writes from 1 to 999 keys behind its snapshot: too few for a snapshot that
-- the store takes by itself.
pub recovery_tail_operations-bounds :
    (config : WorkloadConfig)
    → (1 ≤ recovery_tail_operations config) × (recovery_tail_operations config < snapshot_interval)
unfolding recovery_tail_operations
recovery_tail_operations-bounds config = ground arith
