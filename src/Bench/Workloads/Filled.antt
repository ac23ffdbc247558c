-- ===== src/Bench/Workloads/Filled.antt =====
-- The map that a preload leaves.
use agent_kv.Prelude.{
  refl, bytes_eq, bytes_eq_refl, some, Bool-cases, inl, inr, ℕ, zero, suc, ◌+◌, ◌≤◌, ◌^◌, Bytes,
  codes, List, [], ◌∷◌, length, All, ◌≡◌, ◌≢◌, ap, arith,
}
use agent_kv.Map.{Map, lookup, insert}
use agent_kv.Map.Laws.{lookup-insert}
use agent_kv.Bench.Utils.{make_indexed_key}
use agent_kv.Bench.Workloads.{WorkloadConfig, indexed_keys, keys_from, recovery_tail_operations}
use agent_kv.Bench.Workloads.Plan.{length-indexed_keys, recovery_tail_operations-bounds}
use agent_kv.Bench.Workloads.Keys.{Fresh, Fresh-insert, indexed_keys-Fresh, length-insert_new}

unfoldable pub filled : List Bytes → Bytes → Map → Map
filled [] value m = m
filled (key ∷ keys) value m = filled keys value (insert key value m)

pub length-filled :
    (keys : List Bytes) (value : Bytes) (m : Map)
    → Fresh m keys
    → length (filled keys value m) ≡ length m + length keys
unfolding filled
length-filled [] value m fresh = omega arith
length-filled (key ∷ keys) value m (absent, distinct, fresh) =
    let rest =
      length-filled keys value (insert key value m)
        (Fresh-insert key value m keys distinct fresh) in
    omega (arith, rest, length-insert_new key value m absent)

-- A key that the map holds.
abbrev pub Present : Map → Bytes → Type 0
Present m key = (value : Bytes) × (lookup key m ≡ some value)

pub Present-insert :
    (key value other : Bytes) (m : Map) → Present m other → Present (insert key value m) other
Present-insert key value other m (w, e) = elim (Bool-cases (bytes_eq key other)) [
  | inl same ↦ (value, rw (lookup-insert, same) refl)
  | inr different ↦ (w, rw (lookup-insert, different) e)
]

Present-inserted : (key value : Bytes) (m : Map) → Present (insert key value m) key
Present-inserted key value m = (value, rw (lookup-insert, bytes_eq_refl key) refl)

Present-filled :
    (keys : List Bytes) (value : Bytes) (m : Map) (other : Bytes)
    → Present m other
    → Present (filled keys value m) other
unfolding filled
Present-filled [] value m other h = h
Present-filled (key ∷ keys) value m other h =
    Present-filled keys value (insert key value m) other (Present-insert key value other m h)

-- Each key that is filled in is there.
pub filled-Present :
    (keys : List Bytes) (value : Bytes) (m : Map) → All (Present (filled keys value m)) keys
unfolding filled
filled-Present [] value m = tt
filled-Present (key ∷ keys) value m = (
  Present-filled keys value (insert key value m) key (Present-inserted key value m),
  filled-Present keys value (insert key value m),
)

-- Keys that differ from all that are filled in stay fresh.
Fresh-filled :
    (keys : List Bytes) (value : Bytes) (m : Map) (others : List Bytes)
    → All (λ k. All (λ j. k ≢ j) others) keys
    → Fresh m others
    → Fresh (filled keys value m) others
unfolding filled
Fresh-filled [] value m others _ fresh = fresh
Fresh-filled (key ∷ keys) value m others (ne, all) fresh =
    Fresh-filled keys value (insert key value m) others all
      (Fresh-insert key value m others ne fresh)

-- The byte at an index.
byte : ℕ → Bytes → ℕ
byte i [] = 0
byte zero (c ∷ cs) = c
byte (suc i) (c ∷ cs) = byte i cs

base_key-ne_tail_key :
    (i j : ℕ)
    → make_indexed_key (codes "recovery_base_key") i
      ≢ make_indexed_key (codes "recovery_tail_key") j
unfolding make_indexed_key byte
base_key-ne_tail_key i j e = absurd (omega (arith, ap (byte 9) e))

tail_keys-ne :
    (i n from : ℕ)
    → All
        (λ j. make_indexed_key (codes "recovery_base_key") i ≢ j)
        (keys_from (codes "recovery_tail_key") n from)
unfolding keys_from
tail_keys-ne i zero from = tt
tail_keys-ne i (suc n) from = (base_key-ne_tail_key i from, tail_keys-ne i n (from + 1))

base_keys-ne :
    (n from k : ℕ)
    → All
        (λ b. All (λ j. b ≢ j) (keys_from (codes "recovery_tail_key") k 0))
        (keys_from (codes "recovery_base_key") n from)
unfolding keys_from
base_keys-ne zero from k = tt
base_keys-ne (suc n) from k = (tail_keys-ne from k 0, base_keys-ne n (from + 1) k)

module _ (config : WorkloadConfig) (value : Bytes) where
  abbrev pub base_keys : List Bytes
  base_keys = indexed_keys (codes "recovery_base_key") config.operations

  abbrev pub tail_keys : List Bytes
  tail_keys = indexed_keys (codes "recovery_tail_key") (recovery_tail_operations config)

  -- What the recovery workload writes: an entry for each operation and for each of the tail.
  pub length-recovery_filled :
      config.operations ≤ 2 ^ 64
      → length (filled tail_keys value (filled base_keys value []))
        ≡ config.operations + recovery_tail_operations config
  unfolding indexed_keys
  length-recovery_filled room =
      let (few, less) = recovery_tail_operations-bounds config in
      let fresh = indexed_keys-Fresh (codes "recovery_base_key") config.operations room in
      let fresh' =
        Fresh-filled base_keys value [] tail_keys
          (base_keys-ne config.operations 0 (recovery_tail_operations config))
          (indexed_keys-Fresh (codes "recovery_tail_key") (recovery_tail_operations config)
            (omega arith)) in
      omega (
        arith,
        length-filled tail_keys value (filled base_keys value []) fresh',
        length-filled base_keys value [] fresh,
        length-indexed_keys (codes "recovery_base_key") config.operations,
        length-indexed_keys (codes "recovery_tail_key") (recovery_tail_operations config),
      )
