-- ===== src/Bench/Workloads/Keys.antt =====
-- The keys of a workload are distinct, so a preload of them adds one entry for each.
use mathlib.Core.List.{append_cancel_left, tail-eq_of_cons-eq}
use agent_kv.Prelude.{
  ℕ, zero, suc, ◌+◌, ◌≤◌, ◌<◌, ◌^◌, Bytes, bytes_eq-ne, List, [], ◌∷◌, length, length-append, All,
  none, ◌≡◌, ◌≢◌, refl, ap, ◌∙◌, arith,
}
use agent_kv.Map.{Map, lookup, insert}
use agent_kv.Map.Laws.{lookup-insert, insert-new}
use agent_kv.Bench.Decimal.{to_string-injective}
use agent_kv.Bench.Utils.{make_indexed_key}
use agent_kv.Bench.Workloads.{indexed_keys, keys_from}

-- Indexes of 64 bits give different keys.
pub make_indexed_key-injective :
    (prefix : Bytes) (i j : ℕ)
    → i < 2 ^ 64
    → j < 2 ^ 64
    → make_indexed_key prefix i ≡ make_indexed_key prefix j
    → i ≡ j
unfolding make_indexed_key
make_indexed_key-injective prefix i j small small' same =
    to_string-injective i j small small' (tail-eq_of_cons-eq (append_cancel_left prefix _ _ same))

-- Distinct keys, none of which is in the map.
abbrev pub Fresh : Map → List Bytes → Type 0
Fresh m [] = Unit
Fresh m (k ∷ ks) = (lookup k m ≡ none) × All (λ j. k ≢ j) ks × Fresh m ks

pub Fresh-insert :
    (k v : Bytes) (m : Map) (ks : List Bytes)
    → All (λ j. k ≢ j) ks
    → Fresh m ks
    → Fresh (insert k v m) ks
Fresh-insert k v m [] _ _ = tt
Fresh-insert k v m (j ∷ ks) (ne, others) (absent, distinct, rest) =
    (rw (lookup-insert, bytes_eq-ne k j ne) absent, distinct, Fresh-insert k v m ks others rest)

keys_from-ne :
    (prefix : Bytes) (n i k : ℕ)
    → k < i
    → i + n ≤ 2 ^ 64
    → All (λ j. make_indexed_key prefix k ≢ j) (keys_from prefix n i)
unfolding keys_from
keys_from-ne prefix zero i k less room = tt
keys_from-ne prefix (suc n) i k less room = (
  λ e. absurd (omega (arith, make_indexed_key-injective prefix k i (omega arith) (omega arith) e)),
  keys_from-ne prefix n (i + 1) k (omega arith) (omega arith),
)

keys_from-Fresh : (prefix : Bytes) (n i : ℕ) → i + n ≤ 2 ^ 64 → Fresh [] (keys_from prefix n i)
unfolding keys_from lookup
keys_from-Fresh prefix zero i room = tt
keys_from-Fresh prefix (suc n) i room = (
  refl,
  keys_from-ne prefix n (i + 1) i (omega arith) (omega arith),
  keys_from-Fresh prefix n (i + 1) (omega arith),
)

pub indexed_keys-Fresh : (prefix : Bytes) (n : ℕ) → n ≤ 2 ^ 64 → Fresh [] (indexed_keys prefix n)
unfolding indexed_keys
indexed_keys-Fresh prefix n room = keys_from-Fresh prefix n 0 (omega arith)

pub length-insert_new :
    (k v : Bytes) (m : Map) → lookup k m ≡ none → length (insert k v m) ≡ length m + 1
length-insert_new k v m absent = ap length (insert-new k v m absent) ∙ length-append m ((k, v) ∷ [])
