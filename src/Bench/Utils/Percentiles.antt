-- ===== src/Bench/Utils/Percentiles.antt =====
-- The percentiles of a run are values of the run, in their order.
use mathlib.Core.List.{Mem, mem-cons_self, mem-cons_of_mem}
use agent_kv.Prelude.{
  ℕ, zero, suc, ◌-◌, ◌≤◌, ◌<◌, List, [], ◌∷◌, length, All, ◌≡◌, refl, ap, ◌∙◌, arith, Bool-cases,
  inl, inr,
}
use agent_kv.Bench.Doubles.{Doubles, ◌≼◌, IsMonotone}
use agent_kv.Bench.Utils.{
  insert_sorted, sort, value_at, min_index, at_least_one, rank_index, percentile_nearest_rank,
  LatencyStats, compute_latency_stats,
}

min_index-bound : (a n : ℕ) → 1 ≤ n → min_index a (n - 1) < n
min_index-bound a n some_values = ground arith

min_index-le : (a b n : ℕ) → a ≤ b → min_index a n ≤ min_index b n
min_index-le a b n h = ground arith

module _ {D : Type 0} ⦃d : Doubles D⦄ where
  -- Sorting keeps the values.
  insert_sorted-All :
      (P : D → Type 0) (x : D) (ys : List D) → P x → All P ys → All P (insert_sorted x ys)
  unfolding insert_sorted
  insert_sorted-All P x [] px _ = (px, tt)
  insert_sorted-All P x (y ∷ ys) px (py, all) = elim (Bool-cases (d.lt x y)) [
    | inl less ↦ rw less (px, (py, all))
    | inr more ↦ rw more (py, insert_sorted-All P x ys px all)
  ]

  sort-All : (P : D → Type 0) (xs : List D) → All P xs → All P (sort xs)
  unfolding sort
  sort-All P [] _ = tt
  sort-All P (x ∷ xs) (px, all) = insert_sorted-All P x (sort xs) px (sort-All P xs all)

  length-insert_sorted : (x : D) (ys : List D) → length (insert_sorted x ys) ≡ suc (length ys)
  unfolding insert_sorted
  length-insert_sorted x [] = refl
  length-insert_sorted x (y ∷ ys) = elim (Bool-cases (d.lt x y)) [
    | inl less ↦ rw less refl
    | inr more ↦ rw more (ap suc (length-insert_sorted x ys))
  ]

  length-sort : (xs : List D) → length (sort xs) ≡ length xs
  unfolding sort
  length-sort [] = refl
  length-sort (x ∷ xs) = length-insert_sorted x (sort xs) ∙ ap suc (length-sort xs)

  -- Each value is of the list.
  All-Mem : (xs : List D) → All (λ x. Mem x xs) xs
  All-Mem xs = go xs (λ x m. m)
    where
      go : (ys : List D) → ((y : D) → Mem y ys → Mem y xs) → All (λ y. Mem y xs) ys
      go [] sub = tt
      go (y ∷ ys) sub = (sub y mem-cons_self, go ys (λ z m. sub z (mem-cons_of_mem y m)))

  value_at-All :
      (P : D → Type 0) (xs : List D) (i : ℕ) → All P xs → i < length xs → P (value_at xs i)
  unfolding value_at
  value_at-All P [] i all inside = absurd (omega (arith, inside))
  value_at-All P (x ∷ xs) zero (px, all) inside = px
  value_at-All P (x ∷ xs) (suc i) (px, all) inside = value_at-All P xs i all (omega (arith, inside))

  -- A percentile of some values is one of them.
  percentile_nearest_rank-Mem :
      (x : D) (xs : List D) (percentile : D)
      → Mem (percentile_nearest_rank (x ∷ xs) percentile) (x ∷ xs)
  unfolding percentile_nearest_rank
  percentile_nearest_rank-Mem x xs percentile =
      value_at-All (λ y. Mem y (x ∷ xs)) (sort (x ∷ xs)) _ (sort-All _ (x ∷ xs) (All-Mem (x ∷ xs)))
        (min_index-bound _ (length (sort (x ∷ xs))) (omega (arith, length-sort (x ∷ xs))))

  abbrev IsSorted : List D → Type 0
  IsSorted [] = Unit
  IsSorted (x ∷ xs) = All (λ y. x ≼ y) xs × IsSorted xs

module _ {D : Type 0} ⦃d : Doubles D⦄ (m : IsMonotone D) where
  All-le : (x y : D) (ys : List D) → x ≼ y → All (λ z. y ≼ z) ys → All (λ z. x ≼ z) ys
  All-le x y [] h _ = tt
  All-le x y (z ∷ zs) h (yz, all) = (m.le_trans x y z h yz, All-le x y zs h all)

  insert_sorted-IsSorted : (x : D) (ys : List D) → IsSorted ys → IsSorted (insert_sorted x ys)
  unfolding insert_sorted
  insert_sorted-IsSorted x [] _ = (tt, tt)
  insert_sorted-IsSorted x (y ∷ ys) (below, sorted) = elim (Bool-cases (d.lt x y)) [
    | inl less ↦
        let h = m.le_of_lt x y less in rw less ((h, All-le x y ys h below), (below, sorted))
    | inr more ↦
        rw more (insert_sorted-All (λ z. y ≼ z) x ys more below, insert_sorted-IsSorted x ys sorted)
  ]

  sort-IsSorted : (xs : List D) → IsSorted (sort xs)
  unfolding sort
  sort-IsSorted [] = tt
  sort-IsSorted (x ∷ xs) = insert_sorted-IsSorted x (sort xs) (sort-IsSorted xs)

  le_refl : (x : D) → x ≼ x
  le_refl x = elim (Bool-cases (d.lt x x)) [ inl less ↦ m.le_of_lt x x less | inr same ↦ same ]

  value_at-le :
      (xs : List D) (i j : ℕ) → IsSorted xs → i ≤ j → j < length xs → value_at xs i ≼ value_at xs j
  unfolding value_at
  value_at-le [] i j sorted h inside = absurd (omega (arith, inside))
  value_at-le (x ∷ xs) zero zero sorted h inside = le_refl x
  value_at-le (x ∷ xs) zero (suc j) (below, sorted) h inside =
      value_at-All (λ y. x ≼ y) xs j below (omega (arith, inside))
  value_at-le (x ∷ xs) (suc i) zero sorted h inside = absurd (omega (arith, h))
  value_at-le (x ∷ xs) (suc i) (suc j) (below, sorted) h inside =
      value_at-le xs i j sorted (omega (arith, h)) (omega (arith, inside))

  at_least_one-le : (x y : D) → x ≼ y → at_least_one x ≼ at_least_one y
  at_least_one-le x y h = elim (Bool-cases (d.lt (d.of_number 1) x)) [
    | inl big ↦ elim (Bool-cases (d.lt (d.of_number 1) y)) [
      | inl big' ↦ rw (big, big') h
      | inr small' ↦ rw (big, small') (m.le_trans x y (d.of_number 1) h small')
    ]
    | inr small ↦ elim (Bool-cases (d.lt (d.of_number 1) y)) [
      | inl big' ↦ rw (small, big') (m.le_of_lt (d.of_number 1) y big')
      | inr small' ↦ rw (small, small') (le_refl (d.of_number 1))
    ]
  ]

  rank_index-le : (size : ℕ) (p q : D) → p ≼ q → rank_index size p ≤ rank_index size q
  unfolding rank_index
  rank_index-le size p q h =
      let wider =
        m.cast-le _ _ (at_least_one-le _ _ (m.ceil-le _ _ (m.mul-le size _ _ (m.div-le p q h)))) in
      omega arith

  percentile_nearest_rank-le :
      (x : D) (xs : List D) (p q : D)
      → p ≼ q
      → percentile_nearest_rank (x ∷ xs) p ≼ percentile_nearest_rank (x ∷ xs) q
  unfolding percentile_nearest_rank
  percentile_nearest_rank-le x xs p q h =
      let n = length (sort (x ∷ xs)) in
      value_at-le (sort (x ∷ xs)) (min_index (rank_index n p) (n - 1))
        (min_index (rank_index n q) (n - 1)) (sort-IsSorted (x ∷ xs))
        (min_index-le _ _ (n - 1) (rank_index-le n p q h))
        (min_index-bound _ n (omega (arith, length-sort (x ∷ xs))))

  -- What a report of some latencies promises.
  abbrev pub Reported : List D → LatencyStats D → Type 0
  Reported latencies stats =
      (stats.p50_us ≼ stats.p95_us)
      × (stats.p95_us ≼ stats.p99_us)
      × Mem stats.p50_us latencies
      × Mem stats.p95_us latencies
      × Mem stats.p99_us latencies

  -- For numbers whose rounded arithmetic keeps the order, and at least one latency: the percentiles
  -- of 50, 95 and 99 are latencies of the run, and each is at least the one before.
  pub compute_latency_stats-Reported :
      (x : D) (xs : List D) → Reported (x ∷ xs) (compute_latency_stats (x ∷ xs))
  unfolding compute_latency_stats
  compute_latency_stats-Reported x xs = (
    percentile_nearest_rank-le x xs _ _ (m.of_number-le 50 95 (omega arith)),
    percentile_nearest_rank-le x xs _ _ (m.of_number-le 95 99 (omega arith)),
    percentile_nearest_rank-Mem x xs _,
    percentile_nearest_rank-Mem x xs _,
    percentile_nearest_rank-Mem x xs _,
  )
