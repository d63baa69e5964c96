-- ===== src/Aggregator/Quantiles.antt =====
-- aggregator.py, Histogram.flush: where the samples stand that it reports.
use dd_agent.Prelude.{
  ℕ, zero, suc, ◌+◌, ◌*◌, ◌-◌, ◌/◌, ◌≤◌, ◌<◌, some, List, [], ◌∷◌, ◌≡◌, refl, ap, ℤ, pos, negsuc,
  ◌==◌, leb, length, get_elem?, arith, Bool-cases, inl, inr, ◌⊎◌, lt→ltb, leb→le,
}
use native.Mathlib.Nat.{div-lt_iff_lt-mul}
use dd_agent.Aggregator.Point.{whole, MetricType}
use dd_agent.Aggregator.Metric.{Percentile, Aggregate}
use dd_agent.Aggregator.Histogram.{
  round_quotient, index, median_index, percentile_index, aggregate_value,
}

get_elem?-some : (xs : List ℤ) (i : ℕ) → i < length xs → (v : ℤ) × (get_elem? xs i ≡ some v)
get_elem?-some [] i h = absurd (omega arith)
get_elem?-some (x ∷ xs) zero h = (x, refl)
get_elem?-some (x ∷ xs) (suc i) h = get_elem?-some xs i (omega arith)

median_index_lem : (length k : ℕ) → length / 2 ≡ suc k → median_index length ≡ pos k
median_index_lem length k h = ground arith

-- Of two sorted samples or more the median that is reported is the one at position n / 2 - 1, counted
-- from 0: the lower one of the two in the middle if n is even, and the one below the middle if n is
-- odd.
pub median_position :
    (xs : List ℤ) (k n interval : ℕ)
    → length xs / 2 ≡ suc k
    → (v : ℤ) × (get_elem? xs k ≡ some v)
      × (aggregate_value Aggregate.median xs n interval ≡ some (whole v, MetricType.gauge))
unfolding aggregate_value
median_position xs k n interval h =
    let (v, found) = get_elem?-some xs k (omega arith) in
    (v, found, rw (aggregate_value, median_index_lem (length xs) k h) (rw found))

index_pos : (xs : List ℤ) (i : ℕ) → i < length xs → (v : ℤ) × (index xs (pos i) ≡ some v)
unfolding index
index_pos xs i h = get_elem?-some xs i h

index_last : (xs : List ℤ) → 0 < length xs → (v : ℤ) × (index xs (negsuc 0) ≡ some v)
unfolding index
index_last xs h = rw (lt→ltb 0 (length xs) h) (get_elem?-some xs (length xs - 1) (omega arith))

n_pos : (a den n : ℕ) → 0 < a → a ≤ den * n → 0 < n
n_pos a den zero h l = omega arith
n_pos a den (suc n) h l = omega arith

-- p * n - 1 rounded is at most n - 1, and at least -1.
round_bounded :
    (a den n : ℕ)
    → 0 < a
    → 0 < den
    → a ≤ den * n
    → ((i : ℕ) × (round_quotient a den den ≡ pos i) × (i < n))
      ⊎ (round_quotient a den den ≡ negsuc 0)
unfolding round_quotient
round_bounded a den n h d l = elim (Bool-cases (leb den a)) [
  | inl up ↦ inl (
    (2 * (a - den) + den) / (2 * den),
    rw up,
    (div-lt_iff_lt-mul (omega arith)).1 (omega (arith, leb→le den a up)),
  )
  | inr down ↦
      let q = (2 * (den - a) + den) / (2 * den) in
      let small : q < 2 = (div-lt_iff_lt-mul (omega arith)).1 (omega arith) in
      rw down (elim (Bool-cases (q == 0)) [
        | inl z ↦ inl (0, rw z, n_pos a den n h l)
        | inr nz ↦ inr (rw nz (ap negsuc (ground (arith, small, nz))))
      ])
]

-- The sample at the position of a percentile is one of the samples: a percentile above 0 and at most
-- 1 of one sample or more raises no IndexError.
pub percentile_in_range :
    (p : Percentile) (xs : List ℤ)
    → 0 < p.num
    → p.num ≤ p.den
    → 0 < length xs
    → (v : ℤ) × (index xs (percentile_index p (length xs)) ≡ some v)
percentile_in_range p xs h l k =
    elim (round_bounded (p.num * length xs) p.den (length xs) (grind arith) (omega arith)
      (grind arith)) [ inl (i, e, b) ↦ rw e (index_pos xs i b) | inr e ↦ rw e (index_last xs k) ]
