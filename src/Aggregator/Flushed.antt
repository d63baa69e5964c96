-- ===== src/Aggregator/Flushed.antt =====
-- aggregator.py, class MetricsAggregator: what flush reports and keeps.
use mathlib.Core.Path.{subst}
use dd_agent.Prelude.{
  ℕ, ◌+◌, ◌≡◌, Option, none, some, List, [], ◌∷◌, ◌++◌, map, Bool, true, false, not, leb, keep,
  some_injective, Bool-cases, Option-cases, inl, inr, refl, sym, ap, arith,
}
use dd_agent.Prelude.Dict.{Dict}
use dd_agent.Aggregator.Point.{Point}
use dd_agent.Aggregator.Metric.{Metric}
use dd_agent.Aggregator.Flush.{flush}
use dd_agent.Aggregator.Base.{Base, Context}
use dd_agent.Aggregator.Metrics.{Aggregator, expired, flush_metrics, flush_all}

-- The metric has a sample, and the last one is not older than the expiry.
abbrev pub is_live : Metric → ℕ → ℕ → Bool
is_live m now expiry_seconds = elim m.last_sample_time [
  | none ↦ false
  | some t ↦ leb now (t + expiry_seconds)
]

-- The entries whose metrics have not expired.
abbrev pub live : Dict Context Metric → ℕ → ℕ → Dict Context Metric
live ms now expiry_seconds = keep (λ p. is_live p.1 now expiry_seconds) ms

-- The points that the metric flushes, and the metric after it.
abbrev pub points_in : Option (List Point × Metric) → List Point
points_in none = []
points_in (some (ps, m')) = ps

abbrev pub left_in : Metric → Option (List Point × Metric) → Metric
left_in m none = m
left_in m (some (ps, m')) = m'

abbrev pub points_of : Metric → ℕ → ℕ → List Point
points_of m now interval = points_in (flush m now interval)

abbrev pub left_of : Metric → ℕ → ℕ → Metric
left_of m now interval = left_in m (flush m now interval)

abbrev pub concat : List (List Point) → List Point
concat [] = []
concat (ps ∷ pss) = ps ++ concat pss

expired_live :
    (m : Metric) (now expiry : ℕ) (b : Bool)
    → expired m now expiry ≡ b
    → is_live m now expiry ≡ not b
expired_live m now expiry b e = elim (Option-cases m.last_sample_time) [
  | inl n ↦ rw n (ap not (rw n at e))
  | inr (t, s) ↦ rw s (ground (arith, rw s at e))
]

abbrev Lives : Dict Context Metric → ℕ → ℕ → ℕ → List Point × Dict Context Metric → Type 0
Lives ms now expiry interval r =
    (r.0 ≡ concat (map (λ p. points_of p.1 now interval) (live ms now expiry)))
    × (r.1 ≡ map (λ p. (p.0, left_of p.1 now interval)) (live ms now expiry))

Lives-fresh :
    (c : Context) (m m' : Metric) (ms : Dict Context Metric) (now expiry interval : ℕ)
    (ps : List Point) (r : List Point × Dict Context Metric)
    → expired m now expiry ≡ false
    → flush m now interval ≡ some (ps, m')
    → Lives ms now expiry interval r
    → Lives ((c, m) ∷ ms) now expiry interval (ps ++ r.0, (c, m') ∷ r.1)
Lives-fresh c m m' ms now expiry interval ps r fresh e h =
    let alive : is_live m now expiry ≡ true = expired_live m now expiry false fresh in
    (rw alive (λ i. points_in (sym e i) ++ h.0 i), rw alive (λ i. (c, left_in m (sym e i)) ∷ h.1 i))

flush_metrics-live :
    (ms : Dict Context Metric) (now expiry interval : ℕ) (r : List Point × Dict Context Metric)
    → flush_metrics ms now expiry interval ≡ some r
    → Lives ms now expiry interval r
unfolding flush_metrics
flush_metrics-live [] now expiry interval r h =
    subst (Lives [] now expiry interval) (some_injective h) (refl, refl)
flush_metrics-live ((c, m) ∷ ms) now expiry interval r h =
    elim (Bool-cases (expired m now expiry)) [
      | inl old ↦
          let k = flush_metrics-live ms now expiry interval r (rw (old, flush_metrics) at h) in
          let gone : is_live m now expiry ≡ false = expired_live m now expiry true old in
          (rw gone k.0, rw gone k.1)
      | inr fresh ↦ elim (Option-cases (flush m now interval)) [
        | inl n ↦ absurd (fails (rw (fresh, n, flush_metrics) at h))
        | inr ((ps, m'), e) ↦ elim (Option-cases (flush_metrics ms now expiry interval)) [
          | inl n ↦ absurd (fails (rw (fresh, e, n, flush_metrics) at h))
          | inr (r', e') ↦
              subst (Lives ((c, m) ∷ ms) now expiry interval)
                (some_injective (rw (fresh, e, e', flush_metrics) at h))
                (Lives-fresh c m m' ms now expiry interval ps r' fresh e
                  (flush_metrics-live ms now expiry interval r' e'))
        ]
      ]
    ]
  where
    fails : none ≡ some r → ⊥
    fails x = cc

-- The base after a flush: the packets since the last one are added to the total, and the counters of
-- packets and of old points start again at zero.
abbrev pub emptied : Base → Base
emptied b = record b {
  total_count = b.total_count + b.count;
  count = 0;
  num_discarded_old_points = 0;
}

abbrev Flushes : Aggregator → ℕ → List Point × Aggregator → Type 0
Flushes a now r =
    Lives a.metrics now a.expiry_seconds a.interval (r.0, r.1.metrics) × (r.1.base ≡ emptied a.base)

-- A flush that returns reports, one metric after the other, what each metric flushes whose last sample
-- is not older than the expiry. It keeps the contexts of these and no other, each with the metric that
-- its flush leaves. The packets since the last flush are added to the total, and the counters of
-- packets and of old points start again at zero.
pub flush_all-live :
    (a a' : Aggregator) (now : ℕ) (ps : List Point)
    → flush_all a now ≡ some (ps, a')
    → (ps ≡ concat (map (λ p. points_of p.1 now a.interval) (live a.metrics now a.expiry_seconds)))
      × (a'.metrics
          ≡ map (λ p. (p.0, left_of p.1 now a.interval)) (live a.metrics now a.expiry_seconds))
      × (a'.base ≡ record a.base {
        total_count = a.base.total_count + a.base.count;
        count = 0;
        num_discarded_old_points = 0;
      })
unfolding flush_all
flush_all-live a a' now ps h =
    elim (Option-cases (flush_metrics a.metrics now a.expiry_seconds a.interval)) [
      | inl n ↦ absurd (fails (rw (n, flush_all) at h))
      | inr (r, e) ↦
          let f : Flushes a now (ps, a') =
            subst (Flushes a now) (some_injective (rw (e, flush_all) at h))
              (flush_metrics-live a.metrics now a.expiry_seconds a.interval r e, refl) in
          (f.0.0, f.0.1, f.1)
    ]
  where
    fails : ◌≡◌ {A = Option (List Point × Aggregator)} none (some (ps, a')) → ⊥
    fails x = cc
