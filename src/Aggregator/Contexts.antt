-- ===== src/Aggregator/Contexts.antt =====
-- aggregator.py, class MetricsAggregator: what submit_metric does to the metric of each context.
use mathlib.Core.Logic.{ite}
use mathlib.Core.Path.{subst}
use dd_agent.Prelude.{
  ℕ, ◌+◌, ◌≤◌, ◌<◌, ◌≡◌, Option, none, some, true, false, some_injective, Bool-cases, Option-cases,
  ◌⊎◌, inl, inr, refl, sym, ◌∙◌, arith,
}
use dd_agent.Prelude.Dict.{get, get-put}
use dd_agent.Aggregator.Metric.{Metric, sample}
use dd_agent.Aggregator.Class.{Class, new_metric}
use dd_agent.Aggregator.Base.{Base, Context, Context-discrete}
use dd_agent.Aggregator.Metrics.{
  Aggregator, done, raised, key_error, zero_division_error, Submission, class_of, context_of,
  labels_of, too_old, find_or_make, submit_metric,
}

-- The metric that a submission finds or makes in its context.
abbrev Finds : Aggregator → Submission → ℕ → Metric → Type 0
Finds a s now m =
    (get Context-discrete a.metrics (context_of a.base s) ≡ some m)
    ⊎ ((get Context-discrete a.metrics (context_of a.base s) ≡ none)
        × (class : Class) × (class_of s.mtype ≡ some class)
        × (m ≡ new_metric class (labels_of a.base s) a.base.metric_config now))

-- The point has a timestamp that lies further back than the threshold.
abbrev IsOld : Base → Option ℕ → ℕ → Type 0
IsOld b timestamp now = (t : ℕ) × (timestamp ≡ some t) × (t + b.recent_point_threshold < now)

abbrev IsRecent : Base → Option ℕ → ℕ → Type 0
IsRecent b timestamp now = (t : ℕ) → timestamp ≡ some t → now ≤ t + b.recent_point_threshold

-- What a submission at a time does: the metric that its context has afterwards is the one that was
-- there, or else a new one of the class of its type, with the sample if the point is recent. If the
-- point is too old the metric has no sample of it, and the counter of such points is one more. All
-- other contexts and the rest of the state are as before.
abbrev pub Submits : Aggregator → Submission → ℕ → Aggregator → Type 0
Submits a s now a' =
    (m : Metric) × (m' : Metric) × Finds a s now m
    × ((c : Context)
        → get Context-discrete a'.metrics c
          ≡ ite (Context-discrete (context_of a.base s) c) (some m')
              (get Context-discrete a.metrics c))
    × ((IsOld a.base s.timestamp now
          × (m' ≡ m)
          × (a'.base
              ≡ record a.base { num_discarded_old_points = a.base.num_discarded_old_points + 1 }))
        ⊎ (IsRecent a.base s.timestamp now
            × (sample m s.value s.sample_rate s.timestamp now ≡ some m')
            × (a'.base ≡ a.base)))

find_or_make-Finds :
    (a : Aggregator) (s : Submission) (now : ℕ) (m : Metric)
    → find_or_make class_of a.base a.metrics s now ≡ some m
    → Finds a s now m
unfolding find_or_make
find_or_make-Finds a s now m e =
    elim (Option-cases (get Context-discrete a.metrics (context_of a.base s))) [
      | inr (k, there) ↦ inl (there ∙ (rw (there, find_or_make) at e))
      | inl n ↦ elim (Option-cases (class_of s.mtype)) [
        | inl unknown ↦ absurd (fails (rw (n, unknown, find_or_make) at e))
        | inr (class, known) ↦
            inr (n, class, known, sym (some_injective (rw (n, known, find_or_make) at e)))
      ]
    ]
  where
    fails : none ≡ some m → ⊥
    fails x = cc

too_old-IsOld :
    (b : Base) (timestamp : Option ℕ) (now : ℕ)
    → too_old b timestamp now ≡ true
    → IsOld b timestamp now
too_old-IsOld b none now e = cc
too_old-IsOld b (some t) now e = (t, refl, ground arith)

too_old-IsRecent :
    (b : Base) (timestamp : Option ℕ) (now : ℕ)
    → too_old b timestamp now ≡ false
    → IsRecent b timestamp now
too_old-IsRecent b none now e t f = cc
too_old-IsRecent b (some t) now e u f = let same : t ≡ u = some_injective f in ground (arith, same)

done_injective : {a b : Aggregator} → done a ≡ done b → a ≡ b
done_injective e = cc

-- A submission that returns leaves the metrics of all other contexts as they are. The metric that its
-- own context has afterwards is the one that was there or, where there was none, a new one of the class
-- of its type. If the point has a timestamp further back than the threshold, it is without the sample,
-- and num_discarded_old_points is one more; otherwise it is with the sample, and nothing else changes.
pub submit_metric-Submits :
    (a a' : Aggregator) (s : Submission) (now : ℕ)
    → submit_metric a s now ≡ done a'
    → Submits a s now a'
unfolding submit_metric
submit_metric-Submits a a' s now h =
    elim (Option-cases (find_or_make class_of a.base a.metrics s now)) [
      | inl n ↦ absurd (fails_key (rw (n, submit_metric) at h))
      | inr (m, found) ↦ elim (Bool-cases (too_old a.base s.timestamp now)) [
        | inl old ↦ subst (Submits a s now) (done_injective (rw (found, old, submit_metric) at h)) (
          m,
          m,
          find_or_make-Finds a s now m found,
          (λ c. get-put Context-discrete a.metrics (context_of a.base s) c m),
          inl (too_old-IsOld a.base s.timestamp now old, refl, refl),
        )
        | inr recent ↦ elim (Option-cases (sample m s.value s.sample_rate s.timestamp now)) [
          | inl n ↦ absurd (fails_rate (rw (found, recent, n, submit_metric) at h))
          | inr (m', e) ↦
              subst (Submits a s now) (done_injective (rw (found, recent, e, submit_metric) at h)) (
                m,
                m',
                find_or_make-Finds a s now m found,
                (λ c. get-put Context-discrete a.metrics (context_of a.base s) c m'),
                inr (too_old-IsRecent a.base s.timestamp now recent, e, refl),
              )
        ]
      ]
    ]
  where
    fails_key : {b c : Aggregator} → raised key_error b ≡ done c → ⊥
    fails_key e = cc

    fails_rate : {b c : Aggregator} → raised zero_division_error b ≡ done c → ⊥
    fails_rate e = cc
