-- ===== src/Aggregator/Histories.antt =====
-- aggregator.py, MetricsAggregator.submit_metric over a history of calls, and the map of contexts to
-- metrics that it stands for.
use mathlib.Core.Logic.{ite, if_pos, if_neg}
use dd_agent.Prelude.{
  ℕ, ◌≡◌, ◌∙◌, Option, none, some, List, [], ◌∷◌, if◌then◌else◌, ◌+◌, sym, Bool-cases, Option-cases,
  inl, inr, refl, ap,
}
use dd_agent.Prelude.Dict.{get, put, get-put}
use dd_agent.Aggregator.Metric.{Metric, sample}
use dd_agent.Aggregator.Class.{new_metric}
use dd_agent.Aggregator.Base.{Base, Context, Context-discrete}
use dd_agent.Aggregator.Metrics.{
  Aggregator, Outcome, done, raised, Submission, class_of, context_of, labels_of, too_old,
  find_or_make, submit_metric,
}

-- The caller catches what a submission raises: the state is the one that it leaves.
abbrev pub left_by : Outcome Aggregator → Aggregator
left_by (done a) = a
left_by (raised e a) = a

abbrev pub History : Type 0
History = List (Submission × ℕ)

unfoldable pub submit_all : Aggregator → History → Aggregator
unfolding submit_metric
submit_all a [] = a
submit_all a ((s, now) ∷ h) = submit_all (left_by (submit_metric a s now)) h

-- The specification. A submission makes the metric of its context, unless the type is unknown, and
-- gives it a sample, unless the point is too old or the sample fails.
abbrev made : Base → Option Metric → Submission → ℕ → Option Metric
made b (some m) s now = some m
made b none s now = elim (class_of s.mtype) [
  | none ↦ none
  | some class ↦ some (new_metric class (labels_of b s) b.metric_config now)
]

abbrev sampled : Base → Option Metric → Submission → ℕ → Option Metric
sampled b none s now = none
sampled b (some m) s now =
    if too_old b s.timestamp now
    then some m
    else elim (sample m s.value s.sample_rate s.timestamp now) [ none ↦ some m | some m' ↦ some m' ]

abbrev pub submitted : Base → Option Metric → Submission → ℕ → Option Metric
submitted b o s now = sampled b (made b o s now) s now

-- The calls of a history that are for a context.
unfoldable pub calls_of : Base → Context → History → History
calls_of b c [] = []
calls_of b c ((s, now) ∷ h) =
    let rest = calls_of b c h in ite (Context-discrete (context_of b s) c) ((s, now) ∷ rest) rest

unfoldable pub replay : Base → History → Option Metric → Option Metric
replay b [] o = o
replay b ((s, now) ∷ h) o = replay b h (submitted b o s now)

abbrev metric_of : Aggregator → Context → Option Metric
metric_of a c = get Context-discrete a.metrics c

find_or_make-made :
    (a : Aggregator) (s : Submission) (now : ℕ)
    → find_or_make class_of a.base a.metrics s now
      ≡ made a.base (metric_of a (context_of a.base s)) s now
unfolding find_or_make
find_or_make-made a s now = elim (Option-cases (metric_of a (context_of a.base s))) [
  | inl n ↦ rw (n, find_or_make) refl
  | inr (m, e) ↦ rw (e, find_or_make) refl
]

made-none :
    (b : Base) (o : Option Metric) (s : Submission) (now : ℕ) → made b o s now ≡ none → o ≡ none
made-none b none s now e = refl
made-none b (some m) s now e = cc

-- What a call does: the metric of its context is as specified, every other one is as before.
record Performs (a : Aggregator) (s : Submission) (now : ℕ) (a' : Aggregator) : Type 0 where
  metrics :
      (c : Context)
      → metric_of a' c
        ≡ ite
            (Context-discrete (context_of a.base s) c)
            (submitted a.base (metric_of a (context_of a.base s)) s now)
            (metric_of a c)
  base : (n : ℕ) × (a'.base ≡ record a.base { num_discarded_old_points = n })

stores :
    (a : Aggregator) (s : Submission) (now n : ℕ) (m : Metric)
    → submitted a.base (metric_of a (context_of a.base s)) s now ≡ some m
    → Performs a s now (record a {
      base = record a.base { num_discarded_old_points = n };
      metrics = put Context-discrete a.metrics (context_of a.base s) m;
    })
stores a s now n m e = record {
  metrics = λ c.
      get-put Context-discrete a.metrics (context_of a.base s) c m
      ∙ ap (λ o. ite (Context-discrete (context_of a.base s) c) o (metric_of a c)) (sym e);
  base = (n, refl);
}

keeps :
    (a : Aggregator) (s : Submission) (now : ℕ)
    → submitted a.base (metric_of a (context_of a.base s)) s now ≡ none
    → metric_of a (context_of a.base s) ≡ none
    → Performs a s now a
keeps a s now e n = record {
  metrics = λ c. elim (Context-discrete (context_of a.base s) c) [
    | Dec.yes same ↦
        sym (ap (metric_of a) same)
        ∙ n
        ∙ sym e
        ∙ sym (if_pos (Context-discrete (context_of a.base s) c) same _ _)
    | Dec.no other ↦ sym (if_neg (Context-discrete (context_of a.base s) c) other _ _)
  ];
  base = (a.base.num_discarded_old_points, refl);
}

submit_metric-Performs :
    (a : Aggregator) (s : Submission) (now : ℕ) → Performs a s now (left_by (submit_metric a s now))
unfolding submit_metric
submit_metric-Performs a s now =
    let o = metric_of a (context_of a.base s) in
    let kept = a.base.num_discarded_old_points in
    elim (Option-cases (made a.base o s now)) [
      | inl n ↦
          rw (find_or_make-made a s now, submit_metric)
            (rw n (keeps a s now (rw n refl) (made-none a.base o s now n)))
      | inr (m, e) ↦ elim (Bool-cases (too_old a.base s.timestamp now)) [
        | inl old ↦
            rw (find_or_make-made a s now, submit_metric)
              (rw e (rw old (stores a s now (kept + 1) m (rw e (rw old refl)))))
        | inr recent ↦ elim (Option-cases (sample m s.value s.sample_rate s.timestamp now)) [
          | inl n ↦
              rw (find_or_make-made a s now, submit_metric)
                (rw e (rw recent (rw n (stores a s now kept m (rw e (rw recent (rw n refl)))))))
          | inr (m', e') ↦
              rw (find_or_make-made a s now, submit_metric)
                (rw e (rw recent (rw e' (stores a s now kept m' (rw e (rw recent (rw e' refl)))))))
        ]
      ]
    ]

-- The first call of a history belongs to the calls of its context.
calls_of-replay :
    (b : Base) (s : Submission) (now : ℕ) (rest : History) (a : Aggregator) (c : Context)
    → replay b rest (
        ite
          (Context-discrete (context_of b s) c)
          (submitted b (metric_of a (context_of b s)) s now)
          (metric_of a c))
      ≡ replay b (ite (Context-discrete (context_of b s) c) ((s, now) ∷ rest) rest) (metric_of a c)
unfolding replay
calls_of-replay b s now rest a c = elim (Context-discrete (context_of b s) c) [
  | Dec.yes same ↦
      ap (replay b rest) (if_pos (Context-discrete (context_of b s) c) same _ _)
      ∙ ap (λ k. replay b rest (submitted b (metric_of a k) s now)) same
      ∙ ap (λ k. replay b k (metric_of a c))
          (sym (if_pos (Context-discrete (context_of b s) c) same ((s, now) ∷ rest) rest))
  | Dec.no other ↦
      ap (replay b rest) (if_neg (Context-discrete (context_of b s) c) other _ _)
      ∙ ap (λ k. replay b k (metric_of a c))
          (sym (if_neg (Context-discrete (context_of b s) c) other ((s, now) ∷ rest) rest))
]

submit_all-replay :
    (b : Base) (n : ℕ) (h : History) (a : Aggregator) (c : Context)
    → a.base ≡ record b { num_discarded_old_points = n }
    → metric_of (submit_all a h) c ≡ replay b (calls_of b c h) (metric_of a c)
unfolding submit_all calls_of replay
submit_all-replay b n [] a c same = refl
submit_all-replay b n ((s, now) ∷ h) a c same =
    let p = submit_metric-Performs a s now in
    let rest = calls_of b c h in
    submit_all-replay b p.base.0 h (left_by (submit_metric a s now)) c
      (p.base.1 ∙ ap (λ (x : Base). record x { num_discarded_old_points = p.base.0 }) same)
    ∙ ap (replay b rest) (p.metrics c)
    ∙ ap
        (λ (x : Base). replay b rest (
          ite (Context-discrete (context_of x s) c)
            (submitted x (metric_of a (context_of x s)) s now) (metric_of a c)))
        same
    ∙ calls_of-replay b s now rest a c

-- However the calls of submit_metric for different contexts are interleaved, and whatever they raise,
-- the metric of a context is what the calls for this context alone make of the metric that it had:
-- the aggregator implements a map of independent metrics.
pub submit_all-refines :
    (a : Aggregator) (h : History) (c : Context)
    → get Context-discrete (submit_all a h).metrics c
      ≡ replay a.base (calls_of a.base c h) (get Context-discrete a.metrics c)
submit_all-refines a h c = submit_all-replay a.base a.base.num_discarded_old_points h a c refl
