-- ===== src/Aggregator/Metrics.antt =====
-- aggregator.py, class MetricsAggregator: one metric for each context.
use mathlib.Core.Logic.{ite}
use dd_agent.Prelude.{
  ℕ, ◌+◌, Option, none, some, List, [], ◌∷◌, ◌++◌, ℤ, Bool, true, false, if◌then◌else◌, ltb,
}
use dd_agent.Prelude.Dict.{Dict, get, put}
use dd_agent.Prelude.Text.{Text, Text-discrete, codes}
use dd_agent.Aggregator.Point.{Point}
use dd_agent.Aggregator.Metric.{Labels, Metric, SampleRate, sample}
use dd_agent.Aggregator.Flush.{flush}
use dd_agent.Aggregator.Class.{Class, new_metric}
use dd_agent.Aggregator.Base.{Base, Context, Context-discrete, context_tags, or_else}

pub data Error : Type 0 where
  key_error zero_division_error index_error : Error

-- What was written before an exception stays written.
pub data Outcome (S : Type 0) : Type 0 where
  done : S → Outcome S
  raised : Error → S → Outcome S

pub record Aggregator : Type 0 where
  pub base : Base
  pub open base use *
  pub metrics : Dict Context Metric

-- metric_type_to_class
unfoldable pub class_of : Text → Option Class
unfolding Text-discrete
class_of mtype = ite (Text-discrete mtype (codes "g")) (some Class.gauge) (
    ite (Text-discrete mtype (codes "ct")) (some Class.count) (
      ite (Text-discrete mtype (codes "ct-c")) (some Class.monotonic_count) (
        ite (Text-discrete mtype (codes "c")) (some Class.counter) (
          ite (Text-discrete mtype (codes "h")) (some Class.histogram) (
            ite (Text-discrete mtype (codes "ms")) (some Class.histogram) (
              ite (Text-discrete mtype (codes "s")) (some Class.set)
                (ite (Text-discrete mtype (codes "_dd-r")) (some Class.rate) none)))))))

-- the arguments of submit_metric
pub record Submission : Type 0 where
  pub name : Text
  pub value : ℤ
  pub mtype : Text
  pub tags : Option (List Text)
  pub hostname : Option Text
  pub device_name : Option Text
  pub timestamp : Option ℕ
  pub sample_rate : SampleRate

abbrev pub host_of : Base → Submission → Text
host_of b s = or_else s.hostname b.hostname

abbrev pub context_of : Base → Submission → Context
context_of b s = (s.name, context_tags s.tags, host_of b s, s.device_name)

abbrev pub labels_of : Base → Submission → Labels
labels_of b s = record {
  formatter = b.formatter;
  name = s.name;
  tags = s.tags;
  hostname = some (host_of b s);
  device_name = s.device_name;
}

-- timestamp is not None and cur_time - int(timestamp) > recent_point_threshold
abbrev pub too_old : Base → Option ℕ → ℕ → Bool
too_old b none now = false
too_old b (some t) now = ltb (t + b.recent_point_threshold) now

abbrev pub discard_point : Base → Base
discard_point b = record b { num_discarded_old_points = b.num_discarded_old_points + 1 }

-- The metric of a context, made where there is none; `none` is a KeyError.
unfoldable pub find_or_make :
    (Text → Option Class) → Base → Dict Context Metric → Submission → ℕ → Option Metric
find_or_make classes b metrics s now = elim (get Context-discrete metrics (context_of b s)) [
  | some m ↦ some m
  | none ↦ elim (classes s.mtype) [
    | none ↦ none
    | some class ↦ some (new_metric class (labels_of b s) b.metric_config now)
  ]
]

-- submit_metric: a new metric is stored before the age of the point is tested.
unfoldable pub submit_metric : Aggregator → Submission → ℕ → Outcome Aggregator
submit_metric a s now = elim (find_or_make class_of a.base a.metrics s now) [
  | none ↦ raised key_error a
  | some m ↦
      let stored = record a { metrics = put Context-discrete a.metrics (context_of a.base s) m } in
      if too_old a.base s.timestamp now
      then done (record stored { base = discard_point a.base })
      else elim (sample m s.value s.sample_rate s.timestamp now) [
        | none ↦ raised zero_division_error stored
        | some m' ↦
            done (record a { metrics = put Context-discrete a.metrics (context_of a.base s) m' })
      ]
]

-- metric.last_sample_time < expiry_timestamp; None is below every number
abbrev pub expired : Metric → ℕ → ℕ → Bool
expired m now expiry_seconds = elim m.last_sample_time [
  | none ↦ true
  | some t ↦ ltb (t + expiry_seconds) now
]

-- The loop of flush over the metrics: the points, and the metrics that stay. `none` is an
-- IndexError of a histogram, or a ZeroDivisionError of an interval of zero.
unfoldable pub flush_metrics :
    Dict Context Metric → ℕ → ℕ → ℕ → Option (List Point × Dict Context Metric)
flush_metrics [] now expiry_seconds interval = some ([], [])
flush_metrics ((c, m) ∷ ms) now expiry_seconds interval =
    let rest = flush_metrics ms now expiry_seconds interval in
    if expired m now expiry_seconds then rest else elim (flush m now interval) [
      | none ↦ none
      | some (ps, m') ↦ elim rest [ none ↦ none | some (qs, ms') ↦ some (ps ++ qs, (c, m') ∷ ms') ]
    ]

-- The counters that the end of a flush resets.
abbrev pub count_packets : Base → Base
count_packets b = record b {
  num_discarded_old_points = 0;
  total_count = b.total_count + b.count;
  count = 0;
}

unfoldable pub flush_all : Aggregator → ℕ → Option (List Point × Aggregator)
unfolding flush_metrics
flush_all a now = elim (flush_metrics a.metrics now a.expiry_seconds a.interval) [
  | none ↦ none
  | some (ps, ms) ↦ some (ps, record a { base = count_packets a.base; metrics = ms })
]
