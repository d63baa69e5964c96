-- ===== src/Aggregator/Buckets.antt =====
-- aggregator.py, class MetricsBucketAggregator. The dictionary self.current_mbc is the entry of
-- self.metric_by_bucket at self.current_bucket, the same object: it is read and written there.
use mathlib.Core.Logic.{ite}
use native.Mathlib.Decide.{ℕ_discrete}
use dd_agent.Prelude.{
  ℕ, ◌+◌, ◌-◌, ◌%◌, Option, none, some, List, [], ◌∷◌, ◌++◌, map, pos, Bool, true, false,
  if◌then◌else◌, ◌==◌, ltb, leb,
}
use dd_agent.Prelude.Dict
use dd_agent.Prelude.Dict.{Dict}
use dd_agent.Prelude.Sort.{sort}
use dd_agent.Prelude.Text.{Text, Text-discrete, codes}
use dd_agent.Aggregator.Point.{Point}
use dd_agent.Aggregator.Metric.{Labels, Kind, Metric, sample, counter, gauge}
use dd_agent.Aggregator.Flush.{flush, flush_kind}
use dd_agent.Aggregator.Class.{Class}
use dd_agent.Aggregator.Base.{Base, Context, Context-discrete}
use dd_agent.Aggregator.Metrics.{
  Outcome, done, raised, key_error, zero_division_error, Submission, context_of, too_old,
  discard_point, find_or_make, expired, count_packets,
}

pub record BucketAggregator : Type 0 where
  pub base : Base
  pub open base use *
  pub metric_by_bucket : Dict ℕ (Dict Context Metric)
  pub last_sample_time_by_context : Dict Context ℕ
  pub current_bucket : Option ℕ
  pub last_flush_cutoff_time : ℕ

unfoldable pub new_aggregator : Base → BucketAggregator
new_aggregator b = record {
  base = b;
  metric_by_bucket = [];
  last_sample_time_by_context = [];
  current_bucket = none;
  last_flush_cutoff_time = 0;
}

-- metric_type_to_class
unfoldable pub class_of : Text → Option Class
unfolding Text-discrete
class_of mtype = ite (Text-discrete mtype (codes "g")) (some Class.bucket_gauge) (
    ite (Text-discrete mtype (codes "c")) (some Class.counter) (
      ite (Text-discrete mtype (codes "h")) (some Class.histogram) (
        ite (Text-discrete mtype (codes "ms")) (some Class.histogram)
          (ite (Text-discrete mtype (codes "s")) (some Class.set) none))))

-- for an interval that is not zero
unfoldable pub calculate_bucket_start : ℕ → ℕ → ℕ
calculate_bucket_start interval timestamp = timestamp - timestamp % interval

abbrev pub or_empty : Option (Dict Context Metric) → Dict Context Metric
or_empty none = []
or_empty (some d) = d

-- self.metric_by_bucket[bucket], which is new where there is none
abbrev pub bucket_of : BucketAggregator → ℕ → Dict Context Metric
bucket_of a bucket = or_empty (Dict.get ℕ_discrete a.metric_by_bucket bucket)

-- The aggregator that writes to a bucket, with what the bucket holds then.
abbrev pub with_bucket : BucketAggregator → ℕ → Dict Context Metric → BucketAggregator
with_bucket a bucket metrics = record a {
  metric_by_bucket = Dict.put ℕ_discrete a.metric_by_bucket bucket metrics;
  current_bucket = some bucket;
}

-- `timestamp or cur_time`
abbrev pub time_of : Option ℕ → ℕ → ℕ
time_of none now = now
time_of (some t) now = if t == 0 then now else t

unfoldable pub submit_metric : BucketAggregator → Submission → ℕ → Outcome BucketAggregator
submit_metric a s now =
    if too_old a.base s.timestamp now
    then done (record a { base = discard_point a.base })
    else (let timestamp = time_of s.timestamp now in
        let bucket = calculate_bucket_start a.interval timestamp in
        let metrics = bucket_of a bucket in
        let context = context_of a.base s in
        elim (find_or_make class_of a.base metrics s now) [
          | none ↦ raised key_error (with_bucket a bucket metrics)
          | some m ↦ elim (sample m s.value s.sample_rate (some timestamp) now) [
            | none ↦
                raised zero_division_error
                  (with_bucket a bucket (Dict.put Context-discrete metrics context m))
            | some m' ↦ done (with_bucket a bucket (Dict.put Context-discrete metrics context m'))
          ]
        ])

-- last_sample_time < expiry_timestamp, for a time that is there
abbrev pub stale : ℕ → ℕ → ℕ → Bool
stale last now expiry_seconds = ltb (last + expiry_seconds) now

-- Counter(self.formatter, *context).flush(flush_timestamp, self.interval), where calculate_bucket_start
-- has divided by the interval before
unfoldable pub empty_counter : Base → Context → ℕ → List Point
unfolding flush_kind
empty_counter b (name, tags, host, device) flush_timestamp =
    let l : Labels = record {
      formatter = b.formatter;
      name = name;
      tags = some tags;
      hostname = some host;
      device_name = device;
    } in
    elim (flush_kind l (counter (pos 0)) flush_timestamp b.interval) [
      | none ↦ []
      | some (ps, k) ↦ ps
    ]

-- create_empty_metrics: the points, and last_sample_time_by_context after it
unfoldable pub create_empty_metrics :
    Base → Dict Context ℕ → ℕ → ℕ → Dict Context ℕ → List Point × Dict Context ℕ
unfolding empty_counter
create_empty_metrics b [] now flush_timestamp last_times = ([], last_times)
create_empty_metrics b ((context, last) ∷ times) now flush_timestamp last_times =
    let old = stale last now b.expiry_seconds in
    let last_times' : Dict Context ℕ =
      if old then Dict.remove Context-discrete last_times context else last_times in
    let (ps, left) = create_empty_metrics b times now flush_timestamp last_times' in
    ((if old then ps else empty_counter b context flush_timestamp ++ ps), left)

abbrev pub is_counter : Kind → Bool
is_counter (counter v) = true
is_counter (gauge v t) = false
is_counter _ = false

-- The loop over the metrics of one bucket: the points, last_sample_time_by_context and
-- not_sampled_in_this_bucket after it. `none` is the IndexError of a histogram.
unfoldable pub flush_bucket :
    Base
    → ℕ
    → ℕ
    → Dict Context Metric
    → Dict Context ℕ
    → Dict Context ℕ
    → Option (List Point × Dict Context ℕ × Dict Context ℕ)
flush_bucket b now bucket [] last_times not_sampled = some ([], last_times, not_sampled)
flush_bucket b now bucket ((context, m) ∷ ms) last_times not_sampled =
    let without = Dict.remove Context-discrete not_sampled context in
    let skipped =
      flush_bucket b now bucket ms (Dict.remove Context-discrete last_times context) without in
    if expired m now b.expiry_seconds then skipped else elim (flush m bucket b.interval) [
      | none ↦ none
      | some (ps, m') ↦
          let counts = is_counter m.kind in
          let last_times' : Dict Context ℕ = elim m.last_sample_time [
            | none ↦ last_times
            | some t ↦ if counts then Dict.put Context-discrete last_times context t else last_times
          ] in
          elim (flush_bucket b now bucket ms last_times'
            (if counts then without else not_sampled)) [
              | none ↦ none
              | some (qs, times, rest) ↦ some (ps ++ qs, times, rest)
            ]
    ]

-- The loop over the sorted keys: buckets before the cutoff are flushed and deleted.
unfoldable pub flush_buckets :
    Base
    → ℕ
    → ℕ
    → List ℕ
    → Dict ℕ (Dict Context Metric)
    → Dict Context ℕ
    → Option (List Point × Dict ℕ (Dict Context Metric) × Dict Context ℕ)
unfolding flush_bucket create_empty_metrics
flush_buckets b now cutoff [] buckets last_times = some ([], buckets, last_times)
flush_buckets b now cutoff (bucket ∷ keys) buckets last_times = elim (ltb bucket cutoff) [
  | false ↦ flush_buckets b now cutoff keys buckets last_times
  | true ↦
      elim (flush_bucket b now bucket (or_empty (Dict.get ℕ_discrete buckets bucket)) last_times
        last_times) [
          | none ↦ none
          | some (ps, times, not_sampled) ↦
              let (zeros, times') = create_empty_metrics b not_sampled now bucket times in
              elim (flush_buckets b now cutoff keys (Dict.remove ℕ_discrete buckets bucket)
                times') [
                  | none ↦ none
                  | some (qs, left, last) ↦ some (ps ++ zeros ++ qs, left, last)
                ]
        ]
]

-- flush at the end, whichever way the metrics were gathered
abbrev pub close :
    BucketAggregator → ℕ → Dict ℕ (Dict Context Metric) → Dict Context ℕ → BucketAggregator
close a cutoff buckets last_times = record a {
  base = count_packets a.base;
  metric_by_bucket = buckets;
  last_sample_time_by_context = last_times;
  current_bucket = none;
  last_flush_cutoff_time = cutoff;
}

-- flush, with the buckets that there are and the start of the current one
unfoldable pub flush_from :
    BucketAggregator → ℕ → ℕ → Dict ℕ (Dict Context Metric) → Option (List Point × BucketAggregator)
unfolding flush_buckets create_empty_metrics sort
flush_from a now cutoff [] =
    let last_times = a.last_sample_time_by_context in
    if leb (a.last_flush_cutoff_time + a.interval) cutoff
    then (let (ps, left) =
          create_empty_metrics a.base last_times now (cutoff - a.interval) last_times in
        some (ps, close a cutoff [] left))
    else some ([], close a cutoff [] last_times)
flush_from a now cutoff (e ∷ es) =
    let buckets = e ∷ es in
    elim (flush_buckets a.base now cutoff (sort ltb (map (λ p. p.0) buckets)) buckets
      a.last_sample_time_by_context) [
        | none ↦ none
        | some (ps, left, last_times) ↦ some (ps, close a cutoff left last_times)
      ]

unfoldable pub flush_all : BucketAggregator → ℕ → Option (List Point × BucketAggregator)
unfolding flush_from calculate_bucket_start
flush_all a now = flush_from a now (calculate_bucket_start a.interval now) a.metric_by_bucket
