-- ===== src/Tests/Aggregator.antt =====
-- aggregator.py: a few submissions and flushes.
use native.Mathlib.Decide.{ℕ_discrete}
use dd_agent.Prelude.{
  ◌≡◌, refl, none, some, List, [], ◌∷◌, map, ℤ, pos, ◌+ℤ◌, ◌-ℤ◌, ◌*ℤ◌, if◌then◌else◌, ltb,
}
use dd_agent.Prelude.Dict
use dd_agent.Prelude.Text.{Text, codes, Text-discrete}
use dd_agent.Prelude.Sort.{sort}
use dd_agent.Aggregator.Point.{api_formatter, whole, ratio, MetricType, Point}
use dd_agent.Aggregator.Metric.{
  Labels, Aggregate, SampleRate, every, weight, sample_kind, sample, counter,
}
use dd_agent.Aggregator.Histogram.{aggregate_value, index}
use dd_agent.Aggregator.Flush.{flush_kind, flush, one}
use dd_agent.Aggregator.Class.{new_kind, new_metric}
use dd_agent.Aggregator.Base.{Base, Context, Context-discrete, context_tags}
use dd_agent.Aggregator.Metrics.{
  Aggregator, Submission, find_or_make, class_of, submit_metric, flush_metrics, flush_all,
  count_packets,
}
use dd_agent.Aggregator.Buckets
use dd_agent.Aggregator.Buckets.{BucketAggregator, calculate_bucket_start}
use dd_agent.Aggregator.Totals.{
  Event, sampled, flushed, sample_all, weighted_sum, increases, counter_total,
}
use dd_agent.Aggregator.Contexts.{Submits, submit_metric-Submits}
use dd_agent.Aggregator.Flushed.{live, points_of, left_of, concat, flush_all-live}
use dd_agent.Aggregator.Cutoff.{flush_all-get}
use dd_agent.Aggregator.Histories.{History, submit_all, calls_of, replay, submit_all-refines}
use dd_agent.Aggregator.MagicTags.{
  strip_prefix, last_with, is_magic, magic_of, extract_magic_tags, extract_magic_tags-magic_of,
}

abbrev labels : Labels
labels = record {
  formatter = api_formatter;
  name = codes "hits";
  tags = none;
  hostname = some (codes "web");
  device_name = none;
}

abbrev half : SampleRate
half = record { num = 1; den = 2 }

abbrev values : List (ℤ × SampleRate)
values = (pos 3, half) ∷ (pos 4, every) ∷ []

counter_total_example :
    (elim (sample_all (counter (pos 0)) values 5) [
      | none ↦ none
      | some k ↦ flush_kind labels k 10 10
    ])
    ≡ some (one labels (ratio (pos 10) (pos 10)) MetricType.rate 10 10, counter (pos 0))
unfolding weighted_sum ◌+ℤ◌ ◌*ℤ◌
counter_total_example = counter_total labels values 5 10 10

-- One sample, a flush, two more and a last flush.
abbrev history : List Event
history =
    sampled (pos 5) ∷ flushed ∷ sampled (pos 9) ∷ sampled (pos 2) ∷ sampled (pos 3) ∷ flushed ∷ []

increases_test : increases none history ≡ pos 5
unfolding ◌+ℤ◌ ◌-ℤ◌
increases_test = refl

-- The sample that is reported is 1, where 2 stands in the middle.
abbrev three : List ℤ
three = pos 1 ∷ pos 2 ∷ pos 3 ∷ []

median_test : aggregate_value Aggregate.median three 3 10 ≡ some (whole (pos 1), MetricType.gauge)
unfolding aggregate_value index
median_test = refl

abbrev base : Base
base = record {
  events = [];
  service_checks = [];
  total_count = 4;
  count = 2;
  event_count = 0;
  service_check_count = 0;
  hostname = codes "web";
  expiry_seconds = 300;
  formatter = api_formatter;
  interval = 10;
  recent_point_threshold = 3600;
  num_discarded_old_points = 0;
  metric_config = record { aggregates = none; percentiles = none };
}

abbrev empty : Aggregator
empty = record { base = base; metrics = [] }

abbrev submission : Submission
submission = record {
  name = codes "hits";
  value = pos 3;
  mtype = codes "c";
  tags = none;
  hostname = none;
  device_name = none;
  timestamp = none;
  sample_rate = half;
}

abbrev context : Context
context = (codes "hits", [], codes "web", none)

abbrev sampled_once : Aggregator
sampled_once = record empty {
  metrics =
      (context, record { labels = labels; kind = counter (pos 6); last_sample_time = some 100 })
      ∷ [];
}

program : Unit {0}
unfolding submit_metric find_or_make class_of Context-discrete Text-discrete context_tags new_metric
    new_kind sample sample_kind weight ◌+ℤ◌ ◌*ℤ◌ flush flush_kind flush_all flush_metrics sort
    Dict.get Dict.put Dict.remove
program = tt

submit_metric-Submits_example : Submits empty submission 100 sampled_once
unfolding program
submit_metric-Submits_example = submit_metric-Submits empty sampled_once submission 100 refl

abbrev flushed_once : Aggregator
flushed_once = record sampled_once {
  base = count_packets base;
  metrics =
      (context, record { labels = labels; kind = counter (pos 0); last_sample_time = some 100 })
      ∷ [];
}

abbrev reported : List Point
reported = one labels (ratio (pos 6) (pos 10)) MetricType.rate 110 10

flush_all-live_example :
    (reported ≡ concat (map (λ p. points_of p.1 110 10) (live sampled_once.metrics 110 300)))
    × (flushed_once.metrics
        ≡ map (λ p. (p.0, left_of p.1 110 10)) (live sampled_once.metrics 110 300))
    × (flushed_once.base ≡ record base { total_count = 6; count = 0; num_discarded_old_points = 0 })
unfolding program
flush_all-live_example = flush_all-live sampled_once flushed_once 110 reported refl

-- A bucket of a flushed interval and the bucket of the current one.
abbrev buckets : BucketAggregator
buckets = record {
  base = base;
  metric_by_bucket = (100, sampled_once.metrics) ∷ (110, []) ∷ [];
  last_sample_time_by_context = [];
  current_bucket = some 110;
  last_flush_cutoff_time = 90;
}

abbrev left_buckets : BucketAggregator
left_buckets = record {
  base = count_packets base;
  metric_by_bucket = (110, []) ∷ [];
  last_sample_time_by_context = (context, 100) ∷ [];
  current_bucket = none;
  last_flush_cutoff_time = 110;
}

flush_all-get_example : Dict.get ℕ_discrete left_buckets.metric_by_bucket 100 ≡ (
    if ltb 100 (calculate_bucket_start 10 117)
    then none
    else Dict.get ℕ_discrete buckets.metric_by_bucket 100)
unfolding program Buckets.flush_all Buckets.flush_from Buckets.flush_buckets Buckets.flush_bucket
    Buckets.create_empty_metrics calculate_bucket_start ℕ_discrete
flush_all-get_example =
    flush_all-get buckets left_buckets 117
      (one labels (ratio (pos 6) (pos 10)) MetricType.rate 100 10) 100 refl

abbrev late : Submission
late = record submission { timestamp = some 3; sample_rate = every }

abbrev other : Submission
other = record submission { name = codes "misses" }

abbrev calls : History
calls = (submission, 100) ∷ (other, 101) ∷ (late, 9000) ∷ (other, 9001) ∷ []

calls_of_test : calls_of base context calls ≡ (submission, 100) ∷ (late, 9000) ∷ []
unfolding calls_of program
calls_of_test = refl

submit_all-refines_example :
    Dict.get Context-discrete (submit_all empty calls).metrics context
    ≡ replay base (calls_of base context calls) none
unfolding Dict.get
submit_all-refines_example = submit_all-refines empty calls context

abbrev tagged : List Text
tagged = codes "host:a" ∷ codes "env:dev" ∷ codes "device:sda" ∷ codes "host:b" ∷ []

magic_of_test :
    magic_of tagged ≡ (some (codes "b"), some (codes "sda"), some (codes "env:dev" ∷ []))
unfolding last_with strip_prefix is_magic
magic_of_test = refl

extract_magic_tags-magic_of_example : extract_magic_tags (some tagged) ≡ some (magic_of tagged)
extract_magic_tags-magic_of_example = extract_magic_tags-magic_of tagged
