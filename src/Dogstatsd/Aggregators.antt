-- ===== src/Dogstatsd/Aggregators.antt =====
-- aggregator.py, class MetricsBucketAggregator, as what a flush of the reporter calls.
use dd_agent.Prelude.{ℕ, none, some}
use dd_agent.Aggregator.Point.{Point}
use dd_agent.Aggregator.Base
use dd_agent.Aggregator.Base.{Event, ServiceCheck}
use dd_agent.Aggregator.Buckets
use dd_agent.Aggregator.Buckets.{BucketAggregator}
use dd_agent.Dogstatsd.Reporter.{Source}

-- The methods at a time; an exception of flush leaves the aggregator as it was here, where the code
-- has deleted some of its buckets.
unfoldable pub bucket_source : ℕ → Source
unfolding Buckets.flush_all Base.flush_events Base.flush_service_checks
bucket_source now = record {
  State = BucketAggregator;
  Point = Point;
  Event = Event;
  Check = ServiceCheck;
  flush = λ a. elim (Buckets.flush_all a now) [ none ↦ (none, a) | some (ps, a') ↦ (some ps, a') ];
  flush_events = λ a. let (b, es) = Base.flush_events a.base in (es, record a { base = b });
  flush_service_checks =
      λ a. let (b, cs) = Base.flush_service_checks a.base in (cs, record a { base = b });
  total_count = λ a. a.total_count;
}
