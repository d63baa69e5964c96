-- ===== src/Aggregator/Class.antt =====
-- aggregator.py: the constructors of the classes of metrics.
use dd_agent.Prelude.{ℕ, Option, none, some, List, [], ◌∷◌, pos}
use dd_agent.Aggregator.Metric.{Labels, Percentile, Aggregate, Kind, Metric}

-- metric_config: what a Histogram is given
pub record Config : Type 0 where
  pub aggregates : Option (List Aggregate)
  pub percentiles : Option (List Percentile)

abbrev pub default_aggregates : List Aggregate
default_aggregates = Aggregate.max ∷ Aggregate.median ∷ Aggregate.avg ∷ Aggregate.count ∷ []

abbrev pub default_percentiles : List Percentile
default_percentiles = record { num = 95; den = 100 } ∷ []

abbrev or_default {ℓ} : {A : Type ℓ} → Option A → A → A
or_default none d = d
or_default (some a) d = a

-- the classes, and __init__ of each; `now` is the clock's reading
pub data Class : Type 0 where
  gauge bucket_gauge count monotonic_count counter histogram set rate : Class

unfoldable pub new_kind : Class → Config → ℕ → Kind
new_kind gauge c now = Kind.gauge none (some now)
new_kind bucket_gauge c now = Kind.bucket_gauge none (some now)
new_kind count c now = Kind.count none
new_kind monotonic_count c now = Kind.monotonic_count none none none
new_kind counter c now = Kind.counter (pos 0)
new_kind histogram c now =
    Kind.histogram 0 [] (or_default c.aggregates default_aggregates)
      (or_default c.percentiles default_percentiles)
new_kind set c now = Kind.set []
new_kind rate c now = Kind.rate []

unfoldable pub new_metric : Class → Labels → Config → ℕ → Metric
unfolding new_kind
new_metric class l c now = record {
  labels = l;
  kind = new_kind class c now;
  last_sample_time = none;
}
