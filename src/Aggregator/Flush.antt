-- ===== src/Aggregator/Flush.antt =====
-- aggregator.py: the constructors and the flush of each class of metrics.
use dd_agent.Prelude.{
  ℕ, Option, none, some, List, [], ◌∷◌, ℤ, pos, ◌-ℤ◌, ltb_ℤ, eqb_ℤ, sub_ℕ, if◌then◌else◌, ◌==◌,
  length,
}
use dd_agent.Aggregator.Point.{Point, Reported, whole, ratio, MetricType}
use dd_agent.Aggregator.Metric.{
  Labels, Percentile, Aggregate, Kind, Metric, gauge, bucket_gauge, count, monotonic_count, counter,
  histogram, set, rate, report, or_time,
}
use dd_agent.Aggregator.Histogram.{points}

-- one point, with the labels of the metric
abbrev pub one : Labels → Reported → MetricType → ℕ → ℕ → List Point
one l value type timestamp interval =
    report l l.name value type timestamp interval l.device_name ∷ []

-- Rate._rate; `none` stands for the exceptions Infinity and UnknownValue, which flush catches
unfoldable pub rate_of : ℕ × ℤ → ℕ × ℤ → Option Reported
rate_of (t, v) (u, w) =
    let interval = sub_ℕ u t in
    let delta = w -ℤ v in
    if eqb_ℤ interval (pos 0)
    then none
    else if ltb_ℤ delta (pos 0)
    then none
    else some (ratio delta interval)

-- The last two samples, and samples[-1:].
abbrev pub last_two : ℕ × ℤ → ℕ × ℤ → List (ℕ × ℤ) → (ℕ × ℤ) × (ℕ × ℤ)
last_two a b [] = (a, b)
last_two a b (c ∷ cs) = last_two b c cs

unfoldable pub rate_points : Labels → Option Reported → ℕ → ℕ → List Point
rate_points l none timestamp interval = []
rate_points l (some v) timestamp interval = one l v MetricType.gauge timestamp interval

-- Gauge.flush
abbrev pub gauge_flush : Labels → Option ℤ → Option ℕ → ℕ → ℕ → List Point × Kind
gauge_flush l none t timestamp interval = ([], gauge none t)
gauge_flush l (some v) t timestamp interval =
    (one l (whole v) MetricType.gauge (or_time t timestamp) interval, gauge none t)

-- BucketGauge.flush
abbrev pub bucket_gauge_flush : Labels → Option ℤ → Option ℕ → ℕ → ℕ → List Point × Kind
bucket_gauge_flush l none t timestamp interval = ([], bucket_gauge none t)
bucket_gauge_flush l (some v) t timestamp interval =
    (one l (whole v) MetricType.gauge timestamp interval, bucket_gauge none t)

-- Count.flush
abbrev pub count_flush : Labels → Option ℤ → ℕ → ℕ → List Point × Kind
count_flush l none timestamp interval = ([], count none)
count_flush l (some v) timestamp interval =
    (one l (whole v) MetricType.count timestamp interval, count none)

-- MonotonicCount.flush
abbrev pub monotonic_flush : Labels → Option ℤ → Option ℤ → Option ℤ → ℕ → ℕ → List Point × Kind
monotonic_flush l prev curr none timestamp interval = ([], monotonic_count prev curr none)
monotonic_flush l prev curr (some n) timestamp interval =
    (one l (whole n) MetricType.count timestamp interval, monotonic_count curr none none)

-- Counter.flush; `none` is the ZeroDivisionError
abbrev pub counter_flush : Labels → ℤ → ℕ → ℕ → Option (List Point × Kind)
counter_flush l v timestamp interval =
    if interval == 0
    then none
    else some (one l (ratio v (pos interval)) MetricType.rate timestamp interval, counter (pos 0))

-- Histogram.flush; `none` is the IndexError or the ZeroDivisionError
abbrev pub histogram_flush :
    Labels → ℕ → List ℤ → List Aggregate → List Percentile → ℕ → ℕ → Option (List Point × Kind)
histogram_flush l n samples aggregates percentiles timestamp interval =
    elim (points l n samples aggregates percentiles timestamp interval) [
      | none ↦ none
      | some ps ↦ some (
        ps,
        (if n == 0
            then histogram n samples aggregates percentiles
            else histogram 0 [] aggregates percentiles),
      )
    ]

-- Set.flush
abbrev pub set_flush : Labels → List ℤ → ℕ → ℕ → List Point × Kind
set_flush l [] timestamp interval = ([], set [])
set_flush l (v ∷ vs) timestamp interval =
    (one l (whole (pos (length (v ∷ vs)))) MetricType.gauge timestamp interval, set [])

-- Rate.flush
abbrev pub rate_flush : Labels → List (ℕ × ℤ) → ℕ → ℕ → List Point × Kind
rate_flush l [] timestamp interval = ([], rate [])
rate_flush l (a ∷ []) timestamp interval = ([], rate (a ∷ []))
rate_flush l (a ∷ b ∷ cs) timestamp interval =
    let (sample1, sample2) = last_two a b cs in
    (rate_points l (rate_of sample1 sample2) timestamp interval, rate (sample2 ∷ []))

-- flush(timestamp, interval) of the class that the metric has
unfoldable pub flush_kind : Labels → Kind → ℕ → ℕ → Option (List Point × Kind)
flush_kind l (gauge v t) timestamp interval = some (gauge_flush l v t timestamp interval)
flush_kind l (bucket_gauge v t) timestamp interval =
    some (bucket_gauge_flush l v t timestamp interval)
flush_kind l (count v) timestamp interval = some (count_flush l v timestamp interval)
flush_kind l (monotonic_count prev curr n) timestamp interval =
    some (monotonic_flush l prev curr n timestamp interval)
flush_kind l (counter v) timestamp interval = counter_flush l v timestamp interval
flush_kind l (histogram n samples aggregates percentiles) timestamp interval =
    histogram_flush l n samples aggregates percentiles timestamp interval
flush_kind l (set values) timestamp interval = some (set_flush l values timestamp interval)
flush_kind l (rate samples) timestamp interval = some (rate_flush l samples timestamp interval)

unfoldable pub flush : Metric → ℕ → ℕ → Option (List Point × Metric)
flush m timestamp interval = elim (flush_kind m.labels m.kind timestamp interval) [
  | none ↦ none
  | some (ps, k) ↦ some (ps, record m { kind = k })
]
