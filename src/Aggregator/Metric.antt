-- ===== src/Aggregator/Metric.antt =====
-- aggregator.py: the classes of metrics, each a constructor of `Kind` with the fields of its own.
-- `time()` is an argument. Members of a Set are represented by integers too.
use Prim.Native.Nat.{ℕ, zero, suc, ◌+◌, ◌/◌}
use dd_agent.Prelude.{
  Option, none, some, List, [], ◌∷◌, ◌++◌, ℤ, pos, ◌+ℤ◌, ◌-ℤ◌, ◌*ℤ◌, max_ℤ, eqb_ℤ, if◌then◌else◌,
  ◌==◌,
}
use dd_agent.Prelude.Text.{Text}
use dd_agent.Aggregator.Point.{Formatter, Point, Reported, MetricType}

-- the arguments of every constructor
pub record Labels : Type 0 where
  pub formatter : Formatter
  pub name : Text
  pub tags : Option (List Text)
  pub hostname : Option Text
  pub device_name : Option Text

-- a quantile, numerator over denominator
pub record Percentile : Type 0 where
  pub num : ℕ
  pub den : ℕ

-- the entries of DEFAULT_HISTOGRAM_AGGREGATES and of the list in Histogram.flush
pub data Aggregate : Type 0 where
  min max median avg sum count : Aggregate

pub data Kind : Type 0 where
  -- value, timestamp
  gauge bucket_gauge : Option ℤ → Option ℕ → Kind
  count : Option ℤ → Kind
  -- prev_counter, curr_counter, count
  monotonic_count : Option ℤ → Option ℤ → Option ℤ → Kind
  counter : ℤ → Kind
  -- count, samples, aggregates, percentiles
  histogram : ℕ → List ℤ → List Aggregate → List Percentile → Kind
  set : List ℤ → Kind
  rate : List (ℕ × ℤ) → Kind

pub record Metric : Type 0 where
  pub labels : Labels
  pub open labels use *
  pub kind : Kind
  pub last_sample_time : Option ℕ

-- a sample rate between 0 and 1, numerator over denominator
pub record SampleRate : Type 0 where
  pub num : ℕ
  pub den : ℕ

abbrev pub every : SampleRate
every = record { num = 1; den = 1 }

-- int(1 / sample_rate), or ZeroDivisionError
unfoldable pub weight : SampleRate → Option ℕ
weight r = if r.num == 0 then none else some (r.den / r.num)

abbrev pub or_zero : Option ℤ → ℤ
or_zero none = pos 0
or_zero (some v) = v

-- set.add
unfoldable pub add : ℤ → List ℤ → List ℤ
add v [] = v ∷ []
add v (x ∷ xs) = if eqb_ℤ x v then x ∷ xs else x ∷ add v xs

-- prev, curr and count after a sample of a MonotonicCount
unfoldable pub advance : Option ℤ → Option ℤ → Option ℤ → ℤ → Kind
advance none none n value = monotonic_count none (some value) n
advance (some prev) none n value =
    monotonic_count (some prev) (some value) (some (or_zero n +ℤ max_ℤ (pos 0) (value -ℤ prev)))
advance prev (some curr) n value =
    monotonic_count (some curr) (some value) (some (or_zero n +ℤ max_ℤ (pos 0) (value -ℤ curr)))

-- Counter.sample and Histogram.sample; `none` is the ZeroDivisionError
abbrev pub counter_sample : ℤ → ℤ → SampleRate → Option Kind
counter_sample v value r = elim (weight r) [
  | none ↦ none
  | some w ↦ some (counter (v +ℤ value *ℤ pos w))
]

abbrev pub histogram_sample :
    ℕ → List ℤ → List Aggregate → List Percentile → ℤ → SampleRate → Option Kind
histogram_sample n samples aggregates percentiles value r = elim (weight r) [
  | none ↦ none
  | some w ↦ some (histogram (n + w) (samples ++ value ∷ []) aggregates percentiles)
]

-- Rate.sample
abbrev pub rate_sample : List (ℕ × ℤ) → ℤ → ℕ → Kind
rate_sample samples value now = rate (samples ++ (now, value) ∷ [])

-- sample(value, sample_rate, timestamp) of the class that the metric has
unfoldable pub sample_kind : Kind → ℤ → SampleRate → Option ℕ → ℕ → Option Kind
sample_kind (gauge _ _) value r timestamp now = some (gauge (some value) timestamp)
sample_kind (bucket_gauge _ _) value r timestamp now = some (bucket_gauge (some value) timestamp)
sample_kind (count v) value r timestamp now = some (count (some (or_zero v +ℤ value)))
sample_kind (monotonic_count prev curr n) value r timestamp now = some (advance prev curr n value)
sample_kind (counter v) value r timestamp now = counter_sample v value r
sample_kind (histogram n samples aggregates percentiles) value r timestamp now =
    histogram_sample n samples aggregates percentiles value r
sample_kind (set values) value r timestamp now = some (set (add value values))
sample_kind (rate samples) value r timestamp now = some (rate_sample samples value now)

-- sample(value, sample_rate, timestamp)
unfoldable pub sample : Metric → ℤ → SampleRate → Option ℕ → ℕ → Option Metric
sample m value r timestamp now = elim (sample_kind m.kind value r timestamp now) [
  | none ↦ none
  | some k ↦ some (record m { kind = k; last_sample_time = some now })
]

-- The report of one value under the metric's labels.
abbrev pub report : Labels → Text → Reported → MetricType → ℕ → ℕ → Option Text → Point
report l name value type timestamp interval device = l.formatter (record {
  metric = name;
  value = value;
  timestamp = timestamp;
  tags = l.tags;
  hostname = l.hostname;
  device_name = device;
  metric_type = some type;
  interval = interval;
})

-- `self.timestamp or timestamp`
abbrev pub or_time : Option ℕ → ℕ → ℕ
or_time none d = d
or_time (some zero) d = d
or_time (some (suc t)) d = suc t
