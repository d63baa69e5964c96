-- ===== src/Aggregator/Histogram.antt =====
-- aggregator.py, Histogram.flush.
use dd_agent.Prelude.{
  ℕ, zero, suc, ◌+◌, ◌*◌, ◌-◌, ◌/◌, ◌%◌, Option, none, some, List, [], ◌∷◌, ◌++◌, ℤ, pos, negsuc,
  ◌+ℤ◌, ltb_ℤ, Bool, true, false, if◌then◌else◌, ◌==◌, ltb, leb, ◌||◌, length, get_elem?,
}
use dd_agent.Prelude.Text.{Text, codes}
use dd_agent.Prelude.Sort.{sort}
use dd_agent.Aggregator.Point.{Point, Reported, whole, ratio, MetricType}
use dd_agent.Aggregator.Metric.{
  Labels, Percentile, Aggregate, min, max, median, avg, sum, count, report,
}

-- int(round(num / den)) of Python 2, which rounds half away from zero; the quotient is a / den
unfoldable pub round_quotient : ℕ → ℕ → ℕ → ℤ
round_quotient plus minus den =
    if leb minus plus
    then pos ((2 * (plus - minus) + den) / (2 * den))
    else (let n = (2 * (minus - plus) + den) / (2 * den) in
        if n == 0 then pos 0 else negsuc (n - 1))

-- samples[i], from the end where i is negative, or IndexError
unfoldable pub index : List ℤ → ℤ → Option ℤ
index xs (pos i) = get_elem? xs i
index xs (negsuc i) = if ltb i (length xs) then get_elem? xs (length xs - suc i) else none

abbrev pub sum_of : List ℤ → ℤ
sum_of [] = pos 0
sum_of (x ∷ xs) = x +ℤ sum_of xs

-- int(round(length/2 - 1))
abbrev pub median_index : ℕ → ℤ
median_index length = if length / 2 == 0 then negsuc 0 else pos (length / 2 - 1)

-- int(round(p * length - 1))
abbrev pub percentile_index : Percentile → ℕ → ℤ
percentile_index p length = round_quotient (p.num * length) p.den p.den

abbrev pub aggregate_name : Aggregate → Text
aggregate_name min = codes "min"
aggregate_name max = codes "max"
aggregate_name median = codes "median"
aggregate_name avg = codes "avg"
aggregate_name sum = codes "sum"
aggregate_name count = codes "count"

abbrev pub same_aggregate : Aggregate → Aggregate → Bool
same_aggregate min min = true
same_aggregate max max = true
same_aggregate median median = true
same_aggregate avg avg = true
same_aggregate sum sum = true
same_aggregate count count = true
same_aggregate _ _ = false

-- agg_name in self.aggregates
abbrev pub selected : Aggregate → List Aggregate → Bool
selected a [] = false
selected a (b ∷ bs) = same_aggregate a b || selected a bs

abbrev pub all_aggregates : List Aggregate
all_aggregates = min ∷ max ∷ median ∷ avg ∷ sum ∷ count ∷ []

-- The value and the type of an aggregate of the sorted samples, where `n` is self.count; `none` is an
-- IndexError or, for an interval of zero, the ZeroDivisionError.
unfoldable pub aggregate_value : Aggregate → List ℤ → ℕ → ℕ → Option (Reported × MetricType)
unfolding index
aggregate_value min xs n interval = elim (index xs (pos 0)) [
  | none ↦ none
  | some v ↦ some (whole v, MetricType.gauge)
]
aggregate_value max xs n interval = elim (index xs (negsuc 0)) [
  | none ↦ none
  | some v ↦ some (whole v, MetricType.gauge)
]
aggregate_value median xs n interval = elim (index xs (median_index (length xs))) [
  | none ↦ none
  | some v ↦ some (whole v, MetricType.gauge)
]
aggregate_value avg xs n interval = some (ratio (sum_of xs) (pos (length xs)), MetricType.gauge)
aggregate_value sum xs n interval = some (whole (sum_of xs), MetricType.gauge)
aggregate_value count xs n interval =
    if interval == 0 then none else some (ratio (pos n) (pos interval), MetricType.rate)

-- Decimal digits, with fuel.
unfoldable pub digits : ℕ → ℕ → Text → Text
digits zero n acc = acc
digits (suc f) n acc =
    let rest = digits f (n / 10) ((48 + n % 10) ∷ acc) in if ltb n 10 then (48 + n) ∷ acc else rest

abbrev pub decimal : ℕ → Text
decimal n = digits (suc n) n []

-- '%s.%spercentile' % (self.name, int(p * 100))
abbrev pub percentile_name : Text → Percentile → Text
percentile_name name p = name ++ codes "." ++ decimal (p.num * 100 / p.den) ++ codes "percentile"

infixl 5 ◌>>=◌
abbrev pub ◌>>=◌ : {A B : Type 0} → Option A → (A → Option B) → Option B
none >>= f = none
some a >>= f = f a

-- All values of the list `aggregators` are computed, whichever are selected.
unfoldable pub aggregate_points :
    Labels → List ℤ → ℕ → ℕ → ℕ → List Aggregate → List Aggregate → Option (List Point)
unfolding aggregate_value
aggregate_points l xs n ts interval [] aggregates = some []
aggregate_points l xs n ts interval (a ∷ more) aggregates = do
  (value, type) ← aggregate_value a xs n interval
  rest ← aggregate_points l xs n ts interval more aggregates
  let name = l.name ++ codes "." ++ aggregate_name a
  some (
      if selected a aggregates
      then report l name value type ts interval l.device_name ∷ rest
      else rest)

-- The points of percentiles have no device name.
unfoldable pub percentile_points : Labels → List ℤ → ℕ → ℕ → List Percentile → Option (List Point)
unfolding index round_quotient digits
percentile_points l xs ts interval [] = some []
percentile_points l xs ts interval (p ∷ ps) = do
  val ← index xs (percentile_index p (length xs))
  rest ← percentile_points l xs ts interval ps
  some (report l (percentile_name l.name p) (whole val) MetricType.gauge ts interval none ∷ rest)

-- The points of a flush, or `none` for an IndexError or a ZeroDivisionError.
unfoldable pub points :
    Labels → ℕ → List ℤ → List Aggregate → List Percentile → ℕ → ℕ → Option (List Point)
unfolding aggregate_points percentile_points sort
points l n samples aggregates percentiles ts interval = if n == 0 then some [] else (do
  let xs = sort ltb_ℤ samples
  metrics ← aggregate_points l xs n ts interval all_aggregates aggregates
  more ← percentile_points l xs ts interval percentiles
  some (metrics ++ more))
