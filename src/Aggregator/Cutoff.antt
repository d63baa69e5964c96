-- ===== src/Aggregator/Cutoff.antt =====
-- aggregator.py, class MetricsBucketAggregator: which bucket a time belongs to, and which buckets a
-- flush takes.
use native.Mathlib.Decide.{ℕ_discrete}
use native.Mathlib.Nat.{mod-lt, div-add-mod, mul-mod_right}
use dd_agent.Prelude.{
  ℕ, ◌+◌, ◌-◌, ◌%◌, ◌/◌, ◌*◌, ◌≤◌, ◌<◌, ◌≡◌, Option, none, some, List, [], ◌∷◌, map, ◌||◌, ◌&&◌,
  Bool, true, false, if◌then◌else◌, ◌==◌, ==_iff, ltb, leb, arith, Bool-cases, Option-cases, inl,
  inr, refl, ap, All, ◌∙◌,
}
use dd_agent.Prelude.Dict
use dd_agent.Prelude.Dict.{Dict}
use dd_agent.Prelude.Perms.{All-perm}
use dd_agent.Prelude.Sort.{sort, sort-perm}
use dd_agent.Aggregator.Point.{Point}
use dd_agent.Aggregator.Metric.{Metric}
use dd_agent.Aggregator.Base.{Base, Context}
use dd_agent.Aggregator.Buckets.{
  BucketAggregator, calculate_bucket_start, flush_buckets, flush_bucket, create_empty_metrics,
  flush_from, close, flush_all, or_empty,
}

start-mul :
    (interval timestamp : ℕ) → timestamp - timestamp % interval ≡ interval * (timestamp / interval)
start-mul interval timestamp = omega (arith, div-add-mod timestamp interval)

-- With an interval of one second or more the bucket of a time starts at a multiple of the interval, at
-- the time or less than an interval before it.
pub calculate_bucket_start_bounds :
    (interval timestamp : ℕ)
    → 0 < interval
    → (calculate_bucket_start interval timestamp ≤ timestamp)
      × (timestamp < calculate_bucket_start interval timestamp + interval)
      × (calculate_bucket_start interval timestamp % interval ≡ 0)
unfolding calculate_bucket_start
calculate_bucket_start_bounds interval timestamp h = (
  omega arith,
  omega (arith, mod-lt timestamp h),
  ap (λ (t : ℕ). t % interval) (start-mul interval timestamp)
      ∙ mul-mod_right interval (timestamp / interval),
)

abbrev is_key : ℕ → List ℕ → Bool
is_key b [] = false
is_key b (k ∷ ks) = k == b || is_key b ks

abbrev Flushed : Type 0
Flushed = List Point × Dict ℕ (Dict Context Metric) × Dict Context ℕ

flush_buckets_due :
    (base : Base) (now cutoff k : ℕ) (ks : List ℕ) (buckets : Dict ℕ (Dict Context Metric))
    (times : Dict Context ℕ) (ps : List Point) (left : Dict ℕ (Dict Context Metric))
    (last : Dict Context ℕ)
    → ltb k cutoff ≡ true
    → flush_buckets base now cutoff (k ∷ ks) buckets times ≡ some (ps, left, last)
    → (times' : Dict Context ℕ) × (ps' : List Point) × (flush_buckets base now cutoff ks
          (Dict.remove ℕ_discrete buckets k)
          times'
        ≡ some (ps', left, last))
unfolding flush_buckets
flush_buckets_due base now cutoff k ks buckets times ps left last due h =
    elim (Option-cases
      (flush_bucket base now k (or_empty (Dict.get ℕ_discrete buckets k)) times times)) [
        | inl n ↦ absurd (never (rw (due, n, flush_buckets) at h))
        | inr ((qs, times', rest), e) ↦
            let zeros = create_empty_metrics base rest now k times' in
            elim (Option-cases
              (flush_buckets base now cutoff ks (Dict.remove ℕ_discrete buckets k) zeros.1)) [
                | inl n ↦ absurd (never (rw (due, e, n, flush_buckets) at h))
                | inr ((qs', left', last'), e') ↦
                    (zeros.1, qs', e' ∙ same_end qs' (rw (due, e, e', flush_buckets) at h))
              ]
      ]
  where
    never : ◌≡◌ {A = Option Flushed} none (some (ps, left, last)) → ⊥
    never x = cc

    same_end :
        {qs : List Point} (qs' : List Point) {left' : Dict ℕ (Dict Context Metric)}
        {last' : Dict Context ℕ}
        → ◌≡◌ {A = Option Flushed} (some (qs, left', last')) (some (ps, left, last))
        → ◌≡◌ {A = Option Flushed} (some (qs', left', last')) (some (qs', left, last))
    same_end qs' x = ground arith

flush_buckets-get :
    (base : Base) (now cutoff : ℕ) (keys : List ℕ) (buckets : Dict ℕ (Dict Context Metric))
    (times : Dict Context ℕ) (ps : List Point) (left : Dict ℕ (Dict Context Metric))
    (last : Dict Context ℕ) (b : ℕ)
    → flush_buckets base now cutoff keys buckets times ≡ some (ps, left, last)
    → Dict.get ℕ_discrete left b
      ≡ (if ltb b cutoff && is_key b keys then none else Dict.get ℕ_discrete buckets b)
unfolding flush_buckets
flush_buckets-get base now cutoff [] buckets times ps left last b h = ground (arith, h)
flush_buckets-get base now cutoff (k ∷ ks) buckets times ps left last b h =
    elim (Bool-cases (ltb k cutoff)) [
      | inr later ↦ ground (
        arith,
        flush_buckets-get base now cutoff ks buckets times ps left last b
            (rw (later, flush_buckets) at h),
        ==_iff k b,
      )
      | inl due ↦
          let (times', ps', e) =
            flush_buckets_due base now cutoff k ks buckets times ps left last due h in
          ground (
            arith,
            flush_buckets-get base now cutoff ks (Dict.remove ℕ_discrete buckets k) times' ps' left
                last b e,
            Dict.get-remove ℕ_discrete buckets k b,
            ==_iff k b,
          )
    ]

get_of_no_key :
    (d : Dict ℕ (Dict Context Metric)) (b : ℕ)
    → All (λ k. (k == b) ≡ false) (map (λ p. p.0) d)
    → Dict.get ℕ_discrete d b ≡ none
unfolding Dict.get
get_of_no_key [] b h = refl
get_of_no_key ((k, v) ∷ d) b h = ground (arith, h.0, get_of_no_key d b h.1, ==_iff k b)

All-no_key : (b : ℕ) (ks : List ℕ) → is_key b ks ≡ false → All (λ k. (k == b) ≡ false) ks
All-no_key b [] h = tt
All-no_key b (k ∷ ks) h = (ground arith, All-no_key b ks (ground arith))

buckets_left :
    (a' : BucketAggregator) (ps : List Point) (a : BucketAggregator) (qs : List Point)
    → ◌≡◌ {A = Option (List Point × BucketAggregator)} (some (qs, a)) (some (ps, a'))
    → a.metric_by_bucket ≡ a'.metric_by_bucket
buckets_left a' ps a qs x =
    let same : a ≡ a' = cc in ap (λ (r : BucketAggregator). r.metric_by_bucket) same

nothing :
    (t : Bool) (b : ℕ)
    → Dict.get {V = Dict Context Metric} ℕ_discrete [] b
      ≡ (if t then none else Dict.get ℕ_discrete [] b)
unfolding Dict.get
nothing true b = refl
nothing false b = refl

-- Every bucket is among the sorted keys.
covered :
    (d : Dict ℕ (Dict Context Metric)) (b : ℕ) (t : Bool)
    → (if t && is_key b (sort ltb (map (λ p. p.0) d)) then none else Dict.get ℕ_discrete d b)
      ≡ (if t then none else Dict.get ℕ_discrete d b)
covered d b false = refl
covered d b true = elim (Bool-cases (is_key b (sort ltb (map (λ p. p.0) d)))) [
  | inl key ↦ rw key
  | inr other ↦ rw other (
      get_of_no_key d b (
        All-perm (λ k. (k == b) ≡ false) (λ k. hlevel) (sort-perm ltb (map (λ p. p.0) d))
          (All-no_key b (sort ltb (map (λ p. p.0) d)) other)))
]

flush_from-get :
    (a a' : BucketAggregator) (now cutoff : ℕ) (d : Dict ℕ (Dict Context Metric)) (ps : List Point)
    (b : ℕ)
    → flush_from a now cutoff d ≡ some (ps, a')
    → Dict.get ℕ_discrete a'.metric_by_bucket b
      ≡ (if ltb b cutoff then none else Dict.get ℕ_discrete d b)
unfolding flush_from
flush_from-get a a' now cutoff [] ps b h =
    elim (Bool-cases (leb (a.last_flush_cutoff_time + a.interval) cutoff)) [
      | inl passed ↦ none_left (rw (passed, flush_from) at h)
      | inr early ↦ none_left (rw (early, flush_from) at h)
    ]
  where
    none_left :
        {qs : List Point} {times : Dict Context ℕ}
        → ◌≡◌ {A = Option (List Point × BucketAggregator)}
            (some (qs, close a cutoff [] times))
            (some (ps, a'))
        → Dict.get ℕ_discrete a'.metric_by_bucket b
          ≡ (if ltb b cutoff then none else Dict.get ℕ_discrete [] b)
    none_left {qs} {times} x =
        rw (← buckets_left a' ps (close a cutoff [] times) qs x) (nothing (ltb b cutoff) b)
flush_from-get a a' now cutoff (e ∷ es) ps b h =
    let d : Dict ℕ (Dict Context Metric) = e ∷ es in
    let keys = sort ltb (map (λ p. p.0) d) in
    elim (Option-cases (flush_buckets a.base now cutoff keys d a.last_sample_time_by_context)) [
      | inl n ↦ absurd (never (rw (n, flush_from) at h))
      | inr ((qs, left, last), s) ↦
          rw
            (
              ← buckets_left a' ps (close a cutoff left last) qs (rw (s, flush_from) at h),
              flush_buckets-get a.base now cutoff keys d a.last_sample_time_by_context qs left last
                  b s,
            )
            (covered d b (ltb b cutoff))
    ]
  where
    never : ◌≡◌ {A = Option (List Point × BucketAggregator)} none (some (ps, a')) → ⊥
    never x = cc

-- A flush deletes every bucket that starts before the cutoff, the start of the current bucket, and
-- leaves every other bucket as it is.
pub flush_all-get :
    (a a' : BucketAggregator) (now : ℕ) (ps : List Point) (b : ℕ)
    → flush_all a now ≡ some (ps, a')
    → Dict.get ℕ_discrete a'.metric_by_bucket b ≡ (
        if ltb b (calculate_bucket_start a.interval now)
        then none
        else Dict.get ℕ_discrete a.metric_by_bucket b)
unfolding flush_all
flush_all-get a a' now ps b h =
    flush_from-get a a' now (calculate_bucket_start a.interval now) a.metric_by_bucket ps b h
