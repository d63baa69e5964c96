-- ===== src/Aggregator/Totals.antt =====
-- aggregator.py: what a Counter and a MonotonicCount report in total.
use dd_agent.Prelude.{
  ℕ, Option, none, some, List, [], ◌∷◌, ◌≡◌, ap, ◌∙◌, ℤ, pos, ◌+ℤ◌, ◌-ℤ◌, ◌*ℤ◌, max_ℤ, pos_part,
  neg_part, int_laws, Option-cases, inl, inr, true, false, ◌==◌, ◌/◌, if◌then◌else◌, Bool-cases,
}
use dd_agent.Aggregator.Point.{Point, whole, ratio, MetricType, api_formatter}
use dd_agent.Aggregator.Metric.{
  Labels, Kind, gauge, SampleRate, every, weight, sample_kind, counter_sample, advance, counter,
  monotonic_count, or_zero,
}
use dd_agent.Aggregator.Flush.{flush_kind}

-- The samples that a metric gets between two flushes.
unfoldable pub sample_all : Kind → List (ℤ × SampleRate) → ℕ → Option Kind
sample_all k [] now = some k
sample_all k ((v, r) ∷ xs) now = elim (sample_kind k v r none now) [
  | none ↦ none
  | some k' ↦ sample_all k' xs now
]

-- The sum of the values, each as often as the inverse of its sample rate, rounded down, says, or nothing
-- if a rate is zero.
unfoldable pub weighted_sum : List (ℤ × SampleRate) → Option ℤ
weighted_sum [] = some (pos 0)
weighted_sum ((v, r) ∷ xs) =
    let rest = weighted_sum xs in
    if r.num == 0
    then none
    else elim rest [ none ↦ none | some s ↦ some (v *ℤ pos (r.den / r.num) +ℤ s) ]

weight_zero : (r : SampleRate) → (r.num == 0) ≡ true → weight r ≡ none
unfolding weight
weight_zero r e = rw (e, weight)

weight_inverse : (r : SampleRate) → (r.num == 0) ≡ false → weight r ≡ some (r.den / r.num)
unfolding weight
weight_inverse r e = rw (e, weight)

sample_counter_none :
    (v u : ℤ) (r : SampleRate) (now : ℕ)
    → weight r ≡ none
    → sample_kind (counter v) u r none now ≡ none
unfolding sample_kind
sample_counter_none v u r now n = rw (n, sample_kind, counter_sample)

sample_counter :
    (v u : ℤ) (r : SampleRate) (now w : ℕ)
    → weight r ≡ some w
    → sample_kind (counter v) u r none now ≡ some (counter (v +ℤ u *ℤ pos w))
unfolding sample_kind
sample_counter v u r now w s = rw (s, sample_kind, counter_sample)

counter_sum :
    (v : ℤ) (xs : List (ℤ × SampleRate)) (now : ℕ)
    → sample_all (counter v) xs now
      ≡ elim (weighted_sum xs) [ none ↦ none | some s ↦ some (counter (v +ℤ s)) ]
unfolding sample_all weighted_sum
counter_sum v [] now = ap (λ u. some (counter u)) (omega int_laws)
counter_sum v ((u, r) ∷ xs) now = elim (Bool-cases (r.num == 0)) [
  | inl n ↦ rw (sample_counter_none v u r now (weight_zero r n), sample_all, n, weighted_sum)
  | inr s ↦
      rw
        (
          sample_counter v u r now (r.den / r.num) (weight_inverse r s),
          sample_all,
          s,
          weighted_sum,
          counter_sum (v +ℤ u *ℤ pos (r.den / r.num)) xs now,
        )
        (elim (Option-cases (weighted_sum xs)) [
          | inl n ↦ rw n
          | inr (t, e) ↦ rw e (ap (λ x. some (counter x)) (omega int_laws))
        ])
]

zero_add : (s : ℤ) → pos 0 +ℤ s ≡ s
zero_add s = omega int_laws

-- Whatever a Counter has been given since its last flush, if no sample rate is zero and the interval is
-- not zero its flush reports the sum of the values, each as often as the inverse of its sample rate,
-- rounded down, says, over the interval, as one point under its labels, and starts again at zero. If a
-- sample rate or the interval is zero, the samples or the flush end in a ZeroDivisionError.
pub counter_total :
    (l : Labels) (xs : List (ℤ × SampleRate)) (now timestamp interval : ℕ)
    → (elim (sample_all (counter (pos 0)) xs now) [
      | none ↦ none
      | some k ↦ flush_kind l k timestamp interval
    ])
      ≡ elim (weighted_sum xs) [
        | none ↦ none
        | some s ↦
            if interval == 0
            then none
            else some (
              l.formatter (record {
                metric = l.name;
                value = ratio s (pos interval);
                timestamp = timestamp;
                tags = l.tags;
                hostname = l.hostname;
                device_name = l.device_name;
                metric_type = some MetricType.rate;
                interval = interval;
              })
                  ∷ [],
              counter (pos 0),
            )
      ]
unfolding flush_kind
counter_total l xs now timestamp interval =
    rw counter_sum
      (elim (Option-cases (weighted_sum xs)) [ inl n ↦ rw n | inr (s, e) ↦ rw (e, zero_add s) ])

-- A sample, or a flush.
pub data Event : Type 0 where
  sampled : ℤ → Event
  flushed : Event

-- The sum of what the points report.
abbrev pub total : List Point → ℤ
total [] = pos 0
total (p ∷ ps) = elim p.points [ (t, whole v) ∷ rest ↦ v +ℤ total ps | _ ↦ total ps ]

-- What the flushes among the events report, and the metric that they leave.
unfoldable pub play : Labels → List Event → Kind → ℤ × Option Kind
play l [] k = (pos 0, some k)
play l (sampled v ∷ es) k = elim (sample_kind k v every none 0) [
  | none ↦ (pos 0, none)
  | some k' ↦ play l es k'
]
play l (flushed ∷ es) k = elim (flush_kind l k 0 1) [
  | none ↦ (pos 0, none)
  | some (ps, k') ↦ let (sum, left) = play l es k' in (total ps +ℤ sum, left)
]

-- The sum of the increases from each sample to the next, decreases counted as zero, wherever the
-- flushes stand.
abbrev pub increases : Option ℤ → List Event → ℤ
increases last [] = pos 0
increases last (flushed ∷ es) = increases last es
increases none (sampled v ∷ es) = increases (some v) es
increases (some u) (sampled v ∷ es) = max_ℤ (pos 0) (v -ℤ u) +ℤ increases (some v) es

-- what a MonotonicCount has not reported yet
abbrev pub pending : Option Kind → ℤ
pending (some (monotonic_count prev curr n)) = or_zero n
pending (some (gauge v t)) = pos 0
pending _ = pos 0

abbrev latest : Option ℤ → Option ℤ → Option ℤ
latest prev (some c) = some c
latest prev none = prev

-- A count waits only where a current sample does.
abbrev IsLive : Option ℤ → Option ℤ → Type 0
IsLive curr none = Unit
IsLive none (some n) = ⊥
IsLive (some c) (some n) = Unit

abbrev pub reporting : Labels → Labels
reporting l = record l { formatter = api_formatter }

add_swap : (a : ℤ) → pos 0 +ℤ a ≡ a +ℤ pos 0
add_swap a = omega int_laws

add_assoc : (a b c : ℤ) → a +ℤ b +ℤ c ≡ a +ℤ (b +ℤ c)
add_assoc a b c = omega int_laws

regroup : (k x y z : ℤ) → x +ℤ y ≡ pos 0 +ℤ z → k +ℤ pos 0 +ℤ x +ℤ y ≡ k +ℤ z
regroup k x y z h = omega (int_laws, ap pos_part h, ap neg_part h)

monotonic_sum :
    (l : Labels) (es : List Event) (prev curr n : Option ℤ)
    → IsLive curr n
    → (play (reporting l) es (monotonic_count prev curr n)).0
        +ℤ pending (play (reporting l) es (monotonic_count prev curr n)).1
      ≡ or_zero n +ℤ increases (latest prev curr) es
unfolding play sample_kind flush_kind advance api_formatter
monotonic_sum l [] prev curr n h = add_swap (or_zero n)
monotonic_sum l (sampled v ∷ es) prev (some c) n h =
    monotonic_sum l es (some c) (some v) _ tt
    ∙ add_assoc (or_zero n) (max_ℤ (pos 0) (v -ℤ c)) (increases (some v) es)
monotonic_sum l (sampled v ∷ es) none none none h = monotonic_sum l es none (some v) none tt
monotonic_sum l (sampled v ∷ es) none none (some k) h = absurd h
monotonic_sum l (sampled v ∷ es) (some p) none n h =
    monotonic_sum l es (some p) (some v) _ tt
    ∙ add_assoc (or_zero n) (max_ℤ (pos 0) (v -ℤ p)) (increases (some v) es)
monotonic_sum l (flushed ∷ es) prev curr none h =
    ap (λ x. x +ℤ pending (play (reporting l) es (monotonic_count prev curr none)).1)
      (zero_add (play (reporting l) es (monotonic_count prev curr none)).0)
    ∙ monotonic_sum l es prev curr none tt
monotonic_sum l (flushed ∷ es) prev none (some k) h = absurd h
monotonic_sum l (flushed ∷ es) prev (some c) (some k) h =
    regroup k (play (reporting l) es (monotonic_count (some c) none none)).0
      (pending (play (reporting l) es (monotonic_count (some c) none none)).1)
      (increases (some c) es) (monotonic_sum l es (some c) none none tt)

-- Over any sequence of samples and flushes from a new MonotonicCount with the API's formatter, what
-- its flushes report and what it has not reported yet are together the sum of the increases from each
-- sample to the next, decreases counted as zero: no increase is lost or reported twice, wherever the
-- flushes stand.
pub monotonic_total :
    (l : Labels) (es : List Event)
    → let end = play (reporting l) es (monotonic_count none none none) in
      end.0 +ℤ pending end.1 ≡ increases none es
monotonic_total l es = monotonic_sum l es none none none tt ∙ zero_add (increases none es)
