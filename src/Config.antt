-- ===== src/Config.antt =====
-- config.py: get_histogram_aggregates and get_histogram_percentiles, what a Histogram is given.
use dd_agent.Prelude.{
  ℕ, ◌≡◌, refl, ap, ◌∙◌, Option, none, some, List, [], ◌∷◌, ◌++◌, map, Bool, true, false, ◌==◌,
  Bool-cases, inl, inr, arith,
}
use mathlib.Core.Logic.{ite}
use dd_agent.Prelude.Text.{Text, Text-discrete, codes}
use dd_agent.Aggregator.Metric.{Aggregate, min, max, median, avg, sum, count}
use dd_agent.Aggregator.Histogram.{aggregate_name}
use dd_agent.Packet.Split.{split, join, has, trim_right, drop_spaces}
use dd_agent.Packet.Slice.{take}

-- val.strip()
abbrev strip : Text → Text
strip s = trim_right (drop_spaces s)

-- the entry of valid_values that a text is
unfoldable pub aggregate_of : Text → Option Aggregate
unfolding Text-discrete
aggregate_of val = ite (Text-discrete val (codes "min")) (some min) (
    ite (Text-discrete val (codes "max")) (some max) (
      ite (Text-discrete val (codes "median")) (some median) (
        ite (Text-discrete val (codes "avg")) (some avg) (
          ite (Text-discrete val (codes "sum")) (some sum)
            (ite (Text-discrete val (codes "count")) (some count) none)))))

-- What is no valid value is ignored.
unfoldable pub valid_aggregates : List Text → List Aggregate
unfolding aggregate_of
valid_aggregates [] = []
valid_aggregates (val ∷ vals) = elim (aggregate_of (strip val)) [
  | none ↦ valid_aggregates vals
  | some a ↦ a ∷ valid_aggregates vals
]

unfoldable pub get_histogram_aggregates : Option Text → Option (List Aggregate)
unfolding split valid_aggregates
get_histogram_aggregates none = none
get_histogram_aggregates (some configstr) = some (valid_aggregates (split b',' configstr))

-- `float` is Python's float(), and `in_range` its test of a number, 0 < x < 1.
module _ {F : Type 0} (float : Text → Option F) (in_range : F → Bool) where
  -- A ValueError skips the value; the number that is kept is that of the first four characters.
  unfoldable pub valid_percentiles : List Text → List F
  valid_percentiles [] = []
  valid_percentiles (val ∷ vals) = elim (float (strip val)) [
    | none ↦ valid_percentiles vals
    | some x ↦ elim (in_range x) [
      | false ↦ valid_percentiles vals
      | true ↦ elim (float (take 4 (strip val))) [
        | none ↦ valid_percentiles vals
        | some y ↦ y ∷ valid_percentiles vals
      ]
    ]
  ]

  unfoldable pub get_histogram_percentiles : Option Text → Option (List F)
  unfolding split valid_percentiles
  get_histogram_percentiles none = none
  get_histogram_percentiles (some configstr) = some (valid_percentiles (split b',' configstr))

split_alone : (c : ℕ) (t : Text) → has c t ≡ false → split c t ≡ t ∷ []
unfolding split has
split_alone c [] h = refl
split_alone c (d ∷ ds) h = elim (Bool-cases (d == c)) [
  | inl here ↦ absurd (clash (rw here at h))
  | inr other ↦ rw (other, split_alone c ds (rw other at h))
]
  where
    clash : true ≡ false → ⊥
    clash e = cc

split_first : (c : ℕ) (t rest : Text) → has c t ≡ false → split c (t ++ c ∷ rest) ≡ t ∷ split c rest
unfolding split has
split_first c [] rest h = ground arith
split_first c (d ∷ ds) rest h = elim (Bool-cases (d == c)) [
  | inl here ↦ absurd (clash (rw here at h))
  | inr other ↦ rw (other, split_first c ds rest (rw other at h))
]
  where
    clash : true ≡ false → ⊥
    clash e = cc

name-no_comma : (a : Aggregate) → has b',' (aggregate_name a) ≡ false
unfolding has
name-no_comma min = refl
name-no_comma max = refl
name-no_comma median = refl
name-no_comma avg = refl
name-no_comma sum = refl
name-no_comma count = refl

aggregate_of-name : (a : Aggregate) → aggregate_of (strip (aggregate_name a)) ≡ some a
unfolding aggregate_of
aggregate_of-name min = refl
aggregate_of-name max = refl
aggregate_of-name median = refl
aggregate_of-name avg = refl
aggregate_of-name sum = refl
aggregate_of-name count = refl

valid_names :
    (a : Aggregate) (vals : List Text)
    → valid_aggregates (aggregate_name a ∷ vals) ≡ a ∷ valid_aggregates vals
unfolding valid_aggregates
valid_names a vals = rw (aggregate_of-name a, valid_aggregates)

split_names :
    (a : Aggregate) (more : List Aggregate)
    → split b',' (join b',' (map aggregate_name (a ∷ more))) ≡ map aggregate_name (a ∷ more)
unfolding join
split_names a [] = split_alone b',' (aggregate_name a) (name-no_comma a)
split_names a (b ∷ bs) =
    split_first b',' (aggregate_name a) (join b',' (map aggregate_name (b ∷ bs))) (name-no_comma a)
    ∙ ap (◌∷◌ (aggregate_name a)) (split_names b bs)

valid_aggregates-names : (more : List Aggregate) → valid_aggregates (map aggregate_name more) ≡ more
unfolding valid_aggregates
valid_aggregates-names [] = refl
valid_aggregates-names (a ∷ more) =
    valid_names a (map aggregate_name more) ∙ ap (◌∷◌ a) (valid_aggregates-names more)

-- Every list of one aggregate or more, with its names written out and joined by commas, is read back
-- as it is, in its order and with what it repeats.
pub get_histogram_aggregates-join :
    (a : Aggregate) (more : List Aggregate)
    → get_histogram_aggregates (some (join b',' (map aggregate_name (a ∷ more)))) ≡ some (a ∷ more)
unfolding get_histogram_aggregates
get_histogram_aggregates-join a more =
    ap (λ vals. some (valid_aggregates vals)) (split_names a more)
    ∙ ap some (valid_aggregates-names (a ∷ more))
