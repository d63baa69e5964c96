-- ===== src/Dogstream/Aggregation.antt =====
-- checks/datadog.py, Dogstream._aggregate: what it reports.
use dd_agent.Prelude.{pos, ◌≡◌, refl, List, [], ◌∷◌, Option, none, some}
use dd_agent.Dogstream.Order.{IsOrder, int_order, text_order, option_order, pair_order}
use dd_agent.Dogstream.Groups.{
  Value, Key, point_sorter, lt_key, Floats, groups_of, Output, summaries, aggregate,
}
use dd_agent.Dogstream.Grouping.{group_at, with_key, IsIncreasing, groups_of-with_key}
use dd_agent.Aggregator.Base.{lt_text}

pub key_order : IsOrder lt_key
key_order = pair_order _ _ int_order (
    pair_order _ _ text_order
      (pair_order _ _ (option_order lt_text text_order) (option_order lt_text text_order)))

module _ (fs : Floats) where
  abbrev pub reported : List (Output fs) → Option (List (Output fs))
  reported [] = none
  reported (o ∷ os) = some (o ∷ os)

  -- _aggregate reports the summary of each group of points, one group after the other, and nothing
  -- for no points. The keys of the groups, timestamp, metric, host and device, increase, so no two
  -- groups have one key, and the group of a key is all points with this key in the order in which
  -- they were parsed.
  pub aggregate-groups :
      (values : List (Value fs.Float))
      → (gs : List (Key × List (Value fs.Float))) × (aggregate fs values
          ≡ reported (summaries fs gs))
        × IsIncreasing lt_key point_sorter key_order gs
        × ((k : Key)
            → group_at lt_key point_sorter key_order k gs
              ≡ with_key lt_key point_sorter key_order k values)
  unfolding aggregate
  aggregate-groups values = (
    groups_of lt_key point_sorter values,
    reported_lem (summaries fs (groups_of lt_key point_sorter values)),
    (groups_of-with_key lt_key point_sorter key_order values (pos 0, ([], (none, none)))).1,
    λ k. (groups_of-with_key lt_key point_sorter key_order values k).0,
  )
    where
      reported_lem :
          (os : List (Output fs))
          → (elim os [ [] ↦ none | o ∷ rest ↦ some (o ∷ rest) ]) ≡ reported os
      reported_lem [] = refl
      reported_lem (o ∷ os) = refl
