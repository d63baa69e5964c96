-- ===== src/Tests/Config.antt =====
-- config.py: a list with a blank, a repetition and a name that is not valid; and percentiles.
use dd_agent.Prelude.{◌≡◌, refl, some, [], ◌∷◌, true}
use dd_agent.Prelude.Text.{Text, codes}
use dd_agent.Aggregator.Metric.{max, avg}
use dd_agent.Config.{get_histogram_aggregates, get_histogram_percentiles}

aggregates_test :
    get_histogram_aggregates (some (codes "max, avg,mean,max")) ≡ some (max ∷ avg ∷ max ∷ [])
unfolding get_histogram_aggregates
aggregates_test = refl

-- Only the first four characters are read again.
percentiles_test :
    get_histogram_percentiles {F = Text} some (λ x. true) (some (codes "0.001, 0.95"))
    ≡ some (codes "0.00" ∷ codes "0.95" ∷ [])
unfolding get_histogram_percentiles
percentiles_test = refl
