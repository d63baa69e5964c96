-- ===== src/Check/Samples.antt =====
-- checks/__init__.py, class Check: get_sample and the samples of untagged metrics.
use dd_agent.Prelude.{Option, none, List, [], ◌∷◌, Bool}
use dd_agent.Prelude.Dict.{Dict}
use dd_agent.Prelude.Text.{Text}
use dd_agent.Aggregator.Point.{Reported}
use dd_agent.Check.Store.{Check, Sample, Key, Error}
use dd_agent.Check.Read.{Reading, ok, raised, Tags, absent, get_sample_with_timestamp}

-- a value and the store that is left, or what is raised
pub data ValueResult : Type 0 where
  value : Reported → Check → ValueResult
  error : Error → ValueResult

unfoldable pub get_sample : Check → Text → Tags → Option Text → Bool → ValueResult
unfolding get_sample_with_timestamp
get_sample c metric tags device_name expire =
    elim (get_sample_with_timestamp c metric tags device_name expire) [
      | ok r c' ↦ value r.value c'
      | raised e ↦ error e
    ]

-- The loop over the metrics: whatever is raised, the metric is left out.
unfoldable pub samples_of :
    Check → Dict Text (Dict Key (List Sample)) → Bool → Dict Text Reading × Check
unfolding get_sample_with_timestamp
samples_of c [] expire = ([], c)
samples_of c ((m, _) ∷ ms) expire = elim (get_sample_with_timestamp c m absent none expire) [
  | ok r c' ↦ let (values, left) = samples_of c' ms expire in ((m, r) ∷ values, left)
  | raised e ↦ samples_of c ms expire
]

unfoldable pub get_samples_with_timestamps : Check → Bool → Dict Text Reading × Check
unfolding samples_of
get_samples_with_timestamps c expire = samples_of c c.sample_store expire

-- the timestamps discarded
abbrev values_of : Dict Text Reading → Dict Text Reported
values_of [] = []
values_of ((m, r) ∷ rs) = (m, r.value) ∷ values_of rs

unfoldable pub get_samples : Check → Bool → Dict Text Reported × Check
unfolding get_samples_with_timestamps
get_samples c expire =
    let (values, left) = get_samples_with_timestamps c expire in (values_of values, left)
