-- ===== src/Tests/Check.antt =====
-- checks/__init__.py, class Check: a counter that gets two samples.
use dd_agent.Prelude.{◌≡◌, refl, Option, none, some, List, [], ◌∷◌, ℤ, pos, ◌-ℤ◌, true}
use dd_agent.Prelude.Text.{Text, codes}
use dd_agent.Aggregator.Point.{ratio}
use dd_agent.Check.Store.{
  Check, Saving, Outcome, saved, number, text, new_check, counter, is_counter, save_sample,
  sample_of, cast_metric_val,
}
use dd_agent.Check.Read.{Entry, rate_of, get_sample_with_timestamp, get_metrics}
use dd_agent.Check.Normalize.{normalize, is_special, collapse}
use dd_agent.Check.Rates.{read_as_rate, as_tags, rate_of_saves}

abbrev no_float : Text → Option ℤ
no_float s = none

abbrev declared : Check
declared = record { sample_store = (codes "hits", []) ∷ []; counters = (codes "hits", tt) ∷ [] }

abbrev first : Saving
first = record {
  metric = codes "hits";
  value = number (pos 5);
  timestamp = some 10;
  tags = some (codes "b" ∷ codes "a" ∷ []);
  hostname = none;
  device_name = none;
}

abbrev second : Saving
second = record first {
  value = text (codes "25");
  timestamp = some 14;
  tags = some (codes "a" ∷ codes "b" ∷ []);
}

declared_test : counter new_check (codes "hits") ≡ declared
unfolding counter new_check
declared_test = refl

metrics_of_saved : Outcome → List Entry
metrics_of_saved (saved c) = (get_metrics c true).0
metrics_of_saved _ = []

metrics_test :
    (elim (save_sample no_float declared first 0) [
      | saved c ↦ metrics_of_saved (save_sample no_float c second 0)
      | _ ↦ []
    ])
    ≡ (record {
      metric = codes "hits";
      timestamp = 14;
      value = ratio (pos 20) (pos 4);
      tags = some (codes "a" ∷ codes "b" ∷ []);
      host_name = none;
      device_name = none;
    })
      ∷ []
unfolding metrics_of_saved get_metrics save_sample ◌-ℤ◌
metrics_test = refl

rate_of_saves_example :
    (c' : Check) × (c'' : Check) × (save_sample no_float declared first 0 ≡ saved c')
    × (save_sample no_float c' second 0 ≡ saved c'')
    × (read_as_rate (get_sample_with_timestamp c'' (codes "hits") (as_tags first.tags) none true)
        ≡ rate_of (sample_of first (pos 5) 0) (sample_of second (pos 25) 0))
unfolding is_counter cast_metric_val save_sample
rate_of_saves_example =
    rate_of_saves no_float declared first second 0 0 [] (pos 5) (pos 25) true refl refl refl refl
      refl refl

normalize_test : normalize (codes "disk [used] (in/out)._x") none ≡ codes "disk_used_in_out.x"
unfolding normalize is_special collapse
normalize_test = refl
