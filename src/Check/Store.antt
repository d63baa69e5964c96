-- ===== src/Check/Store.antt =====
-- checks/__init__.py, class Check: its state, the declaration of metrics and save_sample; and
-- cast_metric_val of util.py. Numbers are integers, times whole seconds.
use dd_agent.Prelude.{
  ℕ, Option, none, some, List, [], ◌∷◌, ◌++◌, ℤ, Bool, true, false, not, ◌&&◌, ◌||◌, if◌then◌else◌,
  ◌==◌, length,
}
use dd_agent.Prelude.Dict.{Dict, get, put}
use dd_agent.Prelude.Text.{Text, Text-discrete}
use dd_agent.Aggregator.Base.{lt_text, or_else, sorted_tags}
use dd_agent.Prelude.Sort.{sort}
use dd_agent.Packet.Split.{int}
use native.Mathlib.Decide.{ℕ_discrete}

pub record Sample : Type 0 where
  pub timestamp : ℕ
  pub value : ℤ
  pub hostname : Option Text
  pub device_name : Option Text

-- tags and device_name
abbrev pub Key : Type 0
Key = Option (List Text) × Option Text

unfoldable pub Key-discrete : Discrete Key
unfolding Text-discrete ℕ_discrete
Key-discrete = hlevel ℕ_discrete

pub record Check : Type 0 where
  pub sample_store : Dict Text (Dict Key (List Sample))
  pub counters : Dict Text (Unit {0})

-- __init__
unfoldable pub new_check : Check
new_check = record { sample_store = []; counters = [] }

abbrev is_there {ℓ} : {A : Type ℓ} → Option A → Bool
is_there none = false
is_there (some a) = true

-- metric in self._counters, metric in self._sample_store
unfoldable pub is_counter : Check → Text → Bool
unfolding get Text-discrete
is_counter c metric = is_there (get Text-discrete c.counters metric)

unfoldable pub is_metric : Check → Text → Bool
unfolding get Text-discrete
is_metric c metric = is_there (get Text-discrete c.sample_store metric)

unfoldable pub is_gauge : Check → Text → Bool
unfolding is_counter is_metric
is_gauge c metric = is_metric c metric && not (is_counter c metric)

-- a metric's samples, replaced
abbrev pub with_entries : Check → Text → Dict Key (List Sample) → Check
with_entries c metric entries = record c {
  sample_store = put Text-discrete c.sample_store metric entries;
}

unfoldable pub counter : Check → Text → Check
unfolding put Text-discrete
counter c metric = record (with_entries c metric []) {
  counters = put Text-discrete c.counters metric tt;
}

unfoldable pub gauge : Check → Text → Check
unfolding put Text-discrete
gauge c metric = with_entries c metric []

pub data Error : Type 0 where
  check_exception nan infinity unknown_value key_error assertion_error : Error

pub data Outcome : Type 0 where
  saved : Check → Outcome
  raised : Error → Check → Outcome

-- A number, or a text that is to be read as one.
pub data Raw : Type 0 where
  number : ℤ → Raw
  text : Text → Raw

-- samples[-1:]
abbrev pub last_only : List Sample → List Sample
last_only [] = []
last_only (x ∷ []) = x ∷ []
last_only (x ∷ y ∷ ys) = last_only (y ∷ ys)

-- The samples of a counter with a new one.
abbrev pub counted : Option (List Sample) → Sample → List Sample
counted none x = x ∷ []
counted (some xs) x = last_only xs ++ x ∷ []

abbrev pub one_or_two : List Sample → Bool
one_or_two xs = length xs == 1 || length xs == 2

-- the arguments of save_sample and save_gauge
pub record Saving : Type 0 where
  pub metric : Text
  pub value : Raw
  pub timestamp : Option ℕ
  pub tags : Option (List Text)
  pub hostname : Option Text
  pub device_name : Option Text

abbrev pub key_of : Saving → Key
key_of s = (sorted_tags s.tags, s.device_name)

abbrev pub sample_of : Saving → ℤ → ℕ → Sample
sample_of s v now = record {
  timestamp = or_else s.timestamp now;
  value = v;
  hostname = s.hostname;
  device_name = s.device_name;
}

-- The samples are stored, and then their number is asserted.
unfoldable pub store_gauge : Check → Saving → Dict Key (List Sample) → ℤ → ℕ → Outcome
unfolding put Text-discrete Key-discrete sort lt_text
store_gauge c s entries v now =
    saved (with_entries c s.metric (put Key-discrete entries (key_of s) (sample_of s v now ∷ [])))

unfoldable pub store_counter : Check → Saving → Dict Key (List Sample) → ℤ → ℕ → Outcome
unfolding get put Text-discrete Key-discrete sort lt_text
store_counter c s entries v now =
    let xs = counted (get Key-discrete entries (key_of s)) (sample_of s v now) in
    let c' = with_entries c s.metric (put Key-discrete entries (key_of s) xs) in
    if one_or_two xs then saved c' else raised assertion_error c'

-- `float` is Python's float() on a text that int() does not read.
module _ (float : Text → Option ℤ) where
  -- util.py; `none` is the ValueError
  unfoldable pub cast_metric_val : Raw → Option ℤ
  unfolding int
  cast_metric_val (number n) = some n
  cast_metric_val (text s) = elim (int s) [ some n ↦ some n | none ↦ float s ]

  unfoldable pub save_sample : Check → Saving → ℕ → Outcome
  unfolding cast_metric_val store_gauge store_counter is_gauge is_counter get Text-discrete
  save_sample c s now = elim (get Text-discrete c.sample_store s.metric) [
    | none ↦ raised check_exception c
    | some entries ↦ elim (cast_metric_val s.value) [
      | none ↦ raised nan c
      | some v ↦
          if is_gauge c s.metric
          then store_gauge c s entries v now
          else if is_counter c s.metric
          then store_counter c s entries v now
          else raised check_exception c
    ]
  ]

  unfoldable pub save_gauge : Check → Saving → ℕ → Outcome
  unfolding save_sample gauge is_gauge
  save_gauge c s now = save_sample (if is_gauge c s.metric then c else gauge c s.metric) s now
