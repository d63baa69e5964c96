-- ===== src/Check/Read.antt =====
-- checks/__init__.py, class Check: how samples are read.
use dd_agent.Prelude.{
  ℕ, Option, none, some, List, [], ◌∷◌, ◌++◌, pos, ◌-ℤ◌, sub_ℕ, eqb_ℤ, ltb_ℤ, Bool, if◌then◌else◌,
  map,
}
use dd_agent.Prelude.Dict.{Dict, get, put}
use dd_agent.Prelude.Text.{Text, Text-discrete}
use dd_agent.Prelude.Sort.{sort}
use dd_agent.Aggregator.Base.{lt_text}
use dd_agent.Aggregator.Point.{Reported, whole, ratio}
use dd_agent.Check.Store.{
  Check, Sample, Key, Key-discrete, Error, infinity, unknown_value, key_error, is_counter,
  with_entries,
}

-- the tuple that is returned; a rate keeps both sides of its quotient
pub record Reading : Type 0 where
  pub timestamp : ℕ
  pub value : Reported
  pub hostname : Option Text
  pub device_name : Option Text

pub data Result : Type 0 where
  ok : Reading → Check → Result
  raised : Error → Result

-- _rate: what it raises, or the reading
pub data Rate : Type 0 where
  rated : Reading → Rate
  failed : Error → Rate

unfoldable pub rate_of : Sample → Sample → Rate
rate_of sample1 sample2 =
    let interval = sub_ℕ sample2.timestamp sample1.timestamp in
    let delta = sample2.value -ℤ sample1.value in
    if eqb_ℤ interval (pos 0)
    then failed infinity
    else if ltb_ℤ delta (pos 0)
    then failed unknown_value
    else rated (record {
      timestamp = sample2.timestamp;
      value = ratio delta interval;
      hostname = sample2.hostname;
      device_name = sample2.device_name;
    })

-- tags as they are passed: a list is sorted and made a tuple, a tuple is taken as it is
pub data Tags : Type 0 where
  absent : Tags
  listed tupled : List Text → Tags

unfoldable pub key_tags : Tags → Option (List Text)
unfolding sort lt_text
key_tags absent = none
key_tags (listed ts) = some (sort lt_text ts)
key_tags (tupled ts) = some ts

abbrev pub reading_of : Sample → Reading
reading_of x = record {
  timestamp = x.timestamp;
  value = whole x.value;
  hostname = x.hostname;
  device_name = x.device_name;
}

-- The last sample of a metric that is no counter.
unfoldable pub read_gauge : Check → List Sample → Result
read_gauge c [] = raised unknown_value
read_gauge c (x ∷ []) = ok (reading_of x) c
read_gauge c (x ∷ y ∷ ys) = read_gauge c (y ∷ ys)

-- The rate of the last two samples of a counter; `expire` deletes all but the last.
unfoldable pub read_counter :
    Check → Text → Dict Key (List Sample) → Key → Bool → List Sample → Result
unfolding rate_of put Text-discrete Key-discrete
read_counter c metric entries key expire [] = raised unknown_value
read_counter c metric entries key expire (x ∷ []) = raised unknown_value
read_counter c metric entries key expire (x ∷ y ∷ []) = elim (rate_of x y) [
  | failed e ↦ raised e
  | rated r ↦
      ok r (if expire then with_entries c metric (put Key-discrete entries key (y ∷ [])) else c)
]
read_counter c metric entries key expire (x ∷ y ∷ z ∷ zs) =
    read_counter c metric entries key expire (y ∷ z ∷ zs)

-- A metric that is in the store is a counter or a gauge.
unfoldable pub read_key : Check → Text → Key → Bool → Result
unfolding get Text-discrete Key-discrete is_counter read_gauge read_counter
read_key c metric key expire = elim (get Text-discrete c.sample_store metric) [
  | none ↦ raised unknown_value
  | some entries ↦ elim (get Key-discrete entries key) [
    | none ↦ raised key_error
    | some xs ↦
        if is_counter c metric then read_counter c metric entries key expire xs else read_gauge c xs
  ]
]

unfoldable pub get_sample_with_timestamp : Check → Text → Tags → Option Text → Bool → Result
unfolding read_key key_tags
get_sample_with_timestamp c metric tags device_name expire =
    read_key c metric (key_tags tags, device_name) expire

-- an entry of the list of get_metrics
pub record Entry : Type 0 where
  pub metric : Text
  pub timestamp : ℕ
  pub value : Reported
  pub tags : Option (List Text)
  pub host_name : Option Text
  pub device_name : Option Text

-- `if tags`, `if hostname`: what is empty is left out
abbrev non_empty {ℓ} : {A : Type ℓ} → Option (List A) → Option (List A)
non_empty none = none
non_empty (some []) = none
non_empty (some (x ∷ xs)) = some (x ∷ xs)

abbrev pub entry_of : Text → Option (List Text) → Reading → Entry
entry_of metric tags r = record {
  metric = metric;
  timestamp = r.timestamp;
  value = r.value;
  tags = non_empty tags;
  host_name = non_empty r.hostname;
  device_name = non_empty r.device_name;
}

-- The loop over the keys of a metric: an UnknownValue skips the key, any other exception ends the loop.
unfoldable pub metrics_of : Check → Text → List Key → Bool → List Entry × Check
unfolding read_key
metrics_of c metric [] expire = ([], c)
metrics_of c metric (key ∷ keys) expire = elim (read_key c metric key expire) [
  | ok r c' ↦
      let (es, left) = metrics_of c' metric keys expire in (entry_of metric key.0 r ∷ es, left)
  | raised unknown_value ↦ metrics_of c metric keys expire
  | raised _ ↦ ([], c)
]

unfoldable pub metrics_of_all :
    Check → Dict Text (Dict Key (List Sample)) → Bool → List Entry × Check
unfolding metrics_of
metrics_of_all c [] expire = ([], c)
metrics_of_all c ((metric, entries) ∷ rest) expire =
    let (es, c') = metrics_of c metric (map (λ p. p.0) entries) expire in
    let (more, left) = metrics_of_all c' rest expire in (es ++ more, left)

unfoldable pub get_metrics : Check → Bool → List Entry × Check
unfolding metrics_of_all
get_metrics c expire = metrics_of_all c c.sample_store expire
