-- ===== src/Dogstream/Groups.antt =====
-- checks/datadog.py, Dogstream._aggregate: the points of a check are sorted and put in groups.
use dd_agent.Prelude.{
  ℕ, ℤ, Option, none, some, List, [], ◌∷◌, map, Bool, true, false, leb, ltb_ℤ, ◌&&◌, ◌||◌, not,
  ◌++◌, if◌then◌else◌, ◌+◌,
}
use dd_agent.Prelude.Dict.{Dict, get, put}
use dd_agent.Prelude.Text.{Text, Text-discrete, codes}
use dd_agent.Prelude.Sort.{sort}
use dd_agent.Aggregator.Base.{lt_text}
use dd_agent.Dogstream.Order.{lt_option, lt_pair}

-- (metric, timestamp, value, attributes)
pub record Value (F : Type 0) : Type 0 where
  pub metric : Text
  pub timestamp : ℤ
  pub value : F
  pub attributes : Dict Text Text

abbrev pub attribute : {F : Type 0} → Text → Value F → Option Text
attribute name v = get Text-discrete v.attributes name

-- timestamp, metric, host_name, device_name
abbrev pub Key : Type 0
Key = ℤ × (Text × (Option Text × Option Text))

-- point_sorter
abbrev pub point_sorter : {F : Type 0} → Value F → Key
point_sorter v =
    (v.timestamp, (v.metric, (attribute (codes "host_name") v, attribute (codes "device_name") v)))

abbrev pub lt_key : Key → Key → Bool
lt_key = lt_pair ltb_ℤ (lt_pair lt_text (lt_pair (lt_option lt_text) (lt_option lt_text)))

-- itertools.groupby: runs of elements with one key, which are equal if neither is below the other.
module _ {K V : Type 0} (lt : K → K → Bool) (key : V → K) where
  abbrev pub same : K → K → Bool
  same j k = not (lt j k || lt k j)

  abbrev pub add_to_groups : V → List (K × List V) → List (K × List V)
  add_to_groups v [] = (key v, v ∷ []) ∷ []
  add_to_groups v ((k, g) ∷ gs) =
      if same (key v) k then (k, v ∷ g) ∷ gs else (key v, v ∷ []) ∷ (k, g) ∷ gs

  unfoldable pub group_by : List V → List (K × List V)
  group_by [] = []
  group_by (v ∷ vs) = add_to_groups v (group_by vs)

  -- values.sort(key=...) and groupby(values, key=...)
  unfoldable pub groups_of : List V → List (K × List V)
  unfolding sort group_by
  groups_of vs = group_by (sort (λ v w. lt (key v) (key w)) vs)

-- float() and +, which keep to floats
pub record Floats : Type 1 where
  pub Float : Type 0
  pub zero : Float
  pub add : Float → Float → Float

-- d.update(a)
abbrev pub update : Dict Text Text → Dict Text Text → Dict Text Text
update d [] = d
update d ((k, v) ∷ a) = update (put Text-discrete d k v) a

abbrev lower : ℕ → ℕ
lower c = if leb b'A' c && leb c b'Z' then c + 32 else c

module _ (fs : Floats) where
  open fs use {Float, add}

  -- (metric, timestamp, val, attributes)
  abbrev pub Output : Type 0
  Output = Value Float

  -- sum(vals), from the left
  unfoldable pub sum : Float → List (Value Float) → Float
  sum x [] = x
  sum x (v ∷ vs) = sum (add x v.value) vs

  -- vals[-1]
  unfoldable pub last_value : Float → List (Value Float) → Float
  last_value x [] = x
  last_value x (v ∷ vs) = last_value v.value vs

  unfoldable pub attributes_of : Dict Text Text → List (Value Float) → Dict Text Text
  attributes_of d [] = d
  attributes_of d (v ∷ vs) = attributes_of (update d v.attributes) vs

  -- str(attributes.get('metric_type', '')).lower() == 'counter'
  abbrev pub is_counter : Dict Text Text → Bool
  is_counter d = elim (get Text-discrete d (codes "metric_type")) [
    | none ↦ false
    | some t ↦ elim (Text-discrete (map lower t) (codes "counter")) [
      | Dec.yes _ ↦ true
      | Dec.no _ ↦ false
    ]
  ]

  -- The output for a group: none where there is no value.
  unfoldable pub summary : Key → List (Value Float) → List Output
  unfolding sum last_value attributes_of
  summary k [] = []
  summary (ts, (metric, _)) (v ∷ vs) =
      let attributes = attributes_of [] (v ∷ vs) in
      record {
        metric = metric;
        timestamp = ts;
        value = if is_counter attributes then sum fs.zero (v ∷ vs) else last_value v.value vs;
        attributes = attributes;
      }
      ∷ []

  unfoldable pub summaries : List (Key × List (Value Float)) → List Output
  unfolding summary
  summaries [] = []
  summaries ((k, g) ∷ gs) = summary k g ++ summaries gs

  -- _aggregate: the value of "dogstream", which is missing if there is no output
  unfoldable pub aggregate : List (Value Float) → Option (List Output)
  unfolding groups_of summaries
  aggregate values = elim (summaries (groups_of lt_key point_sorter values)) [
    | [] ↦ none
    | o ∷ os ↦ some (o ∷ os)
  ]
