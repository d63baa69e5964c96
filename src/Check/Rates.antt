-- ===== src/Check/Rates.antt =====
-- checks/__init__.py, class Check: two samples of a counter give its rate.
use dd_agent.Prelude.{
  ℕ, ◌≡◌, refl, ap, ◌∙◌, sym, Option, none, some, List, [], ◌∷◌, ◌++◌, ℤ, Bool, true, false, arith,
}
use dd_agent.Prelude.Dict.{Dict, get, put, get-put_self}
use dd_agent.Prelude.Text.{Text, Text-discrete}
use dd_agent.Aggregator.Base.{sorted_tags}
use dd_agent.Check.Store.{
  Check, Sample, Key, Key-discrete, Saving, key_of, sample_of, counted, last_only, one_or_two,
  is_counter, is_gauge, with_entries, saved, store_counter, cast_metric_val, save_sample,
}
use dd_agent.Check.Read.{
  Rate, rated, failed, Result, ok, raised, Tags, absent, listed, rate_of, read_counter, read_key,
  key_tags, get_sample_with_timestamp,
}

last_only-snoc : (xs : List Sample) (x : Sample) → last_only (xs ++ x ∷ []) ≡ x ∷ []
last_only-snoc [] x = refl
last_only-snoc (y ∷ []) x = refl
last_only-snoc (y ∷ z ∷ zs) x = last_only-snoc (z ∷ zs) x

last_only-counted : (o : Option (List Sample)) (x : Sample) → last_only (counted o x) ≡ x ∷ []
last_only-counted none x = refl
last_only-counted (some xs) x = last_only-snoc (last_only xs) x

one_or_two-counted : (o : Option (List Sample)) (x : Sample) → one_or_two (counted o x) ≡ true
one_or_two-counted none x = refl
one_or_two-counted (some xs) x = go xs
  where
    go : (xs : List Sample) → one_or_two (last_only xs ++ x ∷ []) ≡ true
    go [] = refl
    go (y ∷ []) = refl
    go (y ∷ z ∷ zs) = go (z ∷ zs)

-- The store of a counter after a new sample.
abbrev after_save : Check → Saving → Dict Key (List Sample) → ℤ → ℕ → Check
after_save c s entries v now = with_entries c s.metric (
    put Key-discrete entries (key_of s)
      (counted (get Key-discrete entries (key_of s)) (sample_of s v now)))

store_counter_lem :
    (c : Check) (s : Saving) (entries : Dict Key (List Sample)) (v : ℤ) (now : ℕ)
    → store_counter c s entries v now ≡ saved (after_save c s entries v now)
unfolding store_counter
store_counter_lem c s entries v now =
    rw (one_or_two-counted (get Key-discrete entries (key_of s)) (sample_of s v now)) refl

is_gauge-counter :
    (c : Check) (metric : Text) → is_counter c metric ≡ true → is_gauge c metric ≡ false
unfolding is_gauge
is_gauge-counter c metric h = ground (arith, h)

-- save_sample of a declared counter and a value that can be read returns: no assertion fails.
save_sample_lem :
    (float : Text → Option ℤ) (c : Check) (s : Saving) (now : ℕ) (entries : Dict Key (List Sample))
    (v : ℤ)
    → get Text-discrete c.sample_store s.metric ≡ some entries
    → is_counter c s.metric ≡ true
    → cast_metric_val float s.value ≡ some v
    → save_sample float c s now ≡ saved (after_save c s entries v now)
unfolding save_sample
save_sample_lem float c s now entries v found counts read =
    rw (found, read, is_gauge-counter c s.metric counts, counts, save_sample)
      (store_counter_lem c s entries v now)

-- what a read gives, without the store that it leaves
abbrev pub read_as_rate : Result → Rate
read_as_rate (ok r c) = rated r
read_as_rate (raised e) = failed e

-- the tags of a save, as they are passed to a read
abbrev pub as_tags : Option (List Text) → Tags
as_tags none = absent
as_tags (some ts) = listed ts

key_tags-as_tags : (tags : Option (List Text)) → key_tags (as_tags tags) ≡ sorted_tags tags
unfolding key_tags
key_tags-as_tags none = refl
key_tags-as_tags (some ts) = refl

read_counter_two :
    (c : Check) (metric : Text) (entries : Dict Key (List Sample)) (key : Key) (expire : Bool)
    (x y : Sample) (r : Rate)
    → rate_of x y ≡ r
    → read_as_rate (read_counter c metric entries key expire (x ∷ y ∷ [])) ≡ r
unfolding read_counter
read_counter_two c metric entries key expire x y (rated r) e = rw (e, read_counter)
read_counter_two c metric entries key expire x y (failed f) e = rw (e, read_counter)

read_two :
    (c : Check) (metric : Text) (entries : Dict Key (List Sample)) (key : Key) (expire : Bool)
    (x y : Sample)
    → get Text-discrete c.sample_store metric ≡ some entries
    → get Key-discrete entries key ≡ some (x ∷ y ∷ [])
    → is_counter c metric ≡ true
    → read_as_rate (read_key c metric key expire) ≡ rate_of x y
unfolding read_key
read_two c metric entries key expire x y found samples counts =
    rw (found, samples, counts, read_key)
      (read_counter_two c metric entries key expire x y (rate_of x y) refl)

counted_twice :
    (o : Option (List Sample)) (x y : Sample) → counted (some (counted o x)) y ≡ x ∷ y ∷ []
counted_twice o x y = ap (λ xs. xs ++ y ∷ []) (last_only-counted o x)

-- The entries of a counter after a save, and those after another save under the same key.
abbrev entries_after : Dict Key (List Sample) → Saving → ℤ → ℕ → Dict Key (List Sample)
entries_after entries s v now =
    put Key-discrete entries (key_of s)
      (counted (get Key-discrete entries (key_of s)) (sample_of s v now))

get-entries_after :
    (entries : Dict Key (List Sample)) (s : Saving) (v : ℤ) (now : ℕ)
    → get Key-discrete (entries_after entries s v now) (key_of s)
      ≡ some (counted (get Key-discrete entries (key_of s)) (sample_of s v now))
get-entries_after entries s v now = get-put_self Key-discrete entries (key_of s) _

get-two_saves :
    (entries : Dict Key (List Sample)) (s t : Saving) (v w : ℤ) (now later : ℕ)
    → key_of t ≡ key_of s
    → get Key-discrete (entries_after (entries_after entries s v now) t w later) (key_of s)
      ≡ some (sample_of s v now ∷ sample_of t w later ∷ [])
get-two_saves entries s t v w now later same =
    ap (get Key-discrete (entries_after (entries_after entries s v now) t w later)) (sym same)
    ∙ get-entries_after (entries_after entries s v now) t w later
    ∙ ap (λ o. some (counted o (sample_of t w later)))
        (ap (get Key-discrete (entries_after entries s v now)) same
          ∙ get-entries_after entries s v now)
    ∙ ap some (
        counted_twice (get Key-discrete entries (key_of s)) (sample_of s v now)
          (sample_of t w later))

-- Two saves of a declared counter under the same tags and device, of values that can be read, return;
-- a read with these tags, as a list or none, then gives the rate of the two samples, or the exception
-- that their rate is, whatever was stored before and whether the read deletes the older sample or not.
pub rate_of_saves :
    (float : Text → Option ℤ) (c : Check) (s t : Saving) (now later : ℕ)
    (entries : Dict Key (List Sample)) (v w : ℤ) (expire : Bool)
    → get Text-discrete c.sample_store s.metric ≡ some entries
    → is_counter c s.metric ≡ true
    → t.metric ≡ s.metric
    → key_of t ≡ key_of s
    → cast_metric_val float s.value ≡ some v
    → cast_metric_val float t.value ≡ some w
    → (c' : Check) × (c'' : Check) × (save_sample float c s now ≡ saved c')
      × (save_sample float c' t later ≡ saved c'')
      × (read_as_rate (get_sample_with_timestamp c'' s.metric (as_tags s.tags) s.device_name expire)
          ≡ rate_of (sample_of s v now) (sample_of t w later))
unfolding get_sample_with_timestamp is_counter
rate_of_saves float c s t now later entries v w expire found counts same_metric same_key first
      second =
    let c' = after_save c s entries v now in
    let entries' = entries_after entries s v now in
    let c'' = after_save c' t entries' w later in
    let stored : get Text-discrete c'.sample_store s.metric ≡ some entries' =
      get-put_self Text-discrete c.sample_store s.metric entries' in
    let stored' : get Text-discrete c''.sample_store s.metric
        ≡ some (entries_after entries' t w later) =
      rw same_metric
        (get-put_self Text-discrete c'.sample_store s.metric (entries_after entries' t w later)) in
    (
      c',
      c'',
      save_sample_lem float c s now entries v found counts first,
      save_sample_lem float c' t later entries' w (rw same_metric stored) (rw same_metric counts)
          second,
      rw (key_tags-as_tags s.tags) (
          read_two c'' s.metric (entries_after entries' t w later) (key_of s) expire
            (sample_of s v now) (sample_of t w later) stored'
            (get-two_saves entries s t v w now later same_key) counts),
    )
