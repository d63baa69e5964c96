-- ===== src/Dogstream/Kept.antt =====
-- checks/datadog.py, Dogstream._line_parser: what is true of all points and events that it keeps.
use mathlib.Core.Path.{subst}
use dd_agent.Prelude.{
  ℕ, ◌+◌, ◌*◌, ◌/◌, ◌==◌, ◌≡◌, ◌≢◌, ◌⊎◌, inl, inr, refl, sym, ap, ◌∙◌, ℤ, pos, negsuc, Option, none,
  some, List, [], ◌∷◌, Bool, true, All, All-append, Option-cases, Bool-cases, some_injective,
}
use dd_agent.Prelude.Text.{codes}
use dd_agent.Dogstream.Groups.{Value}
use dd_agent.Dogstream.Parser.{
  Event, Datum, event, metric, other, Parsed, nothing, items, raised, Conversions, Dogstream,
  or_this, object_of, filled, complete, bucket, parse_datum, parse_data, line_parser, parse_lines,
}

-- An event has a title or a text, and all other fields; its two names for the object agree.
pub record IsComplete (e : Event) : Type 0 where
  pub text : (e.msg_title ≢ none) ⊎ (e.msg_text ≢ none)
  pub type : e.event_type ≢ none
  pub time : e.timestamp ≢ none
  pub object : e.event_object ≢ none
  pub synonyms : e.event_object ≡ e.aggregation_key

is_some : {A : Type 0} (o : Option A) (a : A) → o ≡ some a → o ≢ none
is_some o a e n = cc

or_this_some : {A : Type 0} (o : Option A) (a : A) → or_this o a ≢ none
or_this_some none a e = cc
or_this_some (some b) a e = cc

object_of_some : (e : Event) → object_of e ≢ none
object_of_some e h = elim (Option-cases e.event_object) [
  | inr (o, given) ↦ is_some (object_of e) o (rw given refl) h
  | inl missing ↦
      or_this_some e.aggregation_key (codes "dogstream_event:default") (sym (rw missing refl) ∙ h)
]

filled-IsComplete :
    (now : ℕ) (e : Event) → (e.msg_title ≢ none) ⊎ (e.msg_text ≢ none) → IsComplete (filled now e)
filled-IsComplete now e h = record {
  text = h;
  type = or_this_some e.event_type (codes "dogstream_event");
  time = or_this_some e.timestamp now;
  object = object_of_some e;
  synonyms = refl;
}

filled_lem :
    (now : ℕ) (e e' : Event)
    → (e.msg_title ≢ none) ⊎ (e.msg_text ≢ none)
    → complete now e ≡ some (filled now e)
    → complete now e ≡ some e'
    → IsComplete e'
filled_lem now e e' h fills gives =
    subst IsComplete (some_injective (sym fills ∙ gives)) (filled-IsComplete now e h)

complete-IsComplete : (now : ℕ) (e e' : Event) → complete now e ≡ some e' → IsComplete e'
unfolding complete
complete-IsComplete now e e' h = elim (Option-cases e.msg_title) [
  | inr (t, titled) ↦
      filled_lem now e e' (inl (is_some e.msg_title t titled)) (simp (titled, complete) refl) h
  | inl untitled ↦ elim (Option-cases e.msg_text) [
    | inl no_text ↦ nothing_kept (sym (simp (untitled, no_text, complete) refl) ∙ h)
    | inr (t, text) ↦
        filled_lem now e e' (inr (is_some e.msg_text t text)) (simp (untitled, text, complete) refl)
          h
  ]
]
  where
    nothing_kept : none ≡ some e' → IsComplete e'
    nothing_kept x = cc

-- A point stands at the start of an interval, which has a date.
abbrev pub IsBucketed : {F : Type 0} → (ℕ → Bool) → ℕ → Value F → Type 0
IsBucketed is_date freq v = (q : ℕ) × (v.timestamp ≡ pos (q * freq)) × (is_date (q * freq) ≡ true)

no_bucket : {A : Type 0} {t : ℕ} → none ≡ some t → A
no_bucket e = cc

bucket_lem :
    (is_date : ℕ → Bool) (freq : ℕ) (ts : Option ℤ) (t : ℕ)
    → bucket is_date freq ts ≡ some t
    → (q : ℕ) × (t ≡ q * freq) × (is_date (q * freq) ≡ true)
unfolding bucket
bucket_lem is_date freq none t h = cc
bucket_lem is_date freq (some (negsuc n)) t h = cc
bucket_lem is_date freq (some (pos n)) t h = elim (Bool-cases (freq == 0)) [
  | inl e ↦ no_bucket (sym (rw (e, bucket) refl) ∙ h)
  | inr e ↦ elim (Bool-cases (is_date (n / freq * freq))) [
    | inl d ↦ (n / freq, some_injective (sym h ∙ rw (e, bucket) (rw d refl)), d)
    | inr d ↦ no_bucket (sym (rw (e, bucket) (rw d refl)) ∙ h)
  ]
]

module _ {R F : Type 0} (conv : Conversions R F) (freq : ℕ) where
  -- All that is kept is complete, and the interval stays the same.
  pub record IsKept (d : Dogstream F) : Type 0 where
    pub interval : d.freq ≡ freq
    pub events : All IsComplete d.events
    pub values : All (IsBucketed conv.is_date freq) d.values

  parse_datum-IsKept :
      (now : ℕ) (d : Dogstream F) (x : Datum R) → IsKept d → IsKept (parse_datum conv now d x)
  unfolding parse_datum
  parse_datum-IsKept now d (event e) h = elim (Option-cases (complete now e)) [
    | inl n ↦ rw (n, parse_datum) h
    | inr (e', c) ↦
        rw (c, parse_datum)
          (record {
            interval = h.interval;
            events =
                All-append IsComplete d.events (e' ∷ []) h.events
                  (complete-IsComplete now e e' c, tt);
            values = h.values;
          })
  ]
  parse_datum-IsKept now d (metric name ts v attributes) h =
      elim (Option-cases (bucket conv.is_date d.freq (conv.int_of ts))) [
        | inl n ↦ rw (n, parse_datum) h
        | inr (t, b) ↦ elim (Option-cases (conv.float_of v)) [
          | inl n ↦ rw (b, parse_datum) (rw n h)
          | inr (x, f) ↦
              let (q, at, dated) = bucket_lem conv.is_date d.freq (conv.int_of ts) t b in
              rw (b, parse_datum)
                (rw f (record {
                  interval = h.interval;
                  events = h.events;
                  values = All-append (IsBucketed conv.is_date freq) d.values _ h.values (
                    (
                      q,
                      ap pos (at ∙ ap (λ f. q * f) h.interval),
                      subst (λ f. conv.is_date (q * f) ≡ true) h.interval dated,
                    ),
                    tt,
                  );
                }))
        ]
      ]
  parse_datum-IsKept now d other h = h

  parse_data-IsKept :
      (now : ℕ) (d : Dogstream F) (xs : List (Datum R))
      → IsKept d
      → IsKept (parse_data conv now d xs)
  unfolding parse_data
  parse_data-IsKept now d [] h = h
  parse_data-IsKept now d (x ∷ xs) h =
      parse_data-IsKept now (parse_datum conv now d x) xs (parse_datum-IsKept now d x h)

  line_parser-IsKept :
      (now : ℕ) (d : Dogstream F) (p : Parsed R) → IsKept d → IsKept (line_parser conv now d p)
  unfolding line_parser
  line_parser-IsKept now d nothing h = record {
    interval = h.interval;
    events = h.events;
    values = h.values;
  }
  line_parser-IsKept now d (items xs) h =
      parse_data-IsKept now (record d { line_count = d.line_count + 1 }) xs
        (record { interval = h.interval; events = h.events; values = h.values })
  line_parser-IsKept now d raised h = record {
    interval = h.interval;
    events = h.events;
    values = h.values;
  }

  -- Whatever the parser returns for the lines of a check, or raises, and whatever the conversions make
  -- of it: every event that is kept has a title or a text and all default fields, with one value for
  -- event_object and aggregation_key, and every point stands at a multiple of the interval that is
  -- a date after 1990.
  pub parse_lines-IsKept :
      (now : ℕ) (d : Dogstream F) (ps : List (Parsed R))
      → IsKept d
      → IsKept (parse_lines conv now d ps)
  unfolding parse_lines
  parse_lines-IsKept now d [] h = h
  parse_lines-IsKept now d (p ∷ ps) h =
      parse_lines-IsKept now (line_parser conv now d p) ps (line_parser-IsKept now d p h)
