-- ===== src/Dogstream/Parser.antt =====
-- checks/datadog.py, class Dogstream: a line of a log and what is kept of it. The parser of a
-- stream and the conversions of Python are parameters.
use dd_agent.Prelude.{
  ℕ, zero, suc, ◌+◌, ◌*◌, ◌/◌, ◌==◌, ℤ, pos, negsuc, Option, none, some, List, [], ◌∷◌, ◌++◌, Bool,
  if◌then◌else◌, length,
}
use dd_agent.Prelude.Dict.{Dict, put}
use dd_agent.Prelude.Text.{Text, Text-discrete, codes}
use dd_agent.Packet.Split.{split_once, drop_spaces, trim_right}
use dd_agent.Dogstream.Groups.{Value}

-- partition(s, ' '), without the separator
abbrev pub partition : Text → Text × Text
partition s = elim (split_once b' ' s) [ none ↦ (s, []) | some (before, after) ↦ (before, after) ]

abbrev pub strip : Text → Text
strip s = trim_right (drop_spaces s)

-- The loop over the attributes. It ends at an item without '='; each turn takes a character, so the
-- length of the line bounds the turns.
unfoldable pub read_attributes : ℕ → Text → Dict Text Text → Dict Text Text
unfolding split_once put
read_attributes zero line attributes = attributes
read_attributes (suc fuel) [] attributes = attributes
read_attributes (suc fuel) (c ∷ cs) attributes =
    let (keyval, rest) = partition (strip (c ∷ cs)) in
    elim (split_once b'=' keyval) [
      | none ↦ attributes
      | some (key, val) ↦ read_attributes fuel rest (put Text-discrete attributes key val)
    ]

-- metric, timestamp, value, attributes
unfoldable pub default_line_parser : Text → Text × Text × Text × Dict Text Text
unfolding read_attributes
default_line_parser line =
    let (metric, line1) = partition (strip line) in
    let (timestamp, line2) = partition (strip line1) in
    let (value, line3) = partition (strip line2) in
    (metric, timestamp, value, read_attributes (length line3) line3 [])

-- The keys of an event that _line_parser reads or writes.
pub record Event : Type 0 where
  pub msg_title : Option Text
  pub msg_text : Option Text
  pub event_type : Option Text
  pub timestamp : Option ℕ
  pub event_object : Option Text
  pub aggregation_key : Option Text

-- An element of what a parser returns, with raw timestamps and values R.
pub data Datum (R : Type 0) : Type 0 where
  event : Event → Datum R
  metric : Text → R → R → Dict Text Text → Datum R
  other : Datum R

-- What a parser returns, or its exception.
pub data Parsed (R : Type 0) : Type 0 where
  nothing : Parsed R
  items : List (Datum R) → Parsed R
  raised : Parsed R

-- int(float(ts)), float(value), and whether the date of a timestamp is after 1990
pub record Conversions (R F : Type 0) : Type 0 where
  pub int_of : R → Option ℤ
  pub float_of : R → Option F
  pub is_date : ℕ → Bool

pub record Dogstream (F : Type 0) : Type 0 where
  pub values : List (Value F)
  pub events : List Event
  pub error_count : ℕ
  pub line_count : ℕ
  pub freq : ℕ

abbrev pub or_this : {A : Type 0} → Option A → A → Option A
or_this none a = some a
or_this (some b) a = some b

-- event_object if there is one, or else aggregation_key, or else the default
abbrev pub object_of : Event → Option Text
object_of e = elim e.event_object [
  | some o ↦ some o
  | none ↦ or_this e.aggregation_key (codes "dogstream_event:default")
]

-- An event with its default fields.
abbrev pub filled : ℕ → Event → Event
filled now e = record e {
  event_type = or_this e.event_type (codes "dogstream_event");
  timestamp = or_this e.timestamp now;
  aggregation_key = object_of e;
  event_object = object_of e;
}

-- the same, unless it has neither title nor text
unfoldable pub complete : ℕ → Event → Option Event
complete now e = elim e.msg_title [
  | some _ ↦ some (filled now e)
  | none ↦ elim e.msg_text [ none ↦ none | some _ ↦ some (filled now e) ]
]

-- (int(float(ts)) / self._freq) * self._freq; a negative one is no date after 1990
unfoldable pub bucket : (ℕ → Bool) → ℕ → Option ℤ → Option ℕ
bucket is_date freq none = none
bucket is_date freq (some (negsuc n)) = none
bucket is_date freq (some (pos n)) =
    if freq == 0 then none else if is_date (n / freq * freq) then some (n / freq * freq) else none

module _ {R F : Type 0} (conv : Conversions R F) where
  unfoldable pub parse_datum : ℕ → Dogstream F → Datum R → Dogstream F
  unfolding complete bucket
  parse_datum now d (event e) = elim (complete now e) [
    | none ↦ d
    | some e' ↦ record d { events = d.events ++ e' ∷ [] }
  ]
  parse_datum now d (metric name ts v attributes) =
      elim (bucket conv.is_date d.freq (conv.int_of ts)) [
        | none ↦ d
        | some t ↦ elim (conv.float_of v) [
          | none ↦ d
          | some x ↦ record d {
            values =
                d.values
                ++ (record { metric = name; timestamp = pos t; value = x; attributes = attributes }
                    ∷ []);
          }
        ]
      ]
  parse_datum now d other = d

  unfoldable pub parse_data : ℕ → Dogstream F → List (Datum R) → Dogstream F
  unfolding parse_datum
  parse_data now d [] = d
  parse_data now d (x ∷ xs) = parse_data now (parse_datum now d x) xs

  -- _line_parser
  unfoldable pub line_parser : ℕ → Dogstream F → Parsed R → Dogstream F
  unfolding parse_data
  line_parser now d nothing = record d { line_count = d.line_count + 1 }
  line_parser now d (items xs) = parse_data now (record d { line_count = d.line_count + 1 }) xs
  line_parser now d raised = record d { error_count = d.error_count + 1 }

  -- the calls of _line_parser by the reader of the file
  unfoldable pub parse_lines : ℕ → Dogstream F → List (Parsed R) → Dogstream F
  unfolding line_parser
  parse_lines now d [] = d
  parse_lines now d (p ∷ ps) = parse_lines now (line_parser now d p) ps
