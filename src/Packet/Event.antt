-- ===== src/Packet/Event.antt =====
-- aggregator.py, parse_event_packet. `none` is its exception: every IndexError and ValueError becomes
-- the one that says that the packet is unparseable.
use dd_agent.Prelude.{
  Option, none, some, List, [], ◌∷◌, ℤ, pos, negsuc, ◌+ℤ◌, Bool, if◌then◌else◌, ◌==◌,
}
use dd_agent.Prelude.Text.{Text}
use dd_agent.Prelude.Sort.{sort}
use dd_agent.Aggregator.Base.{lt_text}
use dd_agent.Packet.Split.{split, split_once, int}
use dd_agent.Packet.Slice.{drop, slice, slice_to, slice_from, replace, replace_from, as_unicode}

-- the dictionary `event`
pub record ParsedEvent : Type 0 where
  pub title : Text
  pub text : Text
  pub alert_type : Option Text
  pub aggregation_key : Option Text
  pub source_type_name : Option Text
  pub date_happened : Option ℤ
  pub priority : Option Text
  pub hostname : Option Text
  pub tags : Option (List Text)

-- The characters of '\\n' are a backslash and an 'n'.
unfoldable pub unescape_event_text : Text → Text
unfolding replace_from
unescape_event_text s = replace (92 ∷ b'n' ∷ []) (10 ∷ []) s

-- sorted(s.split(u',')), on a text that has to be converted
abbrev pub tags_of : Bool → Text → Option (List Text)
tags_of decoded s = elim (as_unicode decoded s) [
  | none ↦ none
  | some t ↦ some (sort lt_text (split b',' t))
]

-- One part of the metadata; an empty one is an IndexError.
unfoldable pub event_part : Bool → Text → ParsedEvent → Option ParsedEvent
unfolding int split sort lt_text
event_part decoded [] e = none
event_part decoded (c ∷ cs) e =
    let rest = drop 1 cs in
    if c == b't'
    then some (record e { alert_type = some rest })
    else if c == b'k'
    then some (record e { aggregation_key = some rest })
    else if c == b's'
    then some (record e { source_type_name = some rest })
    else if c == b'd'
    then elim (int rest) [ none ↦ none | some n ↦ some (record e { date_happened = some n }) ]
    else if c == b'p'
    then some (record e { priority = some rest })
    else if c == b'h'
    then some (record e { hostname = some rest })
    else if c == b'#'
    then elim (tags_of decoded cs) [ none ↦ none | some ts ↦ some (record e { tags = some ts }) ]
    else some e

unfoldable pub event_parts : Bool → List Text → ParsedEvent → Option ParsedEvent
unfolding event_part
event_parts decoded [] e = some e
event_parts decoded (m ∷ ms) e = elim (event_part decoded m e) [
  | none ↦ none
  | some e' ↦ event_parts decoded ms e'
]

-- title_length, text_length = name.split(','), as integers
unfoldable pub event_lengths : List Text → Option (ℤ × ℤ)
unfolding int slice_to
event_lengths (t ∷ u ∷ []) = elim (int (drop 3 t)) [
  | none ↦ none
  | some title_length ↦ elim (int (slice_to (negsuc 0) u)) [
    | none ↦ none
    | some text_length ↦ some (title_length, text_length)
  ]
]
event_lengths _ = none

abbrev pub behind_first : List Text → List Text
behind_first [] = []
behind_first (m ∷ ms) = ms

-- title, text and metadata at their lengths
unfoldable pub event_at : Bool → Text → ℤ → ℤ → Option ParsedEvent
unfolding slice slice_to slice_from unescape_event_text event_parts split
event_at decoded metadata title_length text_length =
    let after = title_length +ℤ text_length +ℤ pos 1 in
    event_parts decoded (behind_first (split b'|' (slice_from after metadata))) (record {
      title = slice_to title_length metadata;
      text = unescape_event_text (slice (title_length +ℤ pos 1) after metadata);
      alert_type = none;
      aggregation_key = none;
      source_type_name = none;
      date_happened = none;
      priority = none;
      hostname = none;
      tags = none;
    })

unfoldable pub parse_event_packet : Bool → Text → Option ParsedEvent
unfolding split split_once event_lengths event_at
parse_event_packet decoded packet = elim (split_once b':' packet) [
  | none ↦ none
  | some (name, metadata) ↦ elim (event_lengths (split b',' name)) [
    | none ↦ none
    | some (title_length, text_length) ↦ event_at decoded metadata title_length text_length
  ]
]
