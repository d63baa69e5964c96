-- ===== src/Tests/Dogstream.antt =====
-- checks/datadog.py: lines in the default format, and points of two metrics.
use dd_agent.Prelude.{ℕ, ◌+◌, ◌≡◌, refl, pos, none, some, List, [], ◌∷◌, leb}
use dd_agent.Prelude.Dict.{Dict, get, put}
use dd_agent.Prelude.Sort.{sort, insert}
use dd_agent.Prelude.Text.{Text, codes, Text-discrete}
use dd_agent.Packet.Split.{split_once}
use dd_agent.Aggregator.Base.{lt_text}
use dd_agent.Dogstream.Groups.{
  Value, Key, point_sorter, lt_key, Floats, summaries, aggregate, groups_of, group_by, summary, sum,
  last_value, attributes_of,
}
use dd_agent.Dogstream.Grouping.{group_at, with_key, IsIncreasing}
use dd_agent.Dogstream.Aggregation.{reported, key_order, aggregate-groups}
use dd_agent.Dogstream.Parser.{
  Event, event, metric, other, Parsed, items, raised, nothing, Conversions, Dogstream, parse_lines,
  default_line_parser, read_attributes,
}
use dd_agent.Dogstream.Kept.{IsKept, parse_lines-IsKept}

abbrev parsed_line : Text × Text × Text × Dict Text Text
parsed_line = (
  codes "hits",
  codes "600",
  codes "3",
  (codes "unit", codes "page") ∷ (codes "metric_type", codes "counter") ∷ [],
)

default_line_parser_test :
    default_line_parser (codes "hits 600  3 unit=page metric_type=counter") ≡ parsed_line
unfolding default_line_parser read_attributes split_once put Text-discrete
default_line_parser_test = refl

abbrev floats : Floats
floats = record { Float = ℕ; zero = 0; add = λ x y. x + y }

abbrev hit : ℕ → Value ℕ
hit n = record {
  metric = codes "hits";
  timestamp = pos 600;
  value = n;
  attributes = (codes "metric_type", codes "Counter") ∷ [];
}

abbrev load : ℕ → Value ℕ
load n = record { metric = codes "load"; timestamp = pos 600; value = n; attributes = [] }

abbrev points : List (Value ℕ)
points = load 9 ∷ hit 1 ∷ load 2 ∷ hit 4 ∷ []

-- The hits are added up, and of the loads the last one is reported.
aggregate_test : aggregate floats points ≡ some (hit 5 ∷ load 2 ∷ [])
unfolding aggregate groups_of group_by sort insert lt_text summaries summary sum last_value
    attributes_of get put Text-discrete
aggregate_test = refl

aggregate-groups_example :
    (gs : List (Key × List (Value ℕ))) × (aggregate floats points
      ≡ reported floats (summaries floats gs))
    × IsIncreasing lt_key point_sorter key_order gs
    × ((k : Key)
        → group_at lt_key point_sorter key_order k gs
          ≡ with_key lt_key point_sorter key_order k points)
aggregate-groups_example = aggregate-groups floats points

abbrev conversions : Conversions ℕ ℕ
conversions = record { int_of = λ n. some (pos n); float_of = λ n. some n; is_date = λ n. leb 60 n }

abbrev stream : Dogstream ℕ
stream = record { values = []; events = []; error_count = 0; line_count = 0; freq = 15 }

abbrev plain : Event
plain = record {
  msg_title = some (codes "up");
  msg_text = none;
  event_type = none;
  timestamp = none;
  event_object = none;
  aggregation_key = some (codes "host");
}

abbrev lines : List (Parsed ℕ)
lines =
    items (event plain ∷ metric (codes "hits") 607 1 [] ∷ [])
    ∷ raised
    ∷ nothing
    ∷ items (other ∷ metric (codes "hits") 5 1 [] ∷ [])
    ∷ []

stream-IsKept : IsKept conversions 15 stream
stream-IsKept = record { interval = refl; events = tt; values = tt }

parse_lines-IsKept_example : IsKept conversions 15 (parse_lines conversions 1000 stream lines)
parse_lines-IsKept_example = parse_lines-IsKept conversions 15 1000 stream lines stream-IsKept
