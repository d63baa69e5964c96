-- ===== src/Aggregator/Base.antt =====
-- aggregator.py, class Aggregator: the state that both aggregators share, its events, service checks
-- and magic tags, and the context that identifies a metric.
use mathlib.Core.Logic.{ite}
use native.Mathlib.Decide.{ℕ_discrete}
use dd_agent.Prelude.{
  ℕ, ◌+◌, Option, none, some, List, [], ◌∷◌, ◌++◌, ℤ, pos, Bool, true, false, if◌then◌else◌, ◌==◌,
  ltb, ◌||◌, ◌&&◌,
}
use dd_agent.Prelude.Text.{Text, Text-discrete}
use dd_agent.Prelude.Sort.{sort}
use dd_agent.Aggregator.Point.{Formatter}
use dd_agent.Aggregator.Class.{Config}

-- Python's order on texts
unfoldable pub lt_text : Text → Text → Bool
lt_text [] [] = false
lt_text [] (d ∷ ds) = true
lt_text (c ∷ cs) [] = false
lt_text (c ∷ cs) (d ∷ ds) = ltb c d || (c == d && lt_text cs ds)

-- t in ts
unfoldable pub contains : Text → List Text → Bool
contains t [] = false
contains t (u ∷ us) = ite (Text-discrete u t) true (contains t us)

-- set(tags), as a list
unfoldable pub distinct : List Text → List Text
unfolding contains
distinct [] = []
distinct (t ∷ ts) = if contains t ts then distinct ts else t ∷ distinct ts

-- name, tags, hostname, device_name
abbrev pub Context : Type 0
Context = Text × List Text × Text × Option Text

unfoldable pub Context-discrete : Discrete Context
unfolding Text-discrete ℕ_discrete
Context-discrete = hlevel ℕ_discrete

-- tuple(sorted(set(tags))), or the empty tuple
unfoldable pub context_tags : Option (List Text) → List Text
unfolding lt_text distinct sort
context_tags none = []
context_tags (some tags) = sort lt_text (distinct tags)

pub record Event : Type 0 where
  pub msg_title : Text
  pub msg_text : Text
  pub timestamp : ℤ
  pub alert_type : Option Text
  pub aggregation_key : Option Text
  pub source_type_name : Option Text
  pub priority : Option Text
  pub tags : Option (List Text)
  pub host : Text

pub record ServiceCheck : Type 0 where
  pub check : Text
  pub status : ℤ
  pub timestamp : ℕ
  pub tags : Option (List Text)
  pub host_name : Text
  pub message : Option Text

pub record Base : Type 0 where
  pub events : List Event
  pub service_checks : List ServiceCheck
  pub total_count : ℕ
  pub count : ℕ
  pub event_count : ℕ
  pub service_check_count : ℕ
  pub hostname : Text
  pub expiry_seconds : ℕ
  pub formatter : Formatter
  pub interval : ℕ
  pub recent_point_threshold : ℕ
  pub num_discarded_old_points : ℕ
  pub metric_config : Config

-- __init__; a threshold of None or 0 is the default
unfoldable pub init : Text → ℕ → ℕ → Formatter → Option ℕ → Config → Base
init hostname interval expiry_seconds formatter threshold config = record {
  events = [];
  service_checks = [];
  total_count = 0;
  count = 0;
  event_count = 0;
  service_check_count = 0;
  hostname = hostname;
  expiry_seconds = expiry_seconds;
  formatter = formatter;
  interval = interval;
  recent_point_threshold = elim threshold [ none ↦ 3600 | some n ↦ if n == 0 then 3600 else n ];
  num_discarded_old_points = 0;
  metric_config = config;
}

-- `x if x is not None else d`
abbrev pub or_else {ℓ} : {A : Type ℓ} → Option A → A → A
or_else none d = d
or_else (some a) d = a

abbrev pub sorted_tags : Option (List Text) → Option (List Text)
sorted_tags none = none
sorted_tags (some tags) = some (sort lt_text tags)

-- the arguments of event(): a parsed event packet
pub record EventArgs : Type 0 where
  pub title : Text
  pub text : Text
  pub date_happened : Option ℤ
  pub alert_type : Option Text
  pub aggregation_key : Option Text
  pub source_type_name : Option Text
  pub priority : Option Text
  pub tags : Option (List Text)
  pub hostname : Option Text

unfoldable pub event : Base → EventArgs → ℕ → Base
unfolding lt_text sort
event b a now = record b {
  events =
      b.events
      ++ (record {
        msg_title = a.title;
        msg_text = a.text;
        timestamp = or_else a.date_happened (pos now);
        alert_type = a.alert_type;
        aggregation_key = a.aggregation_key;
        source_type_name = a.source_type_name;
        priority = a.priority;
        tags = sorted_tags a.tags;
        host = or_else a.hostname b.hostname;
      })
        ∷ [];
}

-- the arguments of service_check()
pub record CheckArgs : Type 0 where
  pub check_name : Text
  pub status : ℤ
  pub tags : Option (List Text)
  pub timestamp : Option ℕ
  pub hostname : Option Text
  pub message : Option Text

-- `timestamp or int(time())`
abbrev pub or_now : Option ℕ → ℕ → ℕ
or_now none now = now
or_now (some t) now = if t == 0 then now else t

unfoldable pub service_check : Base → CheckArgs → ℕ → Base
unfolding lt_text sort
service_check b a now = record b {
  service_checks =
      b.service_checks
      ++ (record {
        check = a.check_name;
        status = a.status;
        timestamp = or_now a.timestamp now;
        tags = sorted_tags a.tags;
        host_name = or_else a.hostname b.hostname;
        message = a.message;
      })
        ∷ [];
}

unfoldable pub flush_events : Base → Base × List Event
flush_events b = (
  record b { events = []; total_count = b.total_count + b.event_count; event_count = 0 },
  b.events,
)

unfoldable pub flush_service_checks : Base → Base × List ServiceCheck
flush_service_checks b = (
  record b {
    service_checks = [];
    total_count = b.total_count + b.service_check_count;
    service_check_count = 0;
  },
  b.service_checks,
)
