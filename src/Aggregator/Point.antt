-- ===== src/Aggregator/Point.antt =====
-- aggregator.py: what a flush reports, and the two formatters. Times are whole seconds. A number of
-- Python's is an integer here, and a quotient keeps both its sides: nothing is rounded.
use Prim.Native.Nat.{ℕ}
use dd_agent.Prelude.{Option, none, some, List, [], ◌∷◌, ◌++◌, ℤ, Bool, false, if◌then◌else◌, ◌==◌}
use dd_agent.Prelude.Text.{Text, codes}

pub data MetricType : Type 0 where
  gauge count rate : MetricType

pub data Reported : Type 0 where
  whole : ℤ → Reported
  ratio : ℤ → ℤ → Reported

-- the keyword arguments of a formatter
pub record Report : Type 0 where
  pub metric : Text
  pub value : Reported
  pub timestamp : ℕ
  pub tags : Option (List Text)
  pub hostname : Option Text
  pub device_name : Option Text
  pub metric_type : Option MetricType
  pub interval : ℕ

pub record Point : Type 0 where
  pub metric : Text
  pub points : List (ℕ × Reported)
  pub tags : Option (List Text)
  pub host : Option Text
  pub device_name : Option Text
  pub type : MetricType
  pub interval : ℕ

abbrev pub Formatter : Type 0
Formatter = Report → Point

-- `metric_type or MetricTypes.GAUGE`
abbrev type_or_gauge : Option MetricType → MetricType
type_or_gauge none = gauge
type_or_gauge (some t) = t

unfoldable pub api_formatter : Formatter
api_formatter r = record {
  metric = r.metric;
  points = (r.timestamp, r.value) ∷ [];
  tags = r.tags;
  host = r.hostname;
  device_name = r.device_name;
  type = type_or_gauge r.metric_type;
  interval = r.interval;
}

abbrev last_is_dot : Text → Bool
last_is_dot [] = false
last_is_dot (c ∷ []) = c == b'.'
last_is_dot (c ∷ d ∷ cs) = last_is_dot (d ∷ cs)

-- get_formatter, by config['statsd_metric_namespace'] ('' and None are the same here)
unfoldable pub get_formatter : Text → Formatter
unfolding api_formatter
get_formatter [] r = api_formatter r
get_formatter (c ∷ cs) r =
    let namespace = c ∷ cs in
    let metric_prefix : Text =
      if last_is_dot namespace then namespace else namespace ++ codes "." in
    api_formatter (record r { metric = metric_prefix ++ r.metric })
