-- ===== src/Aggregator/Calls.antt =====
-- aggregator.py: the methods of MetricsAggregator, and send_packet_count, that only call submit_metric.
use dd_agent.Prelude.{ℕ, Option, none, List, ℤ, pos}
use dd_agent.Prelude.Text.{Text, codes}
use dd_agent.Aggregator.Metric.{every}
use dd_agent.Aggregator.Metrics.{Aggregator, Outcome, Submission, submit_metric}

-- name, value, tags, hostname and device_name, which all of them have
abbrev submission :
    Text → ℤ → Text → Option (List Text) → Option Text → Option Text → Option ℕ → Submission
submission name value mtype tags hostname device_name timestamp = record {
  name = name;
  value = value;
  mtype = mtype;
  tags = tags;
  hostname = hostname;
  device_name = device_name;
  timestamp = timestamp;
  sample_rate = every;
}

-- submit_metric with a type, a sample rate of 1 and no timestamp
abbrev pub submit_as :
    Text
    → Aggregator
    → Text
    → ℤ
    → Option (List Text)
    → Option Text
    → Option Text
    → ℕ
    → Outcome Aggregator
submit_as mtype a name value tags hostname device_name now =
    submit_metric a (submission name value mtype tags hostname device_name none) now

unfoldable pub gauge :
    Aggregator
    → Text
    → ℤ
    → Option (List Text)
    → Option Text
    → Option Text
    → Option ℕ
    → ℕ
    → Outcome Aggregator
gauge a name value tags hostname device_name timestamp now =
    submit_metric a (submission name value (codes "g") tags hostname device_name timestamp) now

module _ (a : Aggregator) (name : Text) (value : ℤ) (tags : Option (List Text))
    (hostname device_name : Option Text) (now : ℕ) where
  -- also decrement, whose value is -1 where none is given
  unfoldable pub increment : Outcome Aggregator
  increment = submit_as (codes "c") a name value tags hostname device_name now

  unfoldable pub rate : Outcome Aggregator
  rate = submit_as (codes "_dd-r") a name value tags hostname device_name now

  unfoldable pub submit_count : Outcome Aggregator
  submit_count = submit_as (codes "ct") a name value tags hostname device_name now

  unfoldable pub count_from_counter : Outcome Aggregator
  count_from_counter = submit_as (codes "ct-c") a name value tags hostname device_name now

  unfoldable pub histogram : Outcome Aggregator
  histogram = submit_as (codes "h") a name value tags hostname device_name now

  unfoldable pub set : Outcome Aggregator
  set = submit_as (codes "s") a name value tags hostname device_name now

unfoldable pub send_packet_count : Aggregator → Text → ℕ → Outcome Aggregator
send_packet_count a metric_name now =
    submit_as (codes "g") a metric_name (pos a.count) none none none now
