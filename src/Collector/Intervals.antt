-- ===== src/Collector/Intervals.antt =====
-- checks/collector.py: Collector._should_send_additional_data and push_times.
use dd_agent.Prelude.{ℕ, ℤ, pos, ◌-ℤ◌, leb_ℤ, Bool, true, false, leb, if◌then◌else◌}
use mathlib.Core.Logic.{ite}

-- The keys of push_times.
pub data Sent : Type 0 where
  host_metadata external_host_tags agent_checks processes : Sent

unfoldable pub Sent-discrete : Discrete Sent
Sent-discrete = hlevel

pub record PushTime : Type 0 where
  pub start : ℤ
  pub interval : ℕ

abbrev pub PushTimes : Type 0
PushTimes = Sent → PushTime

-- _is_first_run
abbrev pub is_first_run : ℕ → Bool
is_first_run run_count = leb run_count 1

-- now - start >= interval
abbrev pub passed : ℕ → PushTime → Bool
passed now t = leb_ℤ (pos t.interval) (pos now -ℤ t.start)

-- Whether to send, and the push times.
unfoldable pub should_send : ℕ → ℕ → Sent → PushTimes → Bool × PushTimes
unfolding Sent-discrete
should_send run_count now data_name times =
    if is_first_run run_count
    then (true, times)
    else if passed now (times data_name)
    then (
      true,
      λ d. ite (Sent-discrete data_name d) (record (times d) { start = pos now }) (times d),
    )
    else (false, times)
