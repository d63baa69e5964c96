-- ===== src/Collector/Populate.antt =====
-- checks/collector.py: Collector._populate_payload_metadata. What it reads of the host and of cloud
-- providers is an argument.
use dd_agent.Prelude.{
  ℕ, suc, Option, none, some, List, [], ◌∷◌, ◌++◌, Bool, ◌&&◌, if◌then◌else◌, get_elem?,
}
use dd_agent.Prelude.Options.{◌>>=◌}
use dd_agent.Prelude.Dict.{Dict, put}
use dd_agent.Prelude.Text.{Text, Text-discrete, codes}
use dd_agent.Collector.Payload.{AgentPayload, setitem}
use dd_agent.Collector.Statuses.{Level, InstanceStatus, Metadata, CheckStatus, check_status}
use dd_agent.Collector.Intervals.{
  host_metadata, external_host_tags, agent_checks, PushTimes, is_first_run, should_send,
}

-- The message of an entry of agent_checks: an error, warnings, or "".
pub data Message : Type 0 where
  failure : Text → Message
  warned : List Text → Message
  empty : Message

pub data Instance : Type 0 where
  at : ℕ → Instance
  initialization : Instance

pub record AgentCheckEntry : Type 0 where
  pub name : Text
  pub source_type_name : Option Text
  pub instance_id : Instance
  pub status : Option Level
  pub message : Message
  pub metadata : Option Metadata

-- The values that are put into a payload.
pub record Values (V M E S : Type 0) : Type 0 where
  pub of_metrics : List M → V
  pub of_events : Dict Text (List E) → V
  pub of_service_checks : List S → V
  pub of_agent_checks : List AgentCheckEntry → V

-- What the host, its cloud provider and the checks say in this run.
pub record Host (V E : Type 0) : Type 0 where
  pub configured_stats : V
  pub startup_event : E
  pub gohai : Option V
  pub system_stats : V
  pub hostname_metadata : V
  pub host_tags : V
  pub external_tags : Option V

-- instance_status.error or instance_status.warnings or ""
abbrev message_of : Option Text → List Text → Message
message_of (some (c ∷ e)) ws = failure (c ∷ e)
message_of _ (w ∷ ws) = warned (w ∷ ws)
message_of _ [] = empty

abbrev pub entry_of : CheckStatus → InstanceStatus → Metadata → AgentCheckEntry
entry_of c s metadata = record {
  name = c.name;
  source_type_name = c.source_type_name;
  instance_id = at s.instance_id;
  status = some s.status;
  message = message_of s.error s.warnings;
  metadata = some metadata;
}

-- The entries from instance i on; none for the IndexError of service_metadata[i].
unfoldable pub instance_entries :
    CheckStatus → ℕ → List InstanceStatus → Option (List AgentCheckEntry)
instance_entries c i [] = some []
instance_entries c i (s ∷ ss) = do
  metadata ← get_elem? c.service_metadata i
  rest ← instance_entries c (suc i) ss
  some (entry_of c s metadata ∷ rest)

abbrev failed_message : Option Text → Message
failed_message none = empty
failed_message (some e) = failure e

abbrev pub check_entries :
    CheckStatus → Option (List InstanceStatus) → Option (List AgentCheckEntry)
check_entries c (some ss) = instance_entries c 0 ss
check_entries c none = some (
    record {
      name = c.name;
      source_type_name = c.source_type_name;
      instance_id = initialization;
      status = check_status c;
      message = failed_message c.init_failed_error;
      metadata = none;
    }
    ∷ [])

unfoldable pub agent_check_entries : List CheckStatus → Option (List AgentCheckEntry)
unfolding instance_entries check_status
agent_check_entries [] = some []
agent_check_entries (c ∷ cs) = do
  entries ← check_entries c c.instance_statuses
  rest ← agent_check_entries cs
  some (entries ++ rest)

module _ {V M E S : Type 0} (values : Values V M E S) (host : Host V E) where
  -- systemStats on the first run
  abbrev pub add_startup : Bool → AgentPayload V → AgentPayload V
  add_startup due p = if due then setitem p (codes "systemStats") host.configured_stats else p

  abbrev pub startup_events : Bool → Dict Text (List E) → Dict Text (List E)
  startup_events due events =
      if due then put Text-discrete events (codes "System") (host.startup_event ∷ []) else events

  abbrev pub set_if : Text → Option V → AgentPayload V → AgentPayload V
  set_if k none p = p
  set_if k (some v) p = setitem p k v

  abbrev pub add_host : Bool → AgentPayload V → AgentPayload V
  add_host due p =
      if due
      then setitem
          (setitem
            (setitem (set_if (codes "gohai") host.gohai p) (codes "systemStats") host.system_stats)
            (codes "meta") host.hostname_metadata)
          (codes "host-tags") host.host_tags
      else p

  abbrev pub add_external : Bool → AgentPayload V → AgentPayload V
  add_external due p = if due then set_if (codes "external_host_tags") host.external_tags p else p

  abbrev pub set_agent_checks :
      AgentPayload V → V → Option (List AgentCheckEntry) → Option (AgentPayload V)
  set_agent_checks p cache none = none
  set_agent_checks p cache (some entries) = some (
      setitem (setitem p (codes "agent_checks") (values.of_agent_checks entries)) (codes "meta")
        cache)

  abbrev pub add_agent_checks :
      Bool → List CheckStatus → V → AgentPayload V → Option (AgentPayload V)
  add_agent_checks due statuses cache p =
      if due then set_agent_checks p cache (agent_check_entries statuses) else some p

  -- The events, hostname_metadata_cache, push_times and, unless it raised IndexError, the payload.
  pub record Populated : Type 0 where
    pub payload : Option (AgentPayload V)
    pub events : Dict Text (List E)
    pub cache : V
    pub times : PushTimes

  unfoldable pub populate :
      ℕ
      → ℕ
      → Bool
      → AgentPayload V
      → Dict Text (List E)
      → List CheckStatus
      → V
      → PushTimes
      → Populated
  unfolding agent_check_entries
  populate run_count now start_event p events statuses cache times =
      let first = start_event && is_first_run run_count in
      let (host_due, times') = should_send run_count now host_metadata times in
      let (external_due, times'') = should_send run_count now external_host_tags times' in
      let (checks_due, times''') = should_send run_count now agent_checks times'' in
      let cache' = if host_due then host.hostname_metadata else cache in
      record {
        payload =
            add_agent_checks checks_due statuses cache'
              (add_external external_due (add_host host_due (add_startup first p)));
        events = startup_events first events;
        cache = cache';
        times = times''';
      }
