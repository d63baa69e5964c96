-- ===== src/Collector/Checks.antt =====
-- checks/collector.py, the loop of Collector.run over the checks. A check is an object behind the
-- methods that the loop calls; profiling, the value of the library versions and logging are left out.
use dd_agent.Prelude.{
  ℕ, suc, sub_ℕ, Option, none, some, List, [], ◌∷◌, ◌++◌, Bool, true, false, length,
}
use dd_agent.Prelude.Dict.{Dict, get, put}
use dd_agent.Prelude.Text.{Text, Text-discrete, codes}
use dd_agent.Collector.Statuses.{
  Level, error, InstanceStatus, Metadata, CheckStatus, instances_status,
}

-- AgentCheck.OK and AgentCheck.CRITICAL
pub data Health : Type 0 where
  healthy critical : Health

-- A method returns what it makes of the object, and none where it raises. The loop reads the clock and
-- self.check_timings for the metric of the run time of a check.
pub record Checks (C M E S : Type 0) : Type 0 where
  pub name : C → Text
  pub source_type_name : C → Option Text
  pub run : C → C × Option (List InstanceStatus)
  pub get_metrics : C → C × Option (List M)
  pub get_events : C → C × Option (List E)
  pub get_service_metadata : C → C × Option (List Metadata)
  pub get_library_info : C → Option C
  pub service_check : C → Text → Health → List Text → Option C
  pub get_service_checks : C → Option (C × List S)
  -- ('datadog.agent.check_run_time', time.time(), check_run_time, meta), none without check_timings
  pub check_run_time : C → Option M

-- What the try block got: the statuses and, if nothing raised, what is saved.
pub record Gathered (M E : Type 0) : Type 0 where
  pub metrics : List M
  pub events : List E
  pub metadata : List Metadata

pub record Attempt (C M E : Type 0) : Type 0 where
  pub check : C
  pub statuses : List InstanceStatus
  pub gathered : Option (Gathered M E)

-- The local variables of run, current_check_metadata among them, and the checks that had their turn.
pub record Loop (C M E S : Type 0) : Type 0 where
  pub metrics : List M
  pub events : Dict Text (List E)
  pub service_checks : List S
  pub check_statuses : List CheckStatus
  pub metadata : Option (List Metadata)
  pub checked : List C

-- One turn of the loop; current_check_metadata was read before any assignment, or a method that is
-- called outside of the try block raised.
pub data Turn (C M E S : Type 0) : Type 0 where
  went : Loop C M E S → Turn C M E S
  no_metadata left_run : Turn C M E S

-- The loop is over, it returned because the collector was told to stop, or it raised
-- UnboundLocalError or what a method raised.
pub data Ending (C M E S : Type 0) : Type 0 where
  finished stopped : Loop C M E S → Ending C M E S
  unbound escaped : Ending C M E S

-- CheckStatus of a check whose initialisation failed
abbrev pub failed_status : Text → Text → CheckStatus
failed_status n e = record {
  name = n;
  source_type_name = none;
  instance_statuses = none;
  metric_count = 0;
  event_count = 0;
  service_check_count = sub_ℕ 0 0;
  service_metadata = [];
  init_failed_error = some e;
}

module _ {C M E S : Type 0} (m : Checks C M E S) where
  abbrev attempt_metadata :
      List InstanceStatus → List M → List E → C × Option (List Metadata) → Attempt C M E
  attempt_metadata is ms es (c, none) = record { check = c; statuses = is; gathered = none }
  attempt_metadata is ms es (c, some d) = record {
    check = c;
    statuses = is;
    gathered = some (record { metrics = ms; events = es; metadata = d });
  }

  abbrev attempt_events : List InstanceStatus → List M → C × Option (List E) → Attempt C M E
  attempt_events is ms (c, none) = record { check = c; statuses = is; gathered = none }
  attempt_events is ms (c, some es) = attempt_metadata is ms es (m.get_service_metadata c)

  abbrev attempt_metrics : List InstanceStatus → C × Option (List M) → Attempt C M E
  attempt_metrics is (c, none) = record { check = c; statuses = is; gathered = none }
  attempt_metrics is (c, some ms) = attempt_events is ms (m.get_events c)

  abbrev attempt_run : C × Option (List InstanceStatus) → Attempt C M E
  attempt_run (c, none) = record { check = c; statuses = []; gathered = none }
  attempt_run (c, some is) = attempt_metrics is (m.get_metrics c)

  -- the try block
  unfoldable pub attempt : C → Attempt C M E
  attempt c = attempt_run (m.run c)

  -- events[check.name], which is [] where there is none
  abbrev pub listed : Option (List E) → List E
  listed none = []
  listed (some es) = es

  abbrev pub save_events : Text → List E → Dict Text (List E) → Dict Text (List E)
  save_events n [] events = events
  save_events n (e ∷ es) events =
      put Text-discrete events n (listed (get Text-discrete events n) ++ (e ∷ es))

  abbrev pub save : C → Option (Gathered M E) → Loop C M E S → Loop C M E S
  save c none l = l
  save c (some g) l = record l {
    metrics = l.metrics ++ g.metrics;
    events = save_events (m.name c) g.events l.events;
    metadata = some g.metadata;
  }

  abbrev pub health_of : Level → Health
  health_of error = critical
  health_of _ = healthy

  -- check.SOURCE_TYPE_NAME or check.name
  abbrev source_name : C → Option Text → Text
  source_name c none = m.name c
  source_name c (some []) = m.name c
  source_name c (some (x ∷ xs)) = x ∷ xs

  abbrev metric_count : Option (Gathered M E) → ℕ
  metric_count none = 0
  metric_count (some g) = length g.metrics

  abbrev event_count : Option (Gathered M E) → ℕ
  event_count none = 0
  event_count (some g) = length g.events

  abbrev pub with_status : C → Attempt C M E → Option C → Option C
  with_status c a none = none
  with_status c a (some c') =
      m.service_check c' (codes "datadog.agent.check_status")
        (health_of (instances_status a.statuses)) ((codes "check:" ++ m.name c) ∷ [])

  abbrev pub with_service_checks : Option C → Option (C × List S)
  with_service_checks none = none
  with_service_checks (some c) = m.get_service_checks c

  -- The object with the service check of its status, and the service checks that it then has; none
  -- where one of the methods raises, which are called outside of the try block.
  abbrev pub reported : C → Attempt C M E → Option (C × List S)
  reported c a = with_service_checks (with_status c a (m.get_library_info a.check))

  -- if self.check_timings
  abbrev pub timing_of : Option M → List M
  timing_of none = []
  timing_of (some t) = t ∷ []

  abbrev pub status_of : C → Attempt C M E → List S → List Metadata → CheckStatus
  status_of c a scs metadata = record {
    name = m.name c;
    source_type_name = some (source_name c (m.source_type_name c));
    instance_statuses = some a.statuses;
    metric_count = metric_count a.gathered;
    event_count = event_count a.gathered;
    service_check_count = sub_ℕ (length scs) 1;
    service_metadata = metadata;
    init_failed_error = none;
  }

  abbrev pub conclude : C → Attempt C M E → C × List S → List Metadata → Loop C M E S → Loop C M E S
  conclude c a (c', scs) metadata l = record l {
    metrics = l.metrics ++ timing_of (m.check_run_time c);
    service_checks = l.service_checks ++ scs;
    check_statuses = l.check_statuses ++ status_of c a scs metadata ∷ [];
    checked = l.checked ++ c' ∷ [];
  }

  abbrev pub conclude_reported :
      C → Attempt C M E → Option (C × List S) → List Metadata → Loop C M E S → Turn C M E S
  conclude_reported c a none metadata l = left_run
  conclude_reported c a (some r) metadata l = went (conclude c a r metadata l)

  -- The arguments of CheckStatus are read from left to right.
  abbrev pub conclude_if : C → Attempt C M E → Option (List Metadata) → Loop C M E S → Turn C M E S
  conclude_if c a none l = no_metadata
  conclude_if c a (some metadata) l = conclude_reported c a (reported c a) metadata l

  unfoldable pub run_check : C → Loop C M E S → Turn C M E S
  unfolding attempt
  run_check c l =
      let a = attempt c in let l' = save c a.gathered l in conclude_if c a l'.metadata l'

  -- continue_running, as it is at each turn
  module _ (running : ℕ → Bool) where
    unfoldable pub run_checks : ℕ → List C → Loop C M E S → Ending C M E S
    unfolding run_check
    run_checks i [] l = finished l
    run_checks i (c ∷ cs) l = elim (running i) [
      | false ↦ stopped l
      | true ↦ elim (run_check c l) [
        | no_metadata ↦ unbound
        | left_run ↦ escaped
        | went l' ↦ run_checks (suc i) cs l'
      ]
    ]

    -- the loop over init_failed_checks_d: the names and the errors
    unfoldable pub add_failed : ℕ → List (Text × Text) → Loop C M E S → Ending C M E S
    add_failed i [] l = finished l
    add_failed i ((n, e) ∷ failed) l = elim (running i) [
      | false ↦ stopped l
      | true ↦
          add_failed (suc i) failed
            (record l { check_statuses = l.check_statuses ++ failed_status n e ∷ [] })
    ]
