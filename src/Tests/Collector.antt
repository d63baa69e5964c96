-- ===== src/Tests/Collector.antt =====
-- Examples of the theorems on collector.py, and runs of its parts.
use dd_agent.Prelude.{
  ℕ, ◌+◌, ◌==◌, pos, ◌-ℤ◌, ◌≡◌, refl, none, some, List, [], ◌∷◌, map, true, false, if◌then◌else◌,
  arith, length,
}
use dd_agent.Prelude.Dict.{Dict, get, put, remove}
use dd_agent.Prelude.Text.{Text, Text-discrete, codes}
use dd_agent.Collector.Payload.{
  is_metadata, is_duplicate, AgentPayload, empty_payload, payload, getitem, setitem, delitem, len,
  Emitter, emission,
}
use dd_agent.Collector.Merged.{Operation, set, del, in_data, in_meta, setitem-Holds}
use dd_agent.Collector.Operations.{payload_after, dict_after, operations-refines, empty-Holds}
use dd_agent.Collector.Statuses.{ok, InstanceStatus}
use dd_agent.Collector.Checks.{
  Health, Checks, Loop, finished, unbound, escaped, attempt, run_checks, listed,
}
use dd_agent.Collector.Collected.{
  all_metrics, all_events, Collected, status_names, run_checks-Collected,
}
use dd_agent.Collector.Intervals.{
  Sent, Sent-discrete, host_metadata, processes, PushTimes, should_send,
}
use dd_agent.Collector.Schedule.{answers, IsScheduled, answers-IsScheduled}
use dd_agent.Collector.Populate.{Values, Host, startup_events}
use dd_agent.Collector.Run.{Collector, Report, reported, Surroundings, run}
use dd_agent.Collector.Emitted.{run_emits}

-- A payload with the key of the API in both parts, and a deletion that raises.
abbrev operations : List (Operation ℕ)
operations =
    set (codes "apiKey") 1
    ∷ set (codes "meta") 2
    ∷ set (codes "os") 3
    ∷ del (codes "meta")
    ∷ del (codes "tags")
    ∷ []

operations_run : payload_after {V = ℕ} empty_payload operations ≡ (
  record {
    data_payload = (codes "apiKey", 1) ∷ (codes "os", 3) ∷ [];
    meta_payload = (codes "apiKey", 1) ∷ [];
  },
  true ∷ true ∷ true ∷ true ∷ false ∷ [],
)
unfolding setitem delitem is_duplicate is_metadata put get remove Text-discrete
operations_run = refl

operations-refines_example :
    ((payload_after {V = ℕ} empty_payload operations).1 ≡ (dict_after {V = ℕ} [] operations).1)
    × (getitem (payload_after {V = ℕ} empty_payload operations).0 (codes "apiKey")
        ≡ get Text-discrete (dict_after {V = ℕ} [] operations).0 (codes "apiKey"))
    × (get Text-discrete
          (payload (payload_after {V = ℕ} empty_payload operations).0)
          (codes "apiKey")
        ≡ get Text-discrete (dict_after {V = ℕ} [] operations).0 (codes "apiKey"))
    × (get Text-discrete
          (payload_after {V = ℕ} empty_payload operations).0.data_payload
          (codes "apiKey")
        ≡ (if in_data (codes "apiKey")
            then get Text-discrete (dict_after {V = ℕ} [] operations).0 (codes "apiKey")
            else none))
    × (get Text-discrete
          (payload_after {V = ℕ} empty_payload operations).0.meta_payload
          (codes "apiKey")
        ≡ (if in_meta (codes "apiKey")
            then get Text-discrete (dict_after {V = ℕ} [] operations).0 (codes "apiKey")
            else none))
operations-refines_example = operations-refines operations (codes "apiKey")

-- The key of the API is counted and iterated twice.
twice_test : (len (setitem {V = ℕ} empty_payload (codes "apiKey") 1) ≡ 2)
unfolding len setitem is_duplicate put Text-discrete
twice_test = refl

abbrev fine : InstanceStatus
fine = record { instance_id = 0; status = ok; error = none; warnings = [] }

-- A check is a number, which is its only metric and event. Check 7 fails when it is run, and
-- the library versions of check 9 are not found. Its run time is its number and 50.
abbrev numbers : Checks ℕ ℕ ℕ (Text × Health)
numbers = record {
  name = λ c. c ∷ [];
  source_type_name = λ c. none;
  run = λ c. if c == 7 then (c, none) else (c, some (fine ∷ []));
  get_metrics = λ c. (c, some (c ∷ []));
  get_events = λ c. (c, some (c ∷ []));
  get_service_metadata = λ c. (c, some ([] ∷ []));
  get_library_info = λ c. if c == 9 then none else some c;
  service_check = λ c n h ts. some c;
  get_service_checks = λ c. some (c, (c ∷ [], Health.healthy) ∷ []);
  check_run_time = λ c. some (c + 50);
}

abbrev start : Loop ℕ ℕ ℕ (Text × Health)
start = record {
  metrics = 100 ∷ [];
  events = [];
  service_checks = [];
  check_statuses = [];
  metadata = none;
  checked = [];
}

always : (j : ℕ) → (λ (i : ℕ). true) j ≡ true
always j = refl

-- The second of three checks raises.
run_checks-Collected_example :
    (l' : Loop ℕ ℕ ℕ (Text × Health)) × (run_checks numbers (λ j. true) 0 (1 ∷ 7 ∷ 3 ∷ []) start
      ≡ finished l')
    × Collected numbers (1 ∷ 7 ∷ 3 ∷ []) start l'
unfolding attempt
run_checks-Collected_example =
    run_checks-Collected numbers (λ j. true) 0 (1 ∷ 7 ∷ 3 ∷ []) start always ([] ∷ [], refl)
      ((_, refl), ((_, refl), ((_, refl), tt)))

collected_test : all_metrics numbers (1 ∷ 7 ∷ 3 ∷ []) ≡ 1 ∷ 51 ∷ 57 ∷ 3 ∷ 53 ∷ []
unfolding attempt
collected_test = refl

-- The first check raises.
unbound_test : run_checks numbers (λ j. true) 0 (7 ∷ 1 ∷ []) start ≡ unbound
unfolding run_checks
unbound_test = refl

-- An exception of get_library_info leaves the loop.
escaped_test : run_checks numbers (λ j. true) 0 (1 ∷ 9 ∷ 3 ∷ []) start ≡ escaped
unfolding run_checks
escaped_test = refl

-- A clock that starts at 100, and an interval of 60 for all kinds.
abbrev times : PushTimes
times d = record { start = pos 100; interval = 60 }

abbrev calls : List (ℕ × Sent)
calls =
    (130, processes)
    ∷ (160, host_metadata)
    ∷ (170, processes)
    ∷ (229, processes)
    ∷ (230, processes)
    ∷ []

answers_test :
    answers 2 processes calls times ≡ (130, false) ∷ (170, true) ∷ (229, false) ∷ (230, true) ∷ []
unfolding answers should_send Sent-discrete ◌-ℤ◌
answers_test = refl

answers-IsScheduled_example : IsScheduled (pos 100) 60 (answers 2 processes calls times)
answers-IsScheduled_example = answers-IsScheduled 2 processes calls times refl

abbrev values : Values (List ℕ) ℕ ℕ (Text × Health)
values = record {
  of_metrics = λ ms. ms;
  of_events = λ es. [];
  of_service_checks = λ scs. length scs ∷ [];
  of_agent_checks = λ es. length es ∷ [];
}

abbrev host : Host (List ℕ) ℕ
host = record {
  configured_stats = [];
  startup_event = 0;
  gohai = none;
  system_stats = [];
  hostname_metadata = 5 ∷ [];
  host_tags = [];
  external_tags = none;
}

abbrev collector : Collector (List ℕ)
collector = record {
  run_count = 0;
  emitters =
      record { name = codes "http"; emits = λ p e. some (codes "down") }
      ∷ record { name = codes "log"; emits = λ p e. none }
      ∷ [];
  hostname_metadata_cache = [];
  push_times = times;
}

abbrev surroundings : Surroundings numbers values host
surroundings = record {
  running = λ j. true;
  continue_running = true;
  now = 200;
  start_event = true;
  agent_up = (codes "datadog.agent.up", Health.healthy);
  agent_stats = 9 ∷ [];
}

-- The payload with the key of the API.
abbrev skeleton : AgentPayload (List ℕ)
skeleton = setitem empty_payload (codes "apiKey") (1 ∷ [])

run_emits_example :
    (r : Report (List ℕ)) × (events : Dict Text (List ℕ)) × (run numbers values host collector
        surroundings skeleton start
        (1 ∷ 3 ∷ [])
        ((codes "jmx", codes "e") ∷ [])
      ≡ reported r)
    × (r.emissions
        ≡ map (λ (e : Emitter (List ℕ)). emission (payload r.payload) [] e) collector.emitters)
    × (status_names numbers r.check_statuses ≡ (1 ∷ []) ∷ (3 ∷ []) ∷ codes "jmx" ∷ [])
    × (get Text-discrete (payload r.payload) (codes "metrics")
        ≡ some (100 ∷ 1 ∷ 51 ∷ 3 ∷ 53 ∷ 9 ∷ []))
    × ((n : Text) → listed numbers (get Text-discrete events n) ≡ all_events numbers n (1 ∷ 3 ∷ []))
    × (get Text-discrete (payload r.payload) (codes "events")
        ≡ some (values.of_events (startup_events values host true events)))
    × (get Text-discrete (payload r.payload) (codes "service_checks") ≡ some (3 ∷ []))
    × (get Text-discrete (payload r.payload) (codes "apiKey") ≡ getitem skeleton (codes "apiKey"))
unfolding attempt get
run_emits_example =
    run_emits numbers values host collector surroundings skeleton start (1 ∷ 3 ∷ [])
      ((codes "jmx", codes "e") ∷ []) always refl
      (
        (record { metrics = 1 ∷ []; events = 1 ∷ []; metadata = [] ∷ [] }, refl, omega arith),
        ((record { metrics = 3 ∷ []; events = 3 ∷ []; metadata = [] ∷ [] }, refl, omega arith), tt),
      )
      ((_, refl), ((_, refl), tt)) refl
      (
        put Text-discrete [] (codes "apiKey") (1 ∷ []),
        setitem-Holds empty_payload [] (codes "apiKey") (1 ∷ []) empty-Holds,
      )
