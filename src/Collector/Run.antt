-- ===== src/Collector/Run.antt =====
-- checks/collector.py: Collector.run from the loop over the checks on. The payload that the system
-- checks and the old-style checks have filled, with the metrics, events and service checks at hand,
-- is an argument.
use dd_agent.Prelude.{ℕ, ◌+◌, Option, none, some, List, [], ◌∷◌, ◌++◌, Bool, true, length}
use dd_agent.Prelude.Dict.{Dict}
use dd_agent.Prelude.Text.{Text, codes}
use dd_agent.Collector.Payload.{AgentPayload, setitem, Emitter, EmitterStatus, Emission, emit}
use dd_agent.Collector.Statuses.{CheckStatus}
use dd_agent.Collector.Checks.{
  Checks, Loop, Ending, finished, stopped, unbound, escaped, run_checks, add_failed,
}
use dd_agent.Collector.Intervals.{PushTimes}
use dd_agent.Collector.Populate.{Values, Host, Populated, populate}

-- The attributes that a run reads or writes.
pub record Collector (V : Type 0) : Type 0 where
  pub run_count : ℕ
  pub emitters : List (Emitter V)
  pub hostname_metadata_cache : V
  pub push_times : PushTimes

pub data Error : Type 0 where
  -- the last is what a method of a check raised
  unbound_local index_error method : Error

pub record Report (V : Type 0) : Type 0 where
  pub collector : Collector V
  pub payload : AgentPayload V
  pub check_statuses : List CheckStatus
  pub emitter_statuses : List EmitterStatus
  pub emissions : List (Emission V)

-- run returned without a payload, raised, or returned its payload.
pub data Outcome (V : Type 0) : Type 0 where
  abandoned : Outcome V
  raised : Error → Outcome V
  reported : Report V → Outcome V

module _ {C V M E S : Type 0} (m : Checks C M E S) (values : Values V M E S) (host : Host V E) where
  -- What run is given by its surroundings: whether it is told to stop, at each turn of its loops and
  -- at the end, the clock, start_event, the service check of the agent, and the metrics of AgentMetrics.
  pub record Surroundings : Type 0 where
    pub running : ℕ → Bool
    pub continue_running : Bool
    pub now : ℕ
    pub start_event : Bool
    pub agent_up : S
    pub agent_stats : List M

  -- payload['metrics'], payload['events'], payload['service_checks']
  unfoldable pub store : Surroundings → Loop C M E S → AgentPayload V → AgentPayload V
  store s l p =
      setitem
        (setitem (setitem p (codes "metrics") (values.of_metrics l.metrics)) (codes "events")
          (values.of_events l.events))
        (codes "service_checks") (values.of_service_checks (l.service_checks ++ s.agent_up ∷ []))

  -- The events dict and the list of metrics are those in the payload, so what is added to them is
  -- there too.
  abbrev pub completed :
      Surroundings → Loop C M E S → Dict Text (List E) → AgentPayload V → AgentPayload V
  completed s l events p =
      setitem (setitem p (codes "events") (values.of_events events)) (codes "metrics")
        (values.of_metrics (l.metrics ++ s.agent_stats))

  abbrev pub send :
      Collector V
      → Surroundings
      → Loop C M E S
      → Populated values host
      → Option (AgentPayload V)
      → Outcome V
  send c s l d none = raised index_error
  send c s l d (some p) =
      let p' = completed s l d.events p in
      let (statuses, calls) = emit p' s.continue_running c.emitters true in
      reported (record {
        collector = record c { hostname_metadata_cache = d.cache; push_times = d.times };
        payload = p';
        check_statuses = l.check_statuses;
        emitter_statuses = statuses;
        emissions = calls;
      })

  -- From the service check of the agent on.
  unfoldable pub finish : Collector V → Surroundings → AgentPayload V → Loop C M E S → Outcome V
  unfolding store populate emit
  finish c s p l =
      let d =
        populate values host c.run_count s.now s.start_event (store s l p) l.events l.check_statuses
          c.hostname_metadata_cache c.push_times in
      send c s l d d.payload

  abbrev pub after_failed : Collector V → Surroundings → AgentPayload V → Ending C M E S → Outcome V
  after_failed c s p (finished l) = finish c s p l
  after_failed c s p (stopped l) = abandoned
  after_failed c s p unbound = raised unbound_local
  after_failed c s p escaped = raised method

  abbrev pub after_checks :
      Collector V
      → Surroundings
      → AgentPayload V
      → ℕ
      → List (Text × Text)
      → Ending C M E S
      → Outcome V
  after_checks c s p n failed (finished l) = after_failed c s p (add_failed m s.running n failed l)
  after_checks c s p n failed (stopped l) = abandoned
  after_checks c s p n failed unbound = raised unbound_local
  after_checks c s p n failed escaped = raised method

  unfoldable pub run :
      Collector V
      → Surroundings
      → AgentPayload V
      → Loop C M E S
      → List C
      → List (Text × Text)
      → Outcome V
  unfolding finish
  run c s p l checks failed =
      let c' = record c { run_count = c.run_count + 1 } in
      after_checks c' s p (length checks) failed (run_checks m s.running 0 checks l)
