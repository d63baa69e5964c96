-- ===== src/Collector/Additions.antt =====
-- The metadata that a run adds to the payload.
use dd_agent.Prelude.{ℕ, ◌≡◌, refl, some, List, Bool, true, false, All, if◌then◌else◌, ◌&&◌}
use dd_agent.Prelude.Dict.{Dict}
use dd_agent.Prelude.Text.{Text, codes}
use dd_agent.Collector.Payload.{AgentPayload, setitem}
use dd_agent.Collector.Statuses.{CheckStatus}
use dd_agent.Collector.Intervals.{
  should_send, host_metadata, external_host_tags, agent_checks, is_first_run, PushTimes,
}
use dd_agent.Collector.Populate.{
  Values, Host, populate, add_agent_checks, add_startup, add_host, add_external,
}
use dd_agent.Collector.Kept.{
  Keeps, Keeps-refl, Keeps-trans, add_startup-Keeps, add_host-Keeps, add_external-Keeps,
  set_agent_checks-Keeps,
}
use dd_agent.Collector.Entries.{HasEntries, agent_check_entries-some}

module _ {V M E S : Type 0} (values : Values V M E S) (host : Host V E) where
  add_agent_checks-some :
      (due : Bool) (ss : List CheckStatus) (cache : V) (p : AgentPayload V)
      → All HasEntries ss
      → (p' : AgentPayload V) × (add_agent_checks values host due ss cache p ≡ some p') × Keeps p p'
  add_agent_checks-some true ss cache p h =
      let (es, e) = agent_check_entries-some ss h in
      (
        setitem (setitem p (codes "agent_checks") (values.of_agent_checks es)) (codes "meta") cache,
        rw e refl,
        set_agent_checks-Keeps values host p cache (values.of_agent_checks es),
      )
  add_agent_checks-some false ss cache p h = (p, refl, Keeps-refl p)

  -- The metadata are added to the payload.
  pub populate-some :
      (n now : ℕ) (start : Bool) (p : AgentPayload V) (events : Dict Text (List E))
      (ss : List CheckStatus) (cache : V) (times : PushTimes)
      → All HasEntries ss
      → (p' : AgentPayload V) × ((populate values host n now start p events ss cache times).payload
          ≡ some p')
        × Keeps p p'
  unfolding populate
  populate-some n now start p events ss cache times h =
      let first : Bool = start && is_first_run n in
      let d1 : Bool × PushTimes = should_send n now host_metadata times in
      let d2 : Bool × PushTimes = should_send n now external_host_tags d1.1 in
      let d3 : Bool × PushTimes = should_send n now agent_checks d2.1 in
      let p1 : AgentPayload V = add_startup values host first p in
      let p2 : AgentPayload V = add_host values host d1.0 p1 in
      let p3 : AgentPayload V = add_external values host d2.0 p2 in
      let (p4, e, k) =
        add_agent_checks-some d3.0 ss (if d1.0 then host.hostname_metadata else cache) p3 h in
      (
        p4,
        e,
        Keeps-trans p p1 p4 (add_startup-Keeps values host first p) (
            Keeps-trans p1 p2 p4 (add_host-Keeps values host d1.0 p1)
              (Keeps-trans p2 p3 p4 (add_external-Keeps values host d2.0 p2) k)),
      )
