-- ===== src/Collector/Emitted.antt =====
-- What a run of the collector emits.
use dd_agent.Prelude.{
  ℕ, ◌+◌, ◌&&◌, ◌≡◌, refl, sym, ap, ◌∙◌, Option, some, List, [], ◌∷◌, ◌++◌, map, Bool, true, All,
  length,
}
use mathlib.Core.Path.{subst}
use mathlib.Core.List.{map-append}
use dd_agent.Prelude.Dict.{Dict, get}
use dd_agent.Prelude.Text.{Text, Text-discrete, codes}
use dd_agent.Collector.Payload.{
  is_metadata, AgentPayload, payload, getitem, Emitter, emission, emit_payload, emit,
}
use dd_agent.Collector.Statuses.{CheckStatus}
use dd_agent.Collector.Checks.{Checks, Gathered, listed, save, Loop, finished}
use dd_agent.Collector.Collected.{
  all_metrics, all_service_checks, all_events, status_names, StartsBound, Reports,
  run_checks-Collected,
}
use dd_agent.Collector.Intervals.{is_first_run}
use dd_agent.Collector.Populate.{Values, Host, Populated, populate, startup_events}
use dd_agent.Collector.Run.{
  Collector, Report, Outcome, reported, Surroundings, store, completed, send, finish, after_failed,
  after_checks, run,
}
use dd_agent.Collector.Kept.{IsConsistent, merged-read}
use dd_agent.Collector.Stored.{
  heads_differ, emit_payload_lem, store-IsConsistent, store_service_checks, store_key,
  completed-IsConsistent, completed_metrics, completed_events, completed_other,
}
use dd_agent.Collector.Additions.{populate-some}
use dd_agent.Collector.Entries.{HasEntries, RunsWell, run_checks-entries, add_failed-entries}

finished_injective : {C M E S : Type 0} {l l' : Loop C M E S} → finished l ≡ finished l' → l ≡ l'
finished_injective e = cc

module _ {C V M E S : Type 0} (m : Checks C M E S) (values : Values V M E S) (host : Host V E) where
  -- What is emitted when the loops are over.
  abbrev Emits :
      Collector V → Surroundings m values host → AgentPayload V → Loop C M E S → Outcome V → Type 0
  Emits c s p l o =
      (r : Report V) × (o ≡ reported r)
      × (r.emissions ≡ map (λ (e : Emitter V). emission (payload r.payload) [] e) c.emitters)
      × (r.check_statuses ≡ l.check_statuses)
      × (get Text-discrete (payload r.payload) (codes "metrics")
          ≡ some (values.of_metrics (l.metrics ++ s.agent_stats)))
      × (get Text-discrete (payload r.payload) (codes "events")
          ≡ some (
              values.of_events
                (startup_events values host (s.start_event && is_first_run c.run_count) l.events)))
      × (get Text-discrete (payload r.payload) (codes "service_checks")
          ≡ some (values.of_service_checks (l.service_checks ++ s.agent_up ∷ [])))
      × (get Text-discrete (payload r.payload) (codes "apiKey") ≡ getitem p (codes "apiKey"))

  finish-Emits :
      (c : Collector V) (s : Surroundings m values host) (p : AgentPayload V) (l : Loop C M E S)
      → s.continue_running ≡ true
      → All HasEntries l.check_statuses
      → IsConsistent p
      → Emits c s p l (finish m values host c s p l)
  unfolding finish emit is_metadata Text-discrete
  finish-Emits c s p l running h consistent =
      let q : AgentPayload V = store m values host s l p in
      let d : Populated values host =
        populate values host c.run_count s.now s.start_event q l.events l.check_statuses
          c.hostname_metadata_cache c.push_times in
      let (p', e, k) =
        populate-some values host c.run_count s.now s.start_event q l.events l.check_statuses
          c.hostname_metadata_cache c.push_times h in
      let final : AgentPayload V = completed m values host s l d.events p' in
      let whole : IsConsistent final =
        completed-IsConsistent m values host s l d.events p'
          (k.consistent (store-IsConsistent m values host s l p consistent)) in
      (
        record {
          collector = record c { hostname_metadata_cache = d.cache; push_times = d.times };
          payload = final;
          check_statuses = l.check_statuses;
          emitter_statuses = (emit final s.continue_running c.emitters true).0;
          emissions = (emit final s.continue_running c.emitters true).1;
        },
        ap (λ (o : Option (AgentPayload V)). send m values host c s l d o) e,
        ap (λ (b : Bool). (emit_payload b c.emitters (payload final) []).1) running
            ∙ emit_payload_lem c.emitters (payload final) [],
        refl,
        merged-read final (codes "metrics") whole ∙ completed_metrics m values host s l d.events p',
        merged-read final (codes "events") whole ∙ completed_events m values host s l d.events p',
        merged-read final (codes "service_checks") whole
            ∙ completed_other m values host s l d.events p' (codes "service_checks")
                (heads_differ _ _ _ _ refl) (heads_differ _ _ _ _ refl)
            ∙ k.others (codes "service_checks") refl
            ∙ store_service_checks m values host s l p,
        merged-read final (codes "apiKey") whole
            ∙ completed_other m values host s l d.events p' (codes "apiKey")
                (heads_differ _ _ _ _ refl) (heads_differ _ _ _ _ refl)
            ∙ k.others (codes "apiKey") refl
            ∙ store_key m values host s l p,
      )

  -- A run that is not told to stop, with no statuses at hand and a payload that stands for a dict, whose
  -- checks do not raise, neither in the try block nor outside of it, and give metadata for each instance
  -- they ran, calls each emitter once with one payload. This has the metrics at hand, those of all checks
  -- in their order, with check_timings each with that of its run time, and those of AgentMetrics, the events by the name of the check that gave them, with the startup event on a
  -- first run, the service checks of all checks and that of the agent, and the API key that was there.
  -- The run reports one status for each check, also for those whose initialisation failed, in order.
  pub run_emits :
      (c : Collector V) (s : Surroundings m values host) (p : AgentPayload V) (l : Loop C M E S)
      (checks : List C) (failed : List (Text × Text))
      → ((j : ℕ) → s.running j ≡ true)
      → s.continue_running ≡ true
      → All (RunsWell m) checks
      → All (Reports m) checks
      → l.check_statuses ≡ []
      → IsConsistent p
      → (r : Report V) × (events : Dict Text (List E)) × (run m values host c s p l checks failed
          ≡ reported r)
        × (r.emissions ≡ map (λ (e : Emitter V). emission (payload r.payload) [] e) c.emitters)
        × (status_names m r.check_statuses
            ≡ map m.name checks ++ map (λ (f : Text × Text). f.0) failed)
        × (get Text-discrete (payload r.payload) (codes "metrics")
            ≡ some (values.of_metrics ((l.metrics ++ all_metrics m checks) ++ s.agent_stats)))
        × ((n : Text)
            → listed m (get Text-discrete events n)
              ≡ listed m (get Text-discrete l.events n) ++ all_events m n checks)
        × (get Text-discrete (payload r.payload) (codes "events")
            ≡ some (
                values.of_events (
                  startup_events values host
                    (s.start_event && is_first_run (c.run_count + 1))
                    events)))
        × (get Text-discrete (payload r.payload) (codes "service_checks")
            ≡ some (
                values.of_service_checks
                  ((l.service_checks ++ all_service_checks m checks) ++ s.agent_up ∷ [])))
        × (get Text-discrete (payload r.payload) (codes "apiKey") ≡ getitem p (codes "apiKey"))
  unfolding run
  run_emits c s p l checks failed running continues well reports fresh consistent =
      let c' : Collector V = record c { run_count = c.run_count + 1 } in
      let (l1, e1, added) =
        run_checks-Collected m s.running 0 checks l running (starts_well checks l well) reports in
      let (l2, e2, h2) =
        run_checks-entries m s.running 0 checks l running well reports
          (subst (All HasEntries) (sym fresh) tt) in
      let same : l2 ≡ l1 = finished_injective (sym e2 ∙ e1) in
      let (ss, e3, h3, q) =
        add_failed-entries m s.running (length checks) failed l1 running
          (subst (λ (x : Loop C M E S). All HasEntries x.check_statuses) same h2) in
      let l' : Loop C M E S = record l1 { check_statuses = l1.check_statuses ++ ss } in
      let (r, e, calls, statuses, metrics, events, services, key) =
        finish-Emits c' s p l' continues h3 consistent in
      (
        r,
        l1.events,
        ap (after_checks m values host c' s p (length checks) failed) e1
            ∙ ap (after_failed m values host c' s p) e3
            ∙ e,
        calls,
        ap (status_names m) statuses
            ∙ map-append (λ (x : CheckStatus). x.name) l1.check_statuses ss
            ∙ rw (added.names, q, fresh) refl,
        metrics ∙ ap (λ (x : List M). some (values.of_metrics (x ++ s.agent_stats))) added.metrics,
        added.events,
        events,
        services
            ∙ ap (λ (x : List S). some (values.of_service_checks (x ++ s.agent_up ∷ [])))
                added.service_checks,
        key,
      )
    where
      starts_well :
          (checks : List C) (l : Loop C M E S) → All (RunsWell m) checks → StartsBound m checks l
      starts_well [] l w = tt
      starts_well (x ∷ xs) l w =
          (w.0.0.metadata, ap (λ (o : Option (Gathered M E)). (save m x o l).metadata) w.0.1)
