-- ===== src/Collector/Stored.antt =====
-- The keys of the payload that a run sets, and those that it leaves.
use dd_agent.Prelude.{
  ℕ, ◌≡◌, refl, ap, ◌∙◌, some, List, [], ◌∷◌, ◌++◌, map, true, false, arith, ◌==◌,
}
use dd_agent.Prelude.Dict.{Dict}
use dd_agent.Prelude.Text.{Text, codes}
use dd_agent.Collector.Payload.{AgentPayload, getitem, Emitter, Emission, emission, emit_payload}
use dd_agent.Collector.Checks.{Checks, Loop}
use dd_agent.Collector.Populate.{Values, Host}
use dd_agent.Collector.Run.{Surroundings, store, completed}
use dd_agent.Collector.Kept.{IsConsistent, set-IsConsistent, getitem-setitem, getitem-setitem_other}

-- Keys with different first characters.
pub heads_differ : (a b : ℕ) (s t : Text) → (a == b) ≡ false → ¬ (a ∷ s ≡ b ∷ t)
heads_differ a b s t h e = ground (arith, ap head_or e)
  where
    head_or : Text → ℕ
    head_or [] = 0
    head_or (c ∷ s) = c

module _ {V : Type 0} where
  pub emit_payload_lem :
      (emitters : List (Emitter V)) (content : Dict Text V) (endpoint : Text)
      → (emit_payload true emitters content endpoint).1 ≡ map (emission content endpoint) emitters
  unfolding emit_payload
  emit_payload_lem [] content endpoint = refl
  emit_payload_lem (e ∷ es) content endpoint =
      ap (λ (x : List (Emission V)). emission content endpoint e ∷ x)
        (emit_payload_lem es content endpoint)

module _ {C V M E S : Type 0} (m : Checks C M E S) (values : Values V M E S) (host : Host V E) where
  module _ (s : Surroundings m values host) (l : Loop C M E S) where
    pub store-IsConsistent :
        (p : AgentPayload V) → IsConsistent p → IsConsistent (store m values host s l p)
    unfolding store
    store-IsConsistent p h =
        set-IsConsistent _ _ _ (set-IsConsistent _ _ _ (set-IsConsistent _ _ _ h))

    pub store_service_checks :
        (p : AgentPayload V)
        → getitem (store m values host s l p) (codes "service_checks")
          ≡ some (values.of_service_checks (l.service_checks ++ s.agent_up ∷ []))
    unfolding store
    store_service_checks p = getitem-setitem _ _ _

    pub store_key :
        (p : AgentPayload V)
        → getitem (store m values host s l p) (codes "apiKey") ≡ getitem p (codes "apiKey")
    unfolding store
    store_key p =
        getitem-setitem_other _ (codes "service_checks") (codes "apiKey") _
          (heads_differ _ _ _ _ refl)
        ∙ getitem-setitem_other _ (codes "events") (codes "apiKey") _ (heads_differ _ _ _ _ refl)
        ∙ getitem-setitem_other p (codes "metrics") (codes "apiKey") _ (heads_differ _ _ _ _ refl)

    pub completed-IsConsistent :
        (events : Dict Text (List E)) (p : AgentPayload V)
        → IsConsistent p
        → IsConsistent (completed m values host s l events p)
    completed-IsConsistent events p h = set-IsConsistent _ _ _ (set-IsConsistent _ _ _ h)

    pub completed_metrics :
        (events : Dict Text (List E)) (p : AgentPayload V)
        → getitem (completed m values host s l events p) (codes "metrics")
          ≡ some (values.of_metrics (l.metrics ++ s.agent_stats))
    completed_metrics events p = getitem-setitem _ _ _

    pub completed_events :
        (events : Dict Text (List E)) (p : AgentPayload V)
        → getitem (completed m values host s l events p) (codes "events")
          ≡ some (values.of_events events)
    completed_events events p =
        getitem-setitem_other _ (codes "metrics") (codes "events") _ (heads_differ _ _ _ _ refl)
        ∙ getitem-setitem p (codes "events") (values.of_events events)

    pub completed_other :
        (events : Dict Text (List E)) (p : AgentPayload V) (k : Text)
        → ¬ (codes "events" ≡ k)
        → ¬ (codes "metrics" ≡ k)
        → getitem (completed m values host s l events p) k ≡ getitem p k
    completed_other events p k a b =
        getitem-setitem_other _ (codes "metrics") k _ b
        ∙ getitem-setitem_other p (codes "events") k _ a
