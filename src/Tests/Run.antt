-- ===== src/Tests/Run.antt =====
-- checks/__init__.py, AgentCheck.run over three instances.
use dd_agent.Prelude.{ℕ, ◌≡◌, refl, Option, none, some, List, [], ◌∷◌, ◌==◌, if◌then◌else◌}
use dd_agent.Prelude.Text.{Text, codes}
use dd_agent.Check.Run

abbrev idle : Run.AgentCheck Text Text
idle = record {
  events = [];
  service_checks = [];
  warnings = [];
  instance_metadata = [];
  svc_metadata = [];
  last_collection_time = λ i. 90;
  min_collection_interval = 15;
}

-- The first instance warns and raises, and the others return.
abbrev checks : ℕ → Run.Run Text Text
checks i =
    if i == 0
    then record { saves = Run.warning (codes "slow") ∷ []; error = some (codes "down") }
    else record { saves = Run.service_metadata (codes "version") (codes "7") ∷ []; error = none }

abbrev instances : List (Option ℕ)
instances = some 5 ∷ none ∷ some 5 ∷ []

-- The second instance is not due, and the warning of the first is the third's.
run_test :
    (Run.run checks (λ i. 100) instances idle).0
    ≡ (0, Run.error (codes "down")) ∷ (2, Run.warned (codes "slow" ∷ [])) ∷ []
unfolding Run.run
run_test = refl
