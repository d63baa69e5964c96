-- ===== src/Tests/NetworkCheck.antt =====
-- checks/network_checks.py: a service check that goes down and up, and a job that is stuck.
use dd_agent.Prelude.{
  ℕ, ◌≤◌, ◌≡◌, refl, none, some, List, [], ◌∷◌, ◌++◌, All, true, false, pos, arith, length,
}
use dd_agent.Prelude.Dict.{get}
use dd_agent.Prelude.Text.{Text, Text-discrete, codes}
use dd_agent.NetworkCheck.Window.{
  Status, down, warning, up, Settings, observe, fresh, observe_all, latest,
}
use dd_agent.NetworkCheck.Levels.{track_of, Changes, observe_all-latest, observe-Changes}
use dd_agent.NetworkCheck.Instance.{check_names, duplicate, named, Instance, Key, Result, checked}
use dd_agent.NetworkCheck.Pool.{
  Subclass, Pools, NetworkCheck, done, track_at, process_results, check, max_loop_iterations,
}
use dd_agent.NetworkCheck.Jobs.{has, IsPaired, check-IsPaired}
use dd_agent.NetworkCheck.Restart.{check-restarts}
use dd_agent.NetworkCheck.Results.{results_of, observe_each, IsGood, process_results-refines}

-- Two DOWN of the last three.
abbrev settings : Settings
settings = record { window = pos 3; threshold = pos 2 }

abbrev history : List Status
history = down ∷ up ∷ down ∷ warning ∷ []

observe_all-latest_example :
    observe_all settings fresh (history ++ up ∷ []) ≡ track_of settings (history ++ up ∷ [])
observe_all-latest_example = observe_all-latest settings history up

track_test :
    track_of settings (history ++ up ∷ [])
    ≡ record { statuses = down ∷ warning ∷ up ∷ []; notified = up }
unfolding latest
track_test = refl

observe-Changes_example :
    ((observe settings (observe_all settings fresh history) up).0 ≡ true
      → Changes settings (observe_all settings fresh history) up)
    × ((observe settings (observe_all settings fresh history) up).0 ≡ false
        → (observe settings (observe_all settings fresh history) up).1.notified
          ≡ (observe_all settings fresh history).notified)
observe-Changes_example = observe-Changes settings history up refl

-- Messages, events and service checks are texts; the pool is the number of its workers.
abbrev subclass : Subclass Text Text Text
subclass = record { service_check_of = λ sc s i m. m; status_event = λ ss sc s m i. some m }

abbrev pools : Pools ℕ Text
pools = record {
  make = λ n. n;
  terminate = λ p. p;
  join = λ p. 0;
  get_nworkers = λ p. p;
  apply_async = λ p i. (codes "job", p);
}

abbrev web : Instance
web = record {
  name = some (codes "web");
  skip_event = false;
  window = some (pos 3);
  threshold = some (pos 2);
}

abbrev result : Status → Result Text
result s = checked s (codes "refused") none web

abbrev started : NetworkCheck Text Text Text ℕ Text
started = record {
  statuses = [];
  notified = [];
  nb_failures = 0;
  pool_started = true;
  pool_size = 1;
  pool = some 1;
  resultsq = result down ∷ result down ∷ [];
  jobs_status = (codes "web", 100) ∷ [];
  jobs_results = (codes "web", codes "job") ∷ [];
  events = [];
  service_checks = [];
  warnings = [];
  threads_count = none;
  instance_count = 1;
}

few : length started.resultsq ≤ max_loop_iterations
few = omega arith

good : All IsGood started.resultsq
good = ((λ e. cc), ((λ e. cc), tt))

process_results-refines_example :
    (n' : NetworkCheck Text Text Text ℕ Text) × (process_results subclass pools started ≡ done n')
    × (n'.resultsq ≡ [])
    × ((key : Key)
        → track_at subclass pools n' key
          ≡ observe_each (track_at subclass pools started key) (results_of key started.resultsq))
process_results-refines_example = process_results-refines subclass pools started few good

abbrev quiet : NetworkCheck Text Text Text ℕ Text
quiet = record started { resultsq = [] }

check-restarts_example :
    (n' : NetworkCheck Text Text Text ℕ Text) × (check subclass pools 7 300 web quiet ≡ done n')
    × (n'.pool ≡ some (pools.apply_async (pools.make n'.pool_size) web).1)
    × (n'.jobs_results ≡ (codes "web", (pools.apply_async (pools.make n'.pool_size) web).0) ∷ [])
    × (n'.pool_started ≡ true)
    × (n'.jobs_status ≡ (codes "web", 300) ∷ [])
    × (n'.nb_failures ≡ 0)
    × (n'.notified ≡ [])
check-restarts_example =
    check-restarts subclass pools 7 300 web (codes "web") quiet 1 refl refl refl refl (omega arith)
      refl refl

quiet-IsPaired : IsPaired subclass pools quiet
unfolding get
quiet-IsPaired name = ground arith

quiet_run :
    (n' : NetworkCheck Text Text Text ℕ Text) × (check subclass pools 7 300 web quiet ≡ done n')
quiet_run =
    let r =
      check-restarts subclass pools 7 300 web (codes "web") quiet 1 refl refl refl refl
        (omega arith) refl refl in
    (r.0, r.1)

check-IsPaired_example :
    has (get Text-discrete quiet_run.0.jobs_status (codes "web"))
    ≡ has (get Text-discrete quiet_run.0.jobs_results (codes "web"))
check-IsPaired_example =
    check-IsPaired subclass pools 7 300 web quiet quiet_run.0 quiet-IsPaired quiet_run.1
      (codes "web")

names_test :
    check_names (web ∷ record web { name = some (codes "db") } ∷ []) []
    ≡ named (codes "web" ∷ codes "db" ∷ [])
unfolding check_names Text-discrete
names_test = refl

duplicate_test : check_names (web ∷ web ∷ []) [] ≡ duplicate (codes "web")
unfolding check_names Text-discrete
duplicate_test = refl
