-- ===== src/NetworkCheck/Pool.antt =====
-- checks/network_checks.py, class NetworkCheck: its state and its operations. The pool of threads is
-- a parameter, and so are the methods of the subclass and the number of active threads. No worker
-- puts a result while the loop of _process_results runs.
use dd_agent.Prelude.{
  ℕ, zero, suc, ◌+◌, ◌*◌, ◌==◌, min, Option, none, some, List, [], ◌∷◌, ◌++◌, Bool, true, false,
  leb, ltb, ◌||◌, if◌then◌else◌,
}
use dd_agent.Prelude.Dict.{Dict, get, put, remove}
use dd_agent.Prelude.Text.{Text, Text-discrete, codes}
use dd_agent.NetworkCheck.Instance.{
  Instance, settings_of, Key, Name-discrete, Key-discrete, Result, failed, checked,
}
use dd_agent.NetworkCheck.Window.{Status, up, Track, observe}

-- report_as_service_check and _create_status_event, which reads the statuses of the window
pub record Subclass (M E S : Type 0) : Type 0 where
  pub service_check_of : Option Text → Status → Instance → M → S
  pub status_event : List Status → Option Text → Status → M → Instance → Option E

-- checks.libs.thread_pool.Pool, with J the result of apply_async
pub record Pools (P J : Type 0) : Type 0 where
  pub make : ℕ → P
  pub terminate : P → P
  pub join : P → P
  pub get_nworkers : P → ℕ
  pub apply_async : P → Instance → J × P

pub record NetworkCheck (M E S P J : Type 0) : Type 0 where
  pub statuses : Dict Text (Dict (Option Text) (List Status))
  pub notified : Dict Key Status
  pub nb_failures : ℕ
  pub pool_started : Bool
  pub pool_size : ℕ
  pub pool : Option P
  pub resultsq : List (Result M)
  pub jobs_status : Dict Text ℕ
  pub jobs_results : Dict Text J
  pub events : List E
  pub service_checks : List S
  pub warnings : List Text
  pub threads_count : Option ℕ
  pub instance_count : ℕ

pub data Error : Type 0 where
  key_error attribute_error assertion_error too_many_threads : Error

pub data Outcome (N : Type 0) : Type 0 where
  done : N → Outcome N
  raised : Error → N → Outcome N

infixl 5 ◌>>=◌
abbrev pub ◌>>=◌ : {N : Type 0} → Outcome N → (N → Outcome N) → Outcome N
done n >>= f = f n
raised e n >>= f = raised e n

abbrev pub or_else {ℓ} : {A : Type ℓ} → Option A → A → A
or_else none a = a
or_else (some b) a = b

abbrev pub to_list : {A : Type 0} → Option A → List A
to_list none = []
to_list (some a) = a ∷ []

-- what self.warning is given for each result that may make an event
abbrev pub deprecation : Text
deprecation =
    codes
      "Using events for service checks is deprecated in favor of monitors and will be removed in future versions of the Datadog Agent."

abbrev pub timeout : ℕ
timeout = 180

abbrev pub max_loop_iterations : ℕ
max_loop_iterations = 1000

-- now - start_time > TIMEOUT for one of the jobs
abbrev pub stuck : Dict Text ℕ → ℕ → Bool
stuck [] now = false
stuck ((name, start) ∷ jobs) now = ltb (start + timeout) now || stuck jobs now

module _ {M E S P J : Type 0} (sub : Subclass M E S) (pools : Pools P J) where
  abbrev Net : Type 0
  Net = NetworkCheck M E S P J

  unfoldable pub start_pool : Net → Net
  start_pool n =
      let size = or_else n.threads_count (min n.instance_count 6) in
      record n {
        pool_size = size;
        pool = some (pools.make size);
        resultsq = [];
        jobs_status = [];
        jobs_results = [];
        pool_started = true;
      }

  unfoldable pub stop_pool : Net → Outcome Net
  stop_pool n =
      if n.pool_started
      then elim n.pool [
        | none ↦ raised attribute_error n
        | some p ↦
            let left = pools.join (pools.terminate p) in
            let cleared = record n { pool = some left; jobs_status = [] } in
            if pools.get_nworkers left == 0 then done cleared else raised assertion_error cleared
      ]
      else done n

  unfoldable pub restart_pool : Net → Outcome Net
  unfolding start_pool stop_pool
  restart_pool n = stop_pool n >>= λ m. done (start_pool m)

  -- stop
  unfoldable pub stop : Net → Outcome Net
  unfolding stop_pool
  stop n = stop_pool n >>= λ m. done (record m { pool_started = false })

  unfoldable pub clean_job : Text → Net → Net
  clean_job name n = record n {
    jobs_status = remove Text-discrete n.jobs_status name;
    jobs_results = remove Text-discrete n.jobs_results name;
  }

  -- What is stored of a service check.
  unfoldable pub track_at : Net → Key → Track
  track_at n (name, sc) = record {
    statuses = or_else (get Name-discrete (or_else (get Text-discrete n.statuses name) []) sc) [];
    notified = or_else (get Key-discrete n.notified (name, sc)) up;
  }

  -- The warning, the statuses, the window and the event, unless skip_event is set.
  unfoldable pub track : Text → Status → M → Option Text → Instance → Net → Net
  unfolding track_at observe
  track name s m sc i n =
      let (event, t) = observe (settings_of i) (track_at n (name, sc)) s in
      let own = or_else (get Text-discrete n.statuses name) [] in
      record n {
        warnings = n.warnings ++ deprecation ∷ [];
        statuses = put Text-discrete n.statuses name (put Name-discrete own sc t.statuses);
        notified = if event then put Key-discrete n.notified (name, sc) t.notified else n.notified;
        events = n.events ++ (if event then to_list (sub.status_event t.statuses sc s m i) else []);
      }

  -- One result that is taken out of the queue.
  unfoldable pub process_result : Result M → Net → Outcome Net
  unfolding restart_pool clean_job track
  process_result (failed i) n = elim i.name [
    | none ↦ raised key_error n
    | some name ↦
        if leb n.pool_size (suc n.nb_failures + 1)
        then (restart_pool (record n { nb_failures = 0 }) >>= λ m. done (clean_job name m))
        else done (clean_job name (record n { nb_failures = suc n.nb_failures }))
  ]
  process_result (checked s m sc i) n = elim i.name [
    | none ↦ raised key_error n
    | some name ↦
        let reported = record n {
          service_checks = n.service_checks ++ sub.service_check_of sc s i m ∷ [];
        } in
        done (clean_job name (if i.skip_event then reported else track name s m sc i reported))
  ]

  unfoldable pub process_some : ℕ → Net → Outcome Net
  unfolding process_result
  process_some zero n = done n
  process_some (suc k) n = elim n.resultsq [
    | [] ↦ done n
    | r ∷ rs ↦ process_result r (record n { resultsq = rs }) >>= process_some k
  ]

  unfoldable pub process_results : Net → Outcome Net
  unfolding process_some
  process_results n = process_some max_loop_iterations n

  unfoldable pub clean : ℕ → Net → Outcome Net
  unfolding restart_pool
  clean now n = if stuck n.jobs_status now then restart_pool n else done n

  -- The end of check: a job for the instance, unless it has one.
  unfoldable pub submit : ℕ → Instance → Net → Outcome Net
  submit now i n = elim i.name [
    | none ↦ done n
    | some name ↦ elim (get Text-discrete n.jobs_status name) [
      | some _ ↦ done n
      | none ↦ elim n.pool [
        | none ↦ raised attribute_error n
        | some p ↦
            let (job, p') = pools.apply_async p i in
            done (record n {
              jobs_status = put Text-discrete n.jobs_status name now;
              jobs_results = put Text-discrete n.jobs_results name job;
              pool = some p';
            })
      ]
    ]
  ]

  unfoldable pub check : ℕ → ℕ → Instance → Net → Outcome Net
  unfolding start_pool process_results clean submit
  check active now i n =
      let m = if n.pool_started then n else start_pool n in
      if ltb (5 * m.pool_size + 5) active
      then raised too_many_threads m
      else process_results m >>= clean now >>= submit now i
