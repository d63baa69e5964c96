-- ===== src/NetworkCheck/Restart.antt =====
-- checks/network_checks.py, class NetworkCheck: the restart of a pool in which a job is stuck.
use dd_agent.Prelude.{
  ℕ, ◌+◌, ◌*◌, ◌≤◌, ◌≡◌, ◌∙◌, refl, ap, some, [], ◌∷◌, Bool, true, false, if◌then◌else◌, arith, ltb,
}
use dd_agent.Prelude.Dict.{get, put}
use dd_agent.Prelude.Text.{Text}
use dd_agent.NetworkCheck.Instance.{Instance}
use dd_agent.NetworkCheck.Pool.{
  Subclass, Pools, NetworkCheck, Outcome, done, raised, ◌>>=◌, too_many_threads, start_pool,
  stop_pool, restart_pool, process_some, process_results, clean, submit, check, stuck,
}

module _ {M E S P J : Type 0} (sub : Subclass M E S) (pools : Pools P J) where
  abbrev Net : Type 0
  Net = NetworkCheck M E S P J

  no_results : (n : Net) → n.resultsq ≡ [] → process_results sub pools n ≡ done n
  unfolding process_results process_some
  no_results n e = simp e refl

  -- the state after a restart of the pool
  abbrev restarted : Net → P → Net
  restarted n p = start_pool sub pools (record n { pool = some p; jobs_status = [] })

  clean_old :
      (now : ℕ) (n : Net) (p : P)
      → n.pool_started ≡ true
      → n.pool ≡ some p
      → stuck n.jobs_status now ≡ true
      → pools.get_nworkers (pools.join (pools.terminate p)) ≡ 0
      → clean sub pools now n ≡ done (restarted n (pools.join (pools.terminate p)))
  unfolding clean restart_pool stop_pool start_pool
  clean_old now n p started pool old ended = simp (old, started, pool, ended) refl

  submit_idle :
      (now : ℕ) (i : Instance) (name : Text) (n : Net) (p : P)
      → i.name ≡ some name
      → (n' : Net) × (submit sub pools now i (restarted n p) ≡ done n')
        × (n'.pool ≡ some (pools.apply_async (pools.make n'.pool_size) i).1)
        × (n'.jobs_results ≡ (name, (pools.apply_async (pools.make n'.pool_size) i).0) ∷ [])
        × (n'.pool_started ≡ true)
        × (n'.jobs_status ≡ (name, now) ∷ [])
        × (n'.nb_failures ≡ n.nb_failures)
        × (n'.notified ≡ n.notified)
  unfolding submit start_pool get put
  submit_idle now i name n p named =
      let fresh = restarted n p in
      let given = pools.apply_async (pools.make fresh.pool_size) i in
      (
        record fresh {
          jobs_status = (name, now) ∷ [];
          jobs_results = (name, given.0) ∷ [];
          pool = some given.1;
        },
        simp (named, submit) refl,
        refl,
        refl,
        refl,
        refl,
        refl,
        refl,
      )

  -- A check that finds no results and no more threads than it allows, but a job that has run for more
  -- than 180 seconds, returns, if the pool ends all of its workers. The pool is then a new one, made
  -- with its size and given the instance, pool_started is true, and the only job is that of the
  -- instance, with its start time and the async result of the new pool.
  pub check-restarts :
      (active now : ℕ) (i : Instance) (name : Text) (n : Net) (p : P)
      → i.name ≡ some name
      → n.pool_started ≡ true
      → n.pool ≡ some p
      → n.resultsq ≡ []
      → active ≤ 5 * n.pool_size + 5
      → stuck n.jobs_status now ≡ true
      → pools.get_nworkers (pools.join (pools.terminate p)) ≡ 0
      → (n' : Net) × (check sub pools active now i n ≡ done n')
        × (n'.pool ≡ some (pools.apply_async (pools.make n'.pool_size) i).1)
        × (n'.jobs_results ≡ (name, (pools.apply_async (pools.make n'.pool_size) i).0) ∷ [])
        × (n'.pool_started ≡ true)
        × (n'.jobs_status ≡ (name, now) ∷ [])
        × (n'.nb_failures ≡ n.nb_failures)
        × (n'.notified ≡ n.notified)
  unfolding check
  check-restarts active now i name n p named started pool none_left few old ended =
      let left = pools.join (pools.terminate p) in
      let (n', given, pool', results', started', status, failures, notified) =
        submit_idle now i name n left named in
      let free : ltb (5 * n.pool_size + 5) active ≡ false = ground arith in
      let results = no_results n none_left in
      let cleaned = clean_old now n p started pool old ended in
      (
        n',
        ap
              (λ (b : Bool).
                let m = if b then n else start_pool sub pools n in
                if ltb (5 * m.pool_size + 5) active
                then raised too_many_threads m
                else process_results sub pools m >>= clean sub pools now >>= submit sub pools now i)
              started
            ∙ ap
                (λ (b : Bool).
                  if b
                  then raised too_many_threads n
                  else process_results sub pools n
                    >>= clean sub pools now
                    >>= submit sub pools now i)
                free
            ∙ ap (λ (o : Outcome Net). o >>= clean sub pools now >>= submit sub pools now i) results
            ∙ ap (λ (o : Outcome Net). o >>= submit sub pools now i) cleaned
            ∙ given,
        pool',
        results',
        started',
        status,
        failures,
        notified,
      )
