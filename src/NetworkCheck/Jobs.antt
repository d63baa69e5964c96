-- ===== src/NetworkCheck/Jobs.antt =====
-- checks/network_checks.py, class NetworkCheck: the jobs that run, their start and their end.
use mathlib.Core.Logic.{ite}
use mathlib.Core.Path.{subst}
use dd_agent.Prelude.{
  ℕ, zero, suc, ◌+◌, ◌*◌, ◌≡◌, refl, sym, Option, none, some, [], ◌∷◌, ◌++◌, Bool, true, false,
  if◌then◌else◌, Bool-cases, List-cases, Option-cases, inl, inr, leb, ltb,
}
use dd_agent.Prelude.Dict.{get, put, get-put, get-remove}
use dd_agent.Prelude.Text.{Text, Text-discrete}
use dd_agent.NetworkCheck.Instance.{Instance, Result, failed, checked}
use dd_agent.NetworkCheck.Pool.{
  Subclass, Pools, NetworkCheck, Outcome, done, raised, ◌>>=◌, Error, attribute_error,
  too_many_threads, max_loop_iterations, start_pool, stop_pool, restart_pool, clean_job, track,
  process_result, process_some, process_results, clean, submit, check, stuck,
}

abbrev pub has {ℓ} : {A : Type ℓ} → Option A → Bool
has none = false
has (some a) = true

has-ite :
    {A B C : Type 0} (d : Dec C) (x : A) (y : B) (a : Option A) (b : Option B)
    → has a ≡ has b
    → has (ite d (some x) a) ≡ has (ite d (some y) b)
has-ite (Dec.yes e) x y a b h = refl
has-ite (Dec.no e) x y a b h = h

has-ite-none :
    {A B C : Type 0} (d : Dec C) (a : Option A) (b : Option B)
    → has a ≡ has b
    → has (ite d none a) ≡ has (ite d none b)
has-ite-none (Dec.yes e) a b h = refl
has-ite-none (Dec.no e) a b h = h

module _ {M E S P J : Type 0} (sub : Subclass M E S) (pools : Pools P J) where
  abbrev Net : Type 0
  Net = NetworkCheck M E S P J

  -- An instance has a start time exactly if it has the result of a job to wait for.
  abbrev pub IsPaired : Net → Type 0
  IsPaired n =
      (name : Text)
      → has (get Text-discrete n.jobs_status name) ≡ has (get Text-discrete n.jobs_results name)

  -- Whatever is raised, if the code returns, the predicate holds.
  abbrev Returns : (Net → Type 0) → Outcome Net → Type 0
  Returns Q (done n) = Q n
  Returns Q (raised e n) = Unit

  bind_lem :
      (Q R : Net → Type 0) (o : Outcome Net) (f : Net → Outcome Net)
      → Returns Q o
      → ((n : Net) → Q n → Returns R (f n))
      → Returns R (o >>= f)
  bind_lem Q R (done n) f h k = k n h
  bind_lem Q R (raised e n) f h k = tt

  start_pool-IsPaired : (n : Net) → IsPaired (start_pool sub pools n)
  unfolding start_pool get
  start_pool-IsPaired n name = refl

  restart_pool-IsPaired : (n : Net) → Returns IsPaired (restart_pool sub pools n)
  unfolding restart_pool
  restart_pool-IsPaired n =
      bind_lem (λ m. Unit) IsPaired (stop_pool sub pools n) (λ m. done (start_pool sub pools m))
        (any (stop_pool sub pools n)) (λ m h. start_pool-IsPaired m)
    where
      any : (o : Outcome Net) → Returns (λ m. Unit) o
      any (done m) = tt
      any (raised e m) = tt

  clean_job-IsPaired : (name : Text) (n : Net) → IsPaired n → IsPaired (clean_job sub pools name n)
  unfolding clean_job
  clean_job-IsPaired name n h other = rw (get-remove Text-discrete n.jobs_status name other) (
      rw (get-remove Text-discrete n.jobs_results name other)
        (has-ite-none (Text-discrete name other) _ _ (h other)))

  if-IsPaired : (b : Bool) (x y : Net) → IsPaired x → IsPaired y → IsPaired (if b then x else y)
  if-IsPaired true x y h k = h
  if-IsPaired false x y h k = k

  process_result-IsPaired :
      (r : Result M) (n : Net) → IsPaired n → Returns IsPaired (process_result sub pools r n)
  unfolding process_result track
  process_result-IsPaired (failed i) n h = elim (Option-cases i.name) [
    | inl unnamed ↦ rw unnamed tt
    | inr (name, e) ↦ elim (Bool-cases (leb n.pool_size (suc n.nb_failures + 1))) [
      | inl many ↦ rw e (
          rw many (
            bind_lem IsPaired IsPaired (restart_pool sub pools (record n { nb_failures = 0 })) _
              (restart_pool-IsPaired (record n { nb_failures = 0 }))
              (λ m. clean_job-IsPaired name m)))
      | inr few ↦
          rw e (rw few (clean_job-IsPaired name (record n { nb_failures = suc n.nb_failures }) h))
    ]
  ]
  process_result-IsPaired (checked s m sc i) n h = elim (Option-cases i.name) [
    | inl unnamed ↦ rw unnamed tt
    | inr (name, e) ↦
        let shown : Net = record n {
          service_checks = n.service_checks ++ sub.service_check_of sc s i m ∷ [];
        } in
        let tracked = track sub pools name s m sc i shown in
        let returns : process_result sub pools (checked s m sc i) n
            ≡ done (clean_job sub pools name (if i.skip_event then shown else tracked)) =
          simp (e, process_result) refl in
        subst (Returns IsPaired) (sym returns) (
          clean_job-IsPaired name (if i.skip_event then shown else tracked)
            (if-IsPaired i.skip_event shown tracked h h))
  ]

  process_some-IsPaired :
      (k : ℕ) (n : Net) → IsPaired n → Returns IsPaired (process_some sub pools k n)
  unfolding process_some
  process_some-IsPaired zero n h = h
  process_some-IsPaired (suc k) n h = elim (List-cases n.resultsq) [
    | inl e ↦ rw e h
    | inr (r, rs, e) ↦
        rw (e, process_some)
          (bind_lem IsPaired IsPaired (process_result sub pools r (record n { resultsq = rs })) _
            (process_result-IsPaired r (record n { resultsq = rs }) h) (process_some-IsPaired k))
  ]

  clean-IsPaired : (now : ℕ) (n : Net) → IsPaired n → Returns IsPaired (clean sub pools now n)
  unfolding clean
  clean-IsPaired now n h = elim (Bool-cases (stuck n.jobs_status now)) [
    | inl old ↦ rw old (restart_pool-IsPaired n)
    | inr recent ↦ rw recent h
  ]

  submit-IsPaired :
      (now : ℕ) (i : Instance) (n : Net) → IsPaired n → Returns IsPaired (submit sub pools now i n)
  unfolding submit
  submit-IsPaired now i n h = elim (Option-cases i.name) [
    | inl unnamed ↦
        let returns : submit sub pools now i n ≡ done n = simp (unnamed, submit) refl in
        subst (Returns IsPaired) (sym returns) h
    | inr (name, e) ↦ elim (Option-cases (get Text-discrete n.jobs_status name)) [
      | inr (start, running) ↦
          let returns : submit sub pools now i n ≡ done n = simp (e, running, submit) refl in
          subst (Returns IsPaired) (sym returns) h
      | inl idle ↦ elim (Option-cases n.pool) [
        | inl no_pool ↦
            let fails : submit sub pools now i n ≡ raised attribute_error n =
              simp (e, idle, no_pool, submit) refl in
            subst (Returns IsPaired) (sym fails) tt
        | inr (p, pool) ↦
            let m : Net = record n {
              jobs_status = put Text-discrete n.jobs_status name now;
              jobs_results = put Text-discrete n.jobs_results name (pools.apply_async p i).0;
              pool = some (pools.apply_async p i).1;
            } in
            let returns : submit sub pools now i n ≡ done m = simp (e, idle, pool, submit) refl in
            subst (Returns IsPaired) (sym returns) (λ other.
              rw (get-put Text-discrete n.jobs_status name other now) (
                rw (get-put Text-discrete n.jobs_results name other (pools.apply_async p i).0)
                  (has-ite (Text-discrete name other) _ _ _ _ (h other))))
      ]
    ]
  ]

  process_results-IsPaired : (n : Net) → IsPaired n → Returns IsPaired (process_results sub pools n)
  unfolding process_results
  process_results-IsPaired n = process_some-IsPaired max_loop_iterations n

  guarded_lem :
      (b : Bool) (e : Error) (m : Net) (o : Outcome Net)
      → Returns IsPaired o
      → Returns IsPaired (if b then raised e m else o)
  guarded_lem true e m o h = tt
  guarded_lem false e m o h = h

  check-Returns :
      (active now : ℕ) (i : Instance) (n : Net)
      → IsPaired n
      → Returns IsPaired (check sub pools active now i n)
  unfolding check
  check-Returns active now i n h =
      let m = if n.pool_started then n else start_pool sub pools n in
      let paired =
        if-IsPaired n.pool_started n (start_pool sub pools n) h (start_pool-IsPaired n) in
      guarded_lem (ltb (5 * m.pool_size + 5) active) too_many_threads m
        (process_results sub pools m >>= clean sub pools now >>= submit sub pools now i)
        (bind_lem IsPaired IsPaired (process_results sub pools m >>= clean sub pools now)
          (submit sub pools now i)
          (bind_lem IsPaired IsPaired (process_results sub pools m) (clean sub pools now)
            (process_results-IsPaired m paired) (clean-IsPaired now))
          (submit-IsPaired now i))

  -- If check returns, then every instance that has a start time of its job still has the job to wait
  -- for, and none has a job without a start time, provided that this was so before.
  pub check-IsPaired :
      (active now : ℕ) (i : Instance) (n n' : Net)
      → IsPaired n
      → check sub pools active now i n ≡ done n'
      → IsPaired n'
  check-IsPaired active now i n n' h e = subst (Returns IsPaired) e (check-Returns active now i n h)
