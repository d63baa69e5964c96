-- ===== src/NetworkCheck/Results.antt =====
-- checks/network_checks.py, NetworkCheck._process_results: what a queue of results does to what is
-- stored of each service check.
use mathlib.Core.Logic.{ite, if_pos, if_neg}
use dd_agent.Prelude.{
  ℕ, zero, suc, ◌≤◌, ◌≡◌, ◌∙◌, ◌≢◌, refl, ap, sym, Option, none, some, List, [], ◌∷◌, ◌++◌, true,
  false, if◌then◌else◌, length, All, arith, Bool-cases, Option-cases, inl, inr,
}
use dd_agent.Prelude.Text.{Text}
use dd_agent.NetworkCheck.Window.{Status, Settings, Track, observe}
use dd_agent.NetworkCheck.Tracks.{track_at-track}
use dd_agent.NetworkCheck.Instance.{
  Instance, settings_of, Key, Key-discrete, Result, failed, checked,
}
use dd_agent.NetworkCheck.Pool.{
  Subclass, Pools, NetworkCheck, done, ◌>>=◌, clean_job, track_at, track, process_result,
  process_some, process_results, max_loop_iterations,
}

-- The results of a queue that are for a service check and are not skipped, with their settings.
unfoldable pub results_of : {M : Type 0} → Key → List (Result M) → List (Settings × Status)
results_of key [] = []
results_of key (failed i ∷ rs) = results_of key rs
results_of key (checked s m sc i ∷ rs) =
    let rest = results_of key rs in
    if i.skip_event then rest else elim i.name [
      | none ↦ rest
      | some name ↦ ite (Key-discrete (name, sc) key) ((settings_of i, s) ∷ rest) rest
    ]

unfoldable pub observe_each : Track → List (Settings × Status) → Track
observe_each t [] = t
observe_each t ((c, s) ∷ rs) = observe_each (observe c t s).1 rs

-- A result that is no failure, of an instance that has a name.
abbrev pub IsGood : {M : Type 0} → Result M → Type 0
IsGood (failed i) = ⊥
IsGood (checked s m sc i) = i.name ≢ none

module _ {M E S P J : Type 0} (sub : Subclass M E S) (pools : Pools P J) where
  abbrev Net : Type 0
  Net = NetworkCheck M E S P J

  -- What a result leads to, where the rest of the queue is yet to come.
  abbrev Handles : Net → Result M → Net → Type 0
  Handles n r n' =
      (n'.resultsq ≡ n.resultsq)
      × ((key : Key) (rs : List (Result M))
          → observe_each (track_at sub pools n' key) (results_of key rs)
            ≡ observe_each (track_at sub pools n key) (results_of key (r ∷ rs)))

  skipped_lem :
      (s : Status) (m : M) (sc : Option Text) (i : Instance) (name : Text) (key : Key)
      (rs : List (Result M))
      → i.name ≡ some name
      → i.skip_event ≡ true
      → results_of key (checked s m sc i ∷ rs) ≡ results_of key rs
  unfolding results_of
  skipped_lem s m sc i name key rs e skips = rw (skips, results_of) refl

  counted_lem :
      (s : Status) (m : M) (sc : Option Text) (i : Instance) (name : Text) (key : Key)
      (rs : List (Result M))
      → i.name ≡ some name
      → i.skip_event ≡ false
      → results_of key (checked s m sc i ∷ rs)
        ≡ ite
            (Key-discrete (name, sc) key)
            ((settings_of i, s) ∷ results_of key rs)
            (results_of key rs)
  unfolding results_of
  counted_lem s m sc i name key rs e counts = rw (counts, results_of) (rw e refl)

  observe_each-ite :
      (c : Settings) (s : Status) (n : Net) (this key : Key) (rest : List (Settings × Status))
      → observe_each
          (ite
            (Key-discrete this key)
            (observe c (track_at sub pools n this) s).1
            (track_at sub pools n key))
          rest
        ≡ observe_each (track_at sub pools n key) (ite (Key-discrete this key) ((c, s) ∷ rest) rest)
  unfolding observe_each
  observe_each-ite c s n this key rest = elim (Key-discrete this key) [
    | Dec.yes same ↦
        ap (λ t. observe_each t rest) (if_pos (Key-discrete this key) same _ _)
        ∙ ap (λ k. observe_each (observe c (track_at sub pools n k) s).1 rest) same
        ∙ ap (observe_each (track_at sub pools n key))
            (sym (if_pos (Key-discrete this key) same ((c, s) ∷ rest) rest))
    | Dec.no other ↦
        ap (λ t. observe_each t rest) (if_neg (Key-discrete this key) other _ _)
        ∙ ap (observe_each (track_at sub pools n key))
            (sym (if_neg (Key-discrete this key) other ((c, s) ∷ rest) rest))
  ]

  -- the state with the service check of a result
  abbrev reported : Net → Status → M → Option Text → Instance → Net
  reported n s m sc i = record n {
    service_checks = n.service_checks ++ sub.service_check_of sc s i m ∷ [];
  }

  process_result-Handles :
      (r : Result M) (n : Net)
      → IsGood r
      → (n' : Net) × (process_result sub pools r n ≡ done n') × Handles n r n'
  unfolding process_result clean_job track track_at
  process_result-Handles (failed i) n h = absurd h
  process_result-Handles (checked s m sc i) n h = elim (Option-cases i.name) [
    | inl none_named ↦ absurd (h none_named)
    | inr (name, e) ↦ elim (Bool-cases i.skip_event) [
      | inl skips ↦ (
        clean_job sub pools name (reported n s m sc i),
        simp (e, skips) refl,
        (
          refl,
          λ key rs.
              ap (observe_each (track_at sub pools n key))
                (sym (skipped_lem s m sc i name key rs e skips)),
        ),
      )
      | inr counts ↦ (
        clean_job sub pools name (track sub pools name s m sc i (reported n s m sc i)),
        simp (e, counts) refl,
        (
          refl,
          λ key rs.
              ap (λ t. observe_each t (results_of key rs))
                (track_at-track sub pools name s m sc i (reported n s m sc i) key)
              ∙ observe_each-ite (settings_of i) s n (name, sc) key (results_of key rs)
              ∙ ap (observe_each (track_at sub pools n key))
                  (sym (counted_lem s m sc i name key rs e counts)),
        ),
      )
    ]
  ]

  process_some-tracks :
      (k : ℕ) (rs : List (Result M)) (n : Net)
      → n.resultsq ≡ rs
      → length rs ≤ k
      → All IsGood rs
      → (n' : Net) × (process_some sub pools k n ≡ done n')
        × (n'.resultsq ≡ [])
        × ((key : Key)
            → track_at sub pools n' key
              ≡ observe_each (track_at sub pools n key) (results_of key rs))
  unfolding process_some results_of observe_each
  process_some-tracks zero [] n e l good = (n, refl, e, λ key. refl)
  process_some-tracks (suc k) [] n e l good = (n, rw e refl, e, λ key. refl)
  process_some-tracks zero (r ∷ rs) n e l good = absurd (omega arith)
  process_some-tracks (suc k) (r ∷ rs) n e l good =
      let (m, one, (queue, handles)) =
        process_result-Handles r (record n { resultsq = rs }) good.0 in
      let (n', rest, empty, tracks) = process_some-tracks k rs m queue (omega arith) good.1 in
      (
        n',
        rw (e, process_some) (ap (λ o. o >>= process_some sub pools k) one ∙ rest),
        empty,
        λ key. tracks key ∙ handles key rs,
      )

  -- A queue without failures, of at most 1,000 results of instances with a name, is emptied, and then
  -- what is stored of each service check, its window and what is notified, is what its own results in
  -- their order, less those of instances that skip events, make of what was stored before; those
  -- of the other service checks make no difference to it.
  pub process_results-refines :
      (n : Net)
      → length n.resultsq ≤ max_loop_iterations
      → All IsGood n.resultsq
      → (n' : Net) × (process_results sub pools n ≡ done n')
        × (n'.resultsq ≡ [])
        × ((key : Key)
            → track_at sub pools n' key
              ≡ observe_each (track_at sub pools n key) (results_of key n.resultsq))
  unfolding process_results
  process_results-refines n few good =
      process_some-tracks max_loop_iterations n.resultsq n refl few good
