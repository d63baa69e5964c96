-- ===== src/Collector/Collected.antt =====
-- What the loop over the checks collects.
use dd_agent.Prelude.{
  ℕ, suc, ◌≡◌, refl, sym, ap, ◌∙◌, Option, none, some, List, [], ◌∷◌, ◌++◌, map, Bool, true, All,
}
use mathlib.Core.Logic.{ite, if_pos, if_neg}
use mathlib.Core.List.{append_assoc, append-nil, map-append}
use mathlib.Core.Path.{subst}
use dd_agent.Prelude.Dict.{Dict, get, get-put, get-put_self}
use dd_agent.Prelude.Text.{Text, Text-discrete}
use dd_agent.Collector.Statuses.{CheckStatus, Metadata}
use dd_agent.Collector.Checks.{
  Checks, Gathered, Loop, finished, unbound, attempt, listed, save, reported, run_check, conclude,
  conclude_if, conclude_reported, went, no_metadata, timing_of, save_events, run_checks,
}

ite_same : {A P : Type 0} (d : Dec P) → ite {C = List A} d [] [] ≡ []
ite_same {A} (yes p) = if_pos (yes p) p [] []
ite_same {A} (no q) = if_neg (no q) q [] []

-- Two parts of a list that was added to.
added : {A : Type 0} (x a r : List A) {y : List A} → y ≡ x ++ (a ++ []) → y ++ r ≡ x ++ (a ++ r)
added x a r e = rw (e, append-nil a) (append_assoc x a r)

module _ {C M E S : Type 0} (m : Checks C M E S) where
  abbrev pub metrics_of : Option (Gathered M E) → List M
  metrics_of none = []
  metrics_of (some g) = g.metrics

  abbrev pub events_of : Option (Gathered M E) → List E
  events_of none = []
  events_of (some g) = g.events

  abbrev pub services_of : Option (C × List S) → List S
  services_of none = []
  services_of (some r) = r.1

  -- What the checks give, each on its own: one whose attempt raised gives no metrics and no events, and
  -- with check_timings each gives the metric of its run time behind its own.
  abbrev pub all_metrics : List C → List M
  all_metrics [] = []
  all_metrics (c ∷ cs) =
      (metrics_of (attempt m c).gathered ++ timing_of m (m.check_run_time c)) ++ all_metrics cs

  abbrev pub all_service_checks : List C → List S
  all_service_checks [] = []
  all_service_checks (c ∷ cs) = services_of (reported m c (attempt m c)) ++ all_service_checks cs

  abbrev pub all_events : Text → List C → List E
  all_events n [] = []
  all_events n (c ∷ cs) =
      ite (Text-discrete (m.name c) n) (events_of (attempt m c).gathered) [] ++ all_events n cs

  abbrev pub status_names : List CheckStatus → List Text
  status_names ss = map (λ (s : CheckStatus). s.name) ss

  -- The loop has added what the checks give.
  pub record Collected (cs : List C) (l l' : Loop C M E S) : Type 0 where
    pub metrics : l'.metrics ≡ l.metrics ++ all_metrics cs
    pub service_checks : l'.service_checks ≡ l.service_checks ++ all_service_checks cs
    pub names : status_names l'.check_statuses ≡ status_names l.check_statuses ++ map m.name cs
    pub events :
        (n : Text)
        → listed m (get Text-discrete l'.events n)
          ≡ listed m (get Text-discrete l.events n) ++ all_events n cs

  abbrev pub IsBound : Loop C M E S → Type 0
  IsBound l = (d : List Metadata) × (l.metadata ≡ some d)

  put_events :
      (k : Text) (es : List E) (d : Dict Text (List E)) (n : Text)
      → listed m (get Text-discrete (save_events m k es d) n)
        ≡ listed m (get Text-discrete d n) ++ ite (Text-discrete k n) es []
  put_events k [] d n = sym (
      ap (λ (x : List E). listed m (get Text-discrete d n) ++ x) (ite_same (Text-discrete k n))
      ∙ append-nil _)
  put_events k (e ∷ es) d n = elim (Text-discrete k n) [
    | yes p ↦
        subst
          (λ x.
            listed m (get Text-discrete (save_events m k (e ∷ es) d) x)
            ≡ listed m (get Text-discrete d x) ++ ite (Text-discrete k x) (e ∷ es) [])
          p
          (rw
            (
              get-put_self Text-discrete d k (listed m (get Text-discrete d k) ++ (e ∷ es)),
              if_pos (Text-discrete k k) refl (e ∷ es) [],
            )
            refl)
    | no q ↦
        rw
          (
            get-put Text-discrete d k n (listed m (get Text-discrete d k) ++ (e ∷ es)),
            if_neg (Text-discrete k n) q (some (listed m (get Text-discrete d k) ++ (e ∷ es)))
                (get Text-discrete d n),
            if_neg (Text-discrete k n) q (e ∷ es) [],
          )
          (sym (append-nil _))
  ]

  -- The events under a name after a check has saved its own.
  save-events :
      (c : C) (g : Option (Gathered M E)) (l : Loop C M E S) (n : Text)
      → listed m (get Text-discrete (save m c g l).events n)
        ≡ listed m (get Text-discrete l.events n)
          ++ ite (Text-discrete (m.name c) n) (events_of g) []
  save-events c none l n = put_events (m.name c) [] l.events n
  save-events c (some g) l n = put_events (m.name c) g.events l.events n

  save-metrics :
      (c : C) (g : Option (Gathered M E)) (l : Loop C M E S)
      → (save m c g l).metrics ≡ l.metrics ++ metrics_of g
  save-metrics c none l = sym (append-nil l.metrics)
  save-metrics c (some g) l = refl

  save-service_checks :
      (c : C) (g : Option (Gathered M E)) (l : Loop C M E S)
      → (save m c g l).service_checks ≡ l.service_checks
  save-service_checks c none l = refl
  save-service_checks c (some g) l = refl

  save-check_statuses :
      (c : C) (g : Option (Gathered M E)) (l : Loop C M E S)
      → (save m c g l).check_statuses ≡ l.check_statuses
  save-check_statuses c none l = refl
  save-check_statuses c (some g) l = refl

  Collected-nil : (l : Loop C M E S) → Collected [] l l
  Collected-nil l = record {
    metrics = sym (append-nil l.metrics);
    service_checks = sym (append-nil l.service_checks);
    names = sym (append-nil (status_names l.check_statuses));
    events = λ n. sym (append-nil (listed m (get Text-discrete l.events n)));
  }

  Collected-cons :
      (c : C) (cs : List C) (l l' l'' : Loop C M E S)
      → Collected (c ∷ []) l l'
      → Collected cs l' l''
      → Collected (c ∷ cs) l l''
  Collected-cons c cs l l' l'' p q = record {
    metrics = q.metrics ∙ added l.metrics _ (all_metrics cs) p.metrics;
    service_checks =
        q.service_checks ∙ added l.service_checks _ (all_service_checks cs) p.service_checks;
    names = q.names ∙ added (status_names l.check_statuses) (m.name c ∷ []) (map m.name cs) p.names;
    events = λ n.
        q.events n
        ∙ added (listed m (get Text-discrete l.events n)) _ (all_events n cs) (p.events n);
  }

  -- The methods that are called outside of the try block return.
  abbrev pub Reports : C → Type 0
  Reports c = (r : C × List S) × (reported m c (attempt m c) ≡ some r)

  -- One turn with current_check_metadata bound.
  run_check-Collected :
      (c : C) (l : Loop C M E S)
      → IsBound (save m c (attempt m c).gathered l)
      → Reports c
      → (l' : Loop C M E S) × (run_check m c l ≡ went l') × IsBound l' × Collected (c ∷ []) l l'
  unfolding run_check
  run_check-Collected c l (d, b) (r, e) =
      let g : Option (Gathered M E) = (attempt m c).gathered in
      let l' : Loop C M E S = save m c g l in
      (
        conclude m c (attempt m c) r d l',
        ap (λ (o : Option (List Metadata)). conclude_if m c (attempt m c) o l') b
            ∙ ap (λ (o : Option (C × List S)). conclude_reported m c (attempt m c) o d l') e,
        (d, b),
        record {
          metrics =
              ap (λ (x : List M). x ++ timing_of m (m.check_run_time c)) (save-metrics c g l)
              ∙ append_assoc l.metrics (metrics_of g) (timing_of m (m.check_run_time c))
              ∙ ap (λ (x : List M). l.metrics ++ x) (sym (append-nil _));
          service_checks =
              ap (λ (x : List S). x ++ r.1) (save-service_checks c g l)
              ∙ ap (λ (o : Option (C × List S)). l.service_checks ++ services_of o) (sym e)
              ∙ ap (λ (x : List S). l.service_checks ++ x) (sym (append-nil _));
          names =
              map-append (λ (x : CheckStatus). x.name) l'.check_statuses _
              ∙ ap (λ (x : List CheckStatus). status_names x ++ m.name c ∷ [])
                  (save-check_statuses c g l);
          events = λ n.
              save-events c g l n
              ∙ ap (λ (x : List E). listed m (get Text-discrete l.events n) ++ x)
                  (sym (append-nil _));
        },
      )

  -- Whether current_check_metadata is bound when the first check has had its turn.
  abbrev pub StartsBound : List C → Loop C M E S → Type 0
  StartsBound [] l = Unit
  StartsBound (c ∷ cs) l = IsBound (save m c (attempt m c).gathered l)

  save-IsBound :
      (c : C) (g : Option (Gathered M E)) (l : Loop C M E S) → IsBound l → IsBound (save m c g l)
  save-IsBound c none l h = h
  save-IsBound c (some g) l h = (g.metadata, refl)

  starts : (cs : List C) (l : Loop C M E S) → IsBound l → StartsBound cs l
  starts [] l h = tt
  starts (c ∷ cs) l h = save-IsBound c (attempt m c).gathered l h

  -- A loop that is not stopped, and that starts with no check or with one that does not raise or
  -- with current_check_metadata bound, ends if the methods return that it calls outside of its try
  -- block: get_library_info, service_check and get_service_checks. Whatever other checks raise within
  -- it, the loop adds all metrics, with check_timings that of each run time too, events by the name of
  -- their check, service checks, and one status for each check, in the order of the checks.
  pub run_checks-Collected :
      (running : ℕ → Bool) (i : ℕ) (cs : List C) (l : Loop C M E S)
      → ((j : ℕ) → running j ≡ true)
      → StartsBound cs l
      → All Reports cs
      → (l' : Loop C M E S) × (run_checks m running i cs l ≡ finished l') × Collected cs l l'
  unfolding run_checks
  run_checks-Collected running i [] l r h w = (l, refl, Collected-nil l)
  run_checks-Collected running i (c ∷ cs) l r h w =
      let (l', e, b, p) = run_check-Collected c l h w.0 in
      let (l'', f, q) = run_checks-Collected running (suc i) cs l' r (starts cs l' b) w.1 in
      (l'', rw (r i, run_checks) (rw e f), Collected-cons c cs l l' l'' p q)

  run_check-none :
      (c : C) (l : Loop C M E S)
      → l.metadata ≡ none
      → (attempt m c).gathered ≡ none
      → run_check m c l ≡ no_metadata
  unfolding run_check
  run_check-none c l u g = rw (g, u) refl

  -- Without current_check_metadata bound, a first check that raises ends the run.
  pub run_checks-unbound :
      (running : ℕ → Bool) (i : ℕ) (c : C) (cs : List C) (l : Loop C M E S)
      → running i ≡ true
      → l.metadata ≡ none
      → (attempt m c).gathered ≡ none
      → run_checks m running i (c ∷ cs) l ≡ unbound
  unfolding run_checks run_check
  run_checks-unbound running i c cs l r u g = rw (r, run_checks) (rw (run_check-none c l u g) refl)
