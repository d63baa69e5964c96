-- ===== src/Collector/Entries.antt =====
-- The entries of agent_checks, where every instance has its metadata.
use dd_agent.Prelude.{
  ℕ, zero, suc, ◌+◌, ◌≤◌, ◌≡◌, refl, sym, ap, ◌∙◌, Option, none, some, List, [], ◌∷◌, ◌++◌, map,
  Bool, true, arith, All, All-append, length, get_elem?,
}
use mathlib.Core.Path.{subst}
use mathlib.Core.List.{append_assoc, append-nil}
use dd_agent.Prelude.Text.{Text}
use dd_agent.Collector.Statuses.{InstanceStatus, Metadata, CheckStatus}
use dd_agent.Collector.Checks.{
  Checks, Gathered, Attempt, failed_status, Loop, finished, attempt, save, status_of, run_check,
  run_checks, add_failed, conclude, conclude_if, conclude_reported, went,
}
use dd_agent.Collector.Collected.{Reports}
use dd_agent.Collector.Populate.{
  AgentCheckEntry, entry_of, instance_entries, check_entries, agent_check_entries,
}

-- The entries of a check are made without an IndexError.
abbrev pub HasEntries : CheckStatus → Type 0
HasEntries c = (es : List AgentCheckEntry) × (check_entries c c.instance_statuses ≡ some es)

get_elem?_in :
    {A : Type 0} (xs : List A) (i : ℕ) → suc i ≤ length xs → (a : A) × (get_elem? xs i ≡ some a)
get_elem?_in [] i h = absurd (omega arith)
get_elem?_in (x ∷ xs) zero h = (x, refl)
get_elem?_in (x ∷ xs) (suc i) h = get_elem?_in xs i (omega arith)

instance_entries-some :
    (c : CheckStatus) (i : ℕ) (ss : List InstanceStatus)
    → i + length ss ≤ length c.service_metadata
    → (es : List AgentCheckEntry) × (instance_entries c i ss ≡ some es)
unfolding instance_entries
instance_entries-some c i [] h = ([], refl)
instance_entries-some c i (s ∷ ss) h =
    let (d, e) = get_elem?_in c.service_metadata i (omega arith) in
    let (es, f) = instance_entries-some c (suc i) ss (omega arith) in
    (entry_of c s d ∷ es, rw (e, f) refl)

pub agent_check_entries-some :
    (cs : List CheckStatus)
    → All HasEntries cs
    → (es : List AgentCheckEntry) × (agent_check_entries cs ≡ some es)
unfolding agent_check_entries
agent_check_entries-some [] h = ([], refl)
agent_check_entries-some (c ∷ cs) (h, t) =
    let (es, e) = agent_check_entries-some cs t in (h.0 ++ es, rw (h.1, e) refl)

module _ {C M E S : Type 0} (m : Checks C M E S) where
  -- A check that does not raise and gives metadata for each of its instances.
  abbrev pub RunsWell : C → Type 0
  RunsWell c =
      (g : Gathered M E) × ((attempt m c).gathered ≡ some g)
      × (length (attempt m c).statuses ≤ length g.metadata)

  save-statuses :
      (c : C) (g : Option (Gathered M E)) (l : Loop C M E S)
      → (save m c g l).check_statuses ≡ l.check_statuses
  save-statuses c none l = refl
  save-statuses c (some g) l = refl

  run_check-entries :
      (c : C) (l : Loop C M E S)
      → RunsWell c
      → Reports m c
      → All HasEntries l.check_statuses
      → (l' : Loop C M E S) × (run_check m c l ≡ went l') × All HasEntries l'.check_statuses
  unfolding run_check
  run_check-entries c l (g, e, n) (r, f) h =
      let a : Attempt C M E = attempt m c in
      let l' : Loop C M E S = save m c a.gathered l in
      let bound : l'.metadata ≡ some g.metadata =
        ap (λ (o : Option (Gathered M E)). (save m c o l).metadata) e in
      let status : CheckStatus = status_of m c a r.1 g.metadata in
      (
        conclude m c a r g.metadata l',
        ap (λ (o : Option (List Metadata)). conclude_if m c a o l') bound
            ∙ ap (λ (o : Option (C × List S)). conclude_reported m c a o g.metadata l') f,
        All-append HasEntries l'.check_statuses (status ∷ [])
            (subst (All HasEntries) (sym (save-statuses c a.gathered l)) h)
            (instance_entries-some status 0 a.statuses (omega (arith, n)), tt),
      )

  pub run_checks-entries :
      (running : ℕ → Bool) (i : ℕ) (cs : List C) (l : Loop C M E S)
      → ((j : ℕ) → running j ≡ true)
      → All RunsWell cs
      → All (Reports m) cs
      → All HasEntries l.check_statuses
      → (l' : Loop C M E S) × (run_checks m running i cs l ≡ finished l')
        × All HasEntries l'.check_statuses
  unfolding run_checks
  run_checks-entries running i [] l r w v h = (l, refl, h)
  run_checks-entries running i (c ∷ cs) l r w v h =
      let (l', e, h') = run_check-entries c l w.0 v.0 h in
      let (l'', f, h'') = run_checks-entries running (suc i) cs l' r w.1 v.1 h' in
      (l'', rw (r i, run_checks) (rw e f), h'')

  -- The checks whose initialisation failed only add their statuses.
  pub add_failed-entries :
      (running : ℕ → Bool) (i : ℕ) (failed : List (Text × Text)) (l : Loop C M E S)
      → ((j : ℕ) → running j ≡ true)
      → All HasEntries l.check_statuses
      → (ss : List CheckStatus) × (add_failed m running i failed l
          ≡ finished (record l { check_statuses = l.check_statuses ++ ss }))
        × All HasEntries (l.check_statuses ++ ss)
        × (map (λ (s : CheckStatus). s.name) ss ≡ map (λ (f : Text × Text). f.0) failed)
  unfolding add_failed
  add_failed-entries running i [] l r h = (
    [],
    ap (λ (x : List CheckStatus). finished (record l { check_statuses = x }))
        (sym (append-nil l.check_statuses)),
    subst (All HasEntries) (sym (append-nil l.check_statuses)) h,
    refl,
  )
  add_failed-entries running i ((n, e) ∷ failed) l r h =
      let s : CheckStatus = failed_status n e in
      let l' : Loop C M E S = record l { check_statuses = l.check_statuses ++ s ∷ [] } in
      let (ss, f, h', q) =
        add_failed-entries running (suc i) failed l' r
          (All-append HasEntries l.check_statuses (s ∷ []) h ((_, refl), tt)) in
      let joined : (l.check_statuses ++ s ∷ []) ++ ss ≡ l.check_statuses ++ (s ∷ ss) =
        append_assoc l.check_statuses (s ∷ []) ss in
      (
        s ∷ ss,
        rw (r i, add_failed)
            (f ∙ ap (λ (x : List CheckStatus). finished (record l { check_statuses = x })) joined),
        subst (All HasEntries) joined h',
        ap (λ (x : List Text). n ∷ x) q,
      )
