-- ===== src/Check/Run.antt =====
-- checks/__init__.py, class AgentCheck: what a check saves, and run over its instances. The method
-- `check` is that of a subclass: what it does to the object is a list of saves, and an exception or
-- none at its end. Profiling in developer mode is left out.
use dd_agent.Prelude.{
  ℕ, suc, ◌+◌, Option, none, some, List, [], ◌∷◌, ◌++◌, Bool, true, false, ltb, ◌==◌, if◌then◌else◌,
}
use dd_agent.Prelude.Dict.{Dict, put}
use dd_agent.Prelude.Text.{Text, Text-discrete}

-- The attributes that a run writes, where E and S are the events and the service checks.
pub record AgentCheck (E S : Type 0) : Type 0 where
  pub events : List E
  pub service_checks : List S
  pub warnings : List Text
  pub instance_metadata : List (Text × Text)
  pub svc_metadata : List (Dict Text Text)
  pub last_collection_time : ℕ → ℕ
  pub min_collection_interval : ℕ

pub data Save (E S : Type 0) : Type 0 where
  event : E → Save E S
  service_check : S → Save E S
  service_metadata : Text → Text → Save E S
  warning : Text → Save E S

pub record Run (E S : Type 0) : Type 0 where
  pub saves : List (Save E S)
  pub error : Option Text

pub data Status : Type 0 where
  ok : Status
  warned : List Text → Status
  error : Text → Status

-- dict((k, v) for (k, v) in pairs)
unfoldable pub dict_of : List (Text × Text) → Dict Text Text → Dict Text Text
unfolding put Text-discrete
dict_of [] d = d
dict_of ((k, v) ∷ pairs) d = dict_of pairs (put Text-discrete d k v)

module _ {E S : Type 0} where
  unfoldable pub save : AgentCheck E S → Save E S → AgentCheck E S
  save a (event e) = record a { events = a.events ++ e ∷ [] }
  save a (service_check s) = record a { service_checks = a.service_checks ++ s ∷ [] }
  save a (service_metadata k v) = record a {
    instance_metadata = a.instance_metadata ++ (k, v) ∷ [];
  }
  save a (warning w) = record a { warnings = a.warnings ++ w ∷ [] }

  unfoldable pub save_all : AgentCheck E S → List (Save E S) → AgentCheck E S
  unfolding save
  save_all a [] = a
  save_all a (s ∷ ss) = save_all (save a s) ss

  unfoldable pub get_events : AgentCheck E S → List E × AgentCheck E S
  get_events a = (a.events, record a { events = [] })

  unfoldable pub get_service_checks : AgentCheck E S → List S × AgentCheck E S
  get_service_checks a = (a.service_checks, record a { service_checks = [] })

  unfoldable pub get_warnings : AgentCheck E S → List Text × AgentCheck E S
  get_warnings a = (a.warnings, record a { warnings = [] })

  -- _roll_up_instance_metadata
  unfoldable pub roll_up : AgentCheck E S → AgentCheck E S
  unfolding dict_of
  roll_up a = record a {
    svc_metadata = a.svc_metadata ++ dict_of a.instance_metadata [] ∷ [];
    instance_metadata = [];
  }

  unfoldable pub get_service_metadata : AgentCheck E S → List (Dict Text Text) × AgentCheck E S
  unfolding roll_up
  get_service_metadata a = elim a.instance_metadata [
    | [] ↦ (a.svc_metadata, record a { svc_metadata = [] })
    | _ ∷ _ ↦ ((roll_up a).svc_metadata, record (roll_up a) { svc_metadata = [] })
  ]

  -- An exception leaves the warnings of its instance for the next one.
  unfoldable pub status_of : AgentCheck E S → Option Text → Status × AgentCheck E S
  unfolding get_warnings
  status_of a (some e) = (error e, a)
  status_of a none = elim a.warnings [
    | [] ↦ (ok, a)
    | w ∷ ws ↦ (warned (w ∷ ws), record a { warnings = [] })
  ]

  -- now - self.last_collection_time[i] < min_collection_interval
  abbrev pub too_early : AgentCheck E S → ℕ → Option ℕ → ℕ → Bool
  too_early a i own now =
      ltb now
        (a.last_collection_time i + elim own [ none ↦ a.min_collection_interval | some n ↦ n ])

  -- An instance is its min_collection_interval, where it has one; `now` is the clock at its turn.
  module _ (check : ℕ → Run E S) (now : ℕ → ℕ) where
    abbrev pub collected : AgentCheck E S → ℕ → AgentCheck E S
    collected a i = record a {
      last_collection_time = λ j. if i == j then now i else a.last_collection_time j;
    }

    -- The metadata are rolled up on every way out, also where an instance is not run.
    unfoldable pub run_from :
        ℕ → List (Option ℕ) → AgentCheck E S → List (ℕ × Status) × AgentCheck E S
    unfolding save_all status_of roll_up
    run_from i [] a = ([], a)
    run_from i (own ∷ instances) a = elim (too_early a i own (now i)) [
      | true ↦ run_from (suc i) instances (roll_up a)
      | false ↦
          let r = check i in
          let (status, a') = status_of (save_all (collected a i) r.saves) r.error in
          let (statuses, left) = run_from (suc i) instances (roll_up a') in
          ((i, status) ∷ statuses, left)
    ]

    unfoldable pub run : List (Option ℕ) → AgentCheck E S → List (ℕ × Status) × AgentCheck E S
    unfolding run_from
    run instances a = run_from 0 instances a
