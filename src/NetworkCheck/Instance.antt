-- ===== src/NetworkCheck/Instance.antt =====
-- checks/network_checks.py, class NetworkCheck: the instances of a check, the test of their names, and the
-- results of their jobs.
use native.Mathlib.Decide.{ℕ_discrete}
use dd_agent.Prelude.{
  ℤ, pos, Option, none, some, List, [], ◌∷◌, ◌++◌, map, Bool, true, false, if◌then◌else◌,
}
use dd_agent.Prelude.Text.{Text, Text-discrete}
use dd_agent.NetworkCheck.Window.{Status, Settings}

-- What the class reads of an instance.
pub record Instance : Type 0 where
  pub name : Option Text
  pub skip_event : Bool
  pub window : Option ℤ
  pub threshold : Option ℤ

abbrev pub or_one : Option ℤ → ℤ
or_one none = pos 1
or_one (some n) = n

abbrev pub settings_of : Instance → Settings
settings_of i = record { window = or_one i.window; threshold = or_one i.threshold }

-- The name of a service check of an instance.
abbrev pub Key : Type 0
Key = Text × Option Text

unfoldable pub Name-discrete : Discrete (Option Text)
unfolding ℕ_discrete
Name-discrete = hlevel ℕ_discrete

unfoldable pub Key-discrete : Discrete Key
unfolding ℕ_discrete
Key-discrete = hlevel ℕ_discrete

-- An element of the queue of results, with a message M.
pub data Result (M : Type 0) : Type 0 where
  failed : Instance → Result M
  checked : Status → M → Option Text → Instance → Result M

-- What _check returns: a tuple, a list, or an exception.
pub data Checked (M : Type 0) : Type 0 where
  one : Status → M → Checked M
  many : List (Option Text × Status × M) → Checked M
  raises : Checked M

-- What _process puts into the queue.
unfoldable pub process : {M : Type 0} → Checked M → Instance → List (Result M)
process (one s m) i = checked s m none i ∷ []
process (many rs) i = map (λ r. checked r.1 r.2 r.0 i) rs
process raises i = failed i ∷ []

-- How the constructor ends: with the names, or with the exception of an instance without a name or
-- with that of an earlier one.
pub data Naming : Type 0 where
  named : List Text → Naming
  unnamed : Instance → Naming
  duplicate : Text → Naming

abbrev contains : Text → List Text → Bool
contains name [] = false
contains name (n ∷ ns) = elim (Text-discrete n name) [
  | Dec.yes _ ↦ true
  | Dec.no _ ↦ contains name ns
]

-- The loop of __init__ over the instances; the empty name is none.
unfoldable pub check_names : List Instance → List Text → Naming
check_names [] names = named names
check_names (i ∷ is) names = elim i.name [
  | none ↦ unnamed i
  | some [] ↦ unnamed i
  | some (c ∷ cs) ↦
      let rest = check_names is (names ++ (c ∷ cs) ∷ []) in
      if contains (c ∷ cs) names then duplicate (c ∷ cs) else rest
]
