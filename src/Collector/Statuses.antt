-- ===== src/Collector/Statuses.antt =====
-- checks/check_status.py: the statuses of instances, checks, emitters and of the collector.
use dd_agent.Prelude.{ℕ, ℤ, Option, none, some, List, [], ◌∷◌, Bool, true, false, if◌then◌else◌}
use dd_agent.Prelude.Dict.{Dict}
use dd_agent.Prelude.Text.{Text}
use dd_agent.Collector.Payload.{EmitterStatus}

pub data Level : Type 0 where
  ok warning error : Level

abbrev pub is_error : Level → Bool
is_error error = true
is_error _ = false

pub record InstanceStatus : Type 0 where
  pub instance_id : ℕ
  pub status : Level
  pub error : Option Text
  pub warnings : List Text

-- What a check's service metadata are, for each instance.
abbrev pub Metadata : Type 0
Metadata = Dict Text Text

-- instance_statuses is none for a check whose initialisation failed.
pub record CheckStatus : Type 0 where
  pub name : Text
  pub source_type_name : Option Text
  pub instance_statuses : Option (List InstanceStatus)
  pub metric_count : ℕ
  pub event_count : ℕ
  pub service_check_count : ℤ
  pub service_metadata : List Metadata
  pub init_failed_error : Option Text

-- the loop of the property status of CheckStatus
unfoldable pub instances_status : List InstanceStatus → Level
instances_status [] = ok
instances_status (i ∷ is) =
    let rest = instances_status is in if is_error i.status then error else rest

-- none: a TypeError, where there is neither an error nor a list of statuses
abbrev initialized_status : Option (List InstanceStatus) → Option Level
initialized_status none = none
initialized_status (some is) = some (instances_status is)

abbrev check_level : Option Text → Option (List InstanceStatus) → Option Level
check_level (some e) is = some error
check_level none is = initialized_status is

-- CheckStatus.status
unfoldable pub check_status : CheckStatus → Option Level
unfolding instances_status
check_status c = check_level c.init_failed_error c.instance_statuses

abbrev emitter_level : Option Text → Level
emitter_level none = ok
emitter_level (some e) = error

-- EmitterStatus.status
unfoldable pub emitter_status : EmitterStatus → Level
emitter_status e = emitter_level e.error

-- CollectorStatus.status
unfoldable pub collector_status : List CheckStatus → Option Level
unfolding check_status
collector_status [] = some ok
collector_status (c ∷ cs) = elim (check_status c) [
  | none ↦ none
  | some l ↦ if is_error l then some error else collector_status cs
]
