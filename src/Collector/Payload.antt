-- ===== src/Collector/Payload.antt =====
-- checks/collector.py, class AgentPayload: one payload in two parts, and emit.
use dd_agent.Prelude.{
  ℕ, ◌+◌, Option, none, some, List, [], ◌∷◌, ◌++◌, map, Bool, true, false, not, if◌then◌else◌,
  length,
}
use mathlib.Core.Logic.{ite}
use dd_agent.Prelude.Dict.{Dict, get, put, remove}
use dd_agent.Prelude.Text.{Text, Text-discrete, codes}

unfoldable pub among : Text → List Text → Bool
unfolding Text-discrete
among k [] = false
among k (j ∷ js) = ite (Text-discrete j k) true (among k js)

-- METADATA_KEYS
abbrev pub metadata_keys : List Text
metadata_keys =
    codes "meta"
    ∷ codes "tags"
    ∷ codes "host-tags"
    ∷ codes "systemStats"
    ∷ codes "agent_checks"
    ∷ codes "gohai"
    ∷ codes "external_host_tags"
    ∷ []

-- DUPLICATE_KEYS
abbrev pub duplicate_keys : List Text
duplicate_keys = codes "apiKey" ∷ codes "agentVersion" ∷ []

unfoldable pub is_metadata : Text → Bool
unfolding among
is_metadata k = among k metadata_keys

unfoldable pub is_duplicate : Text → Bool
unfolding among
is_duplicate k = among k duplicate_keys

module _ {V : Type 0} where
  -- d.copy() and then update: no order of the entries is relied on
  unfoldable pub update : Dict Text V → Dict Text V → Dict Text V
  update d [] = d
  update d ((k, v) ∷ e) = put Text-discrete (update d e) k v

  abbrev deleted : Dict Text V → Text → Option V → Option (Dict Text V)
  deleted d k none = none
  deleted d k (some v) = some (remove Text-discrete d k)

  -- del d[k], none for a KeyError
  unfoldable pub delete : Dict Text V → Text → Option (Dict Text V)
  delete d k = deleted d k (get Text-discrete d k)

pub record AgentPayload (V : Type 0) : Type 0 where
  pub data_payload : Dict Text V
  pub meta_payload : Dict Text V

module _ {V : Type 0} where
  -- __init__
  abbrev pub empty_payload : AgentPayload V
  empty_payload = record { data_payload = []; meta_payload = [] }

  -- the property payload
  unfoldable pub payload : AgentPayload V → Dict Text V
  unfolding update
  payload p = update p.data_payload p.meta_payload

  -- __getitem__, none for a KeyError
  unfoldable pub getitem : AgentPayload V → Text → Option V
  getitem p k =
      if is_metadata k
      then get Text-discrete p.meta_payload k
      else get Text-discrete p.data_payload k

  -- __setitem__
  unfoldable pub setitem : AgentPayload V → Text → V → AgentPayload V
  setitem p k v =
      if is_duplicate k
      then record p {
        data_payload = put Text-discrete p.data_payload k v;
        meta_payload = put Text-discrete p.meta_payload k v;
      }
      else if is_metadata k
      then record p { meta_payload = put Text-discrete p.meta_payload k v }
      else record p { data_payload = put Text-discrete p.data_payload k v }

  abbrev del_data : AgentPayload V → Option (Dict Text V) → AgentPayload V × Bool
  del_data p none = (p, false)
  del_data p (some d) = (record p { data_payload = d }, true)

  abbrev del_meta : AgentPayload V → Option (Dict Text V) → AgentPayload V × Bool
  del_meta p none = (p, false)
  del_meta p (some d) = (record p { meta_payload = d }, true)

  abbrev del_both :
      AgentPayload V → Option (Dict Text V) → Option (Dict Text V) → AgentPayload V × Bool
  del_both p none m = (p, false)
  del_both p (some d) m = del_meta (record p { data_payload = d }) m

  -- __delitem__: what is left, and false for a KeyError
  unfoldable pub delitem : AgentPayload V → Text → AgentPayload V × Bool
  unfolding delete
  delitem p k =
      if is_duplicate k
      then del_both p (delete p.data_payload k) (delete p.meta_payload k)
      else if is_metadata k
      then del_meta p (delete p.meta_payload k)
      else del_data p (delete p.data_payload k)

  -- __iter__
  unfoldable pub iter : AgentPayload V → List Text
  iter p = map (λ e. e.0) p.data_payload ++ map (λ e. e.0) p.meta_payload

  -- __len__
  unfoldable pub len : AgentPayload V → ℕ
  len p = length p.data_payload + length p.meta_payload

-- An emitter: its name, and what it raises on a payload and an endpoint.
pub record Emitter (V : Type 0) : Type 0 where
  pub name : Text
  pub emits : Dict Text V → Text → Option Text

pub record EmitterStatus : Type 0 where
  pub name : Text
  pub error : Option Text

-- A call of an emitter.
pub record Emission (V : Type 0) : Type 0 where
  pub emitter : Text
  pub content : Dict Text V
  pub endpoint : Text

module _ {V : Type 0} where
  abbrev pub emission : Dict Text V → Text → Emitter V → Emission V
  emission content endpoint e = record { emitter = e.name; content = content; endpoint = endpoint }

  -- _emit_payload: the statuses and the calls. continue_running is a value that does not change.
  unfoldable pub emit_payload :
      Bool → List (Emitter V) → Dict Text V → Text → List EmitterStatus × List (Emission V)
  emit_payload continue_running [] content endpoint = ([], [])
  emit_payload continue_running (e ∷ emitters) content endpoint =
      let (statuses, calls) = emit_payload continue_running emitters content endpoint in
      if not continue_running then ([], []) else (
        record { name = e.name; error = e.emits content endpoint } ∷ statuses,
        emission content endpoint e ∷ calls,
      )

  unfoldable pub emit :
      AgentPayload V → Bool → List (Emitter V) → Bool → List EmitterStatus × List (Emission V)
  unfolding emit_payload payload
  emit p continue_running emitters merge_payloads =
      if merge_payloads
      then emit_payload continue_running emitters (payload p) []
      else let (statuses, calls) =
          emit_payload continue_running emitters p.data_payload (codes "metrics") in
        let (statuses', calls') =
          emit_payload continue_running emitters p.meta_payload (codes "metadata") in
        (statuses ++ statuses', calls ++ calls')
