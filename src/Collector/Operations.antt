-- ===== src/Collector/Operations.antt =====
-- Sequences of operations on an AgentPayload, and on the dict that it stands for.
use dd_agent.Prelude.{
  ◌≡◌, refl, ◌∙◌, none, List, [], ◌∷◌, Bool, if◌then◌else◌, arith, Bool-cases, Option-cases, inl,
  inr,
}
use dd_agent.Prelude.Dict.{Dict, get}
use dd_agent.Prelude.Text.{Text, Text-discrete}
use dd_agent.Collector.Payload.{is_metadata, AgentPayload, empty_payload, payload, getitem}
use dd_agent.Collector.Deletion.{delitem_missing, delitem_present}
use dd_agent.Collector.Merged.{
  Operation, set, del, dict_step, step, in_data, in_meta, Holds, setitem-Holds, get-update,
}

module _ {V : Type 0} where
  step-Holds :
      (p : AgentPayload V) (d : Dict Text V) (o : Operation V)
      → Holds p d
      → Holds (step p o).0 (dict_step d o).0 × ((step p o).1 ≡ (dict_step d o).1)
  step-Holds p d (set k v) h = (setitem-Holds p d k v h, refl)
  step-Holds p d (del k) h = elim (Option-cases (get Text-discrete d k)) [
    | inl e ↦ delitem_missing p d k h e
    | inr (v, e) ↦ delitem_present p d k v h e
  ]

  -- The object after a sequence of operations, and false for each that raised a KeyError.
  abbrev pub payload_after : AgentPayload V → List (Operation V) → AgentPayload V × List Bool
  payload_after p [] = (p, [])
  payload_after p (o ∷ os) =
      ((payload_after (step p o).0 os).0, (step p o).1 ∷ (payload_after (step p o).0 os).1)

  abbrev pub dict_after : Dict Text V → List (Operation V) → Dict Text V × List Bool
  dict_after d [] = (d, [])
  dict_after d (o ∷ os) =
      ((dict_after (dict_step d o).0 os).0, (dict_step d o).1 ∷ (dict_after (dict_step d o).0 os).1)

  after-Holds :
      (p : AgentPayload V) (d : Dict Text V) (os : List (Operation V))
      → Holds p d
      → Holds (payload_after p os).0 (dict_after d os).0
        × ((payload_after p os).1 ≡ (dict_after d os).1)
  after-Holds p d [] h = (h, refl)
  after-Holds p d (o ∷ os) h =
      let (now, same) = step-Holds p d o h in
      let (later, sames) = after-Holds (step p o).0 (dict_step d o).0 os now in
      (later, λ i. same i ∷ sames i)

  pub empty-Holds : Holds (empty_payload {V = V}) []
  unfolding get
  empty-Holds = record { data_part = λ k. ground arith; meta_part = λ k. ground arith }

  pub read_lem :
      (p : AgentPayload V) (d : Dict Text V) (k : Text)
      → Holds p d
      → getitem p k ≡ get Text-discrete d k
  unfolding getitem
  read_lem p d k h = elim (Bool-cases (is_metadata k)) [
    | inl m ↦ rw m (h.meta_part k ∙ ground arith)
    | inr m ↦ rw m (h.data_part k ∙ ground arith)
  ]

  pub merged_lem :
      (p : AgentPayload V) (d : Dict Text V) (k : Text)
      → Holds p d
      → get Text-discrete (payload p) k ≡ get Text-discrete d k
  unfolding payload
  merged_lem p d k h =
      get-update p.data_payload p.meta_payload k ∙ ground (arith, h.meta_part k, h.data_part k)

  -- After any operations on an empty AgentPayload, each of which raises KeyError exactly where it
  -- does on a dict, a key is read as from the dict, the merged payload holds what the dict holds, the
  -- data payload what it holds for the keys that are duplicated or no metadata, and the metadata
  -- payload what it holds for those that are duplicated or metadata.
  pub operations-refines :
      (os : List (Operation V)) (k : Text)
      → ((payload_after empty_payload os).1 ≡ (dict_after [] os).1)
        × (getitem (payload_after empty_payload os).0 k ≡ get Text-discrete (dict_after [] os).0 k)
        × (get Text-discrete (payload (payload_after empty_payload os).0) k
            ≡ get Text-discrete (dict_after [] os).0 k)
        × (get Text-discrete (payload_after empty_payload os).0.data_payload k
            ≡ (if in_data k then get Text-discrete (dict_after [] os).0 k else none))
        × (get Text-discrete (payload_after empty_payload os).0.meta_payload k
            ≡ (if in_meta k then get Text-discrete (dict_after [] os).0 k else none))
  operations-refines os k =
      let (h, same) = after-Holds empty_payload [] os empty-Holds in
      (same, read_lem _ _ k h, merged_lem _ _ k h, h.data_part k, h.meta_part k)
