-- ===== src/Collector/Deletion.antt =====
-- Deletions from an AgentPayload, and from the dict that it stands for.
use dd_agent.Prelude.{◌≡◌, refl, sym, ◌∙◌, none, some, Bool, true, false, Bool-cases, inl, inr}
use dd_agent.Prelude.Dict.{Dict, get, remove}
use dd_agent.Prelude.Text.{Text, Text-discrete}
use dd_agent.Collector.Payload.{is_metadata, is_duplicate, delete, AgentPayload, delitem}
use dd_agent.Collector.Merged.{
  del, in_data, in_meta, Follows, Holds, changed, unchanged, get-remove_self, get-remove_other,
  dict_step,
}

module _ {V : Type 0} where
  delete-none : (e : Dict Text V) (k : Text) → get Text-discrete e k ≡ none → delete e k ≡ none
  unfolding delete
  delete-none e k h = rw h

  delete-some :
      (e : Dict Text V) (k : Text) (v : V)
      → get Text-discrete e k ≡ some v
      → delete e k ≡ some (remove Text-discrete e k)
  unfolding delete
  delete-some e k v h = rw h

  -- What a deletion makes of the payload, where the dict has the key and where it does not.
  abbrev Deletes : AgentPayload V → Dict Text V → Text → Type 0
  Deletes p d k =
      Holds (delitem p k).0 (dict_step d (del k)).0 × ((delitem p k).1 ≡ (dict_step d (del k)).1)

  pub delitem_missing :
      (p : AgentPayload V) (d : Dict Text V) (k : Text)
      → Holds p d
      → get Text-discrete d k ≡ none
      → Deletes p d k
  unfolding delitem
  delitem_missing p d k h e = elim (Bool-cases (is_duplicate k)) [
    | inl t ↦ rw (e, t, delete-none p.data_payload k (h.data_part k ∙ rw (t, e))) (h, refl)
    | inr t ↦ elim (Bool-cases (is_metadata k)) [
      | inl m ↦ rw (e, t, m, delete-none p.meta_payload k (h.meta_part k ∙ rw (t, m, e))) (h, refl)
      | inr m ↦ rw (e, t, m, delete-none p.data_payload k (h.data_part k ∙ rw (t, m, e))) (h, refl)
    ]
  ]

  pub delitem_present :
      (p : AgentPayload V) (d : Dict Text V) (k : Text) (v : V)
      → Holds p d
      → get Text-discrete d k ≡ some v
      → Deletes p d k
  unfolding delitem
  delitem_present p d k v h e = elim (Bool-cases (is_duplicate k)) [
    | inl t ↦
        rw
          (
            e,
            t,
            delete-some p.data_payload k v (h.data_part k ∙ rw (t, e)),
            delete-some p.meta_payload k v (h.meta_part k ∙ rw (t, e)),
          )
          (
            record {
              data_part = removed in_data p.data_payload (rw t) h.data_part;
              meta_part = removed in_meta p.meta_payload (rw t) h.meta_part;
            },
            refl,
          )
    | inr t ↦ elim (Bool-cases (is_metadata k)) [
      | inl m ↦
          rw (e, t, m, delete-some p.meta_payload k v (h.meta_part k ∙ rw (t, m, e)))
            (
              record {
                data_part = left in_data p.data_payload (rw (t, m)) h.data_part;
                meta_part = removed in_meta p.meta_payload (rw (t, m)) h.meta_part;
              },
              refl,
            )
      | inr m ↦
          rw (e, t, m, delete-some p.data_payload k v (h.data_part k ∙ rw (t, m, e)))
            (
              record {
                data_part = removed in_data p.data_payload (rw (t, m)) h.data_part;
                meta_part = left in_meta p.meta_payload (rw (t, m)) h.meta_part;
              },
              refl,
            )
    ]
  ]
    where
      removed :
          (b : Text → Bool) (e : Dict Text V)
          → b k ≡ true
          → Follows b e d
          → Follows b (remove Text-discrete e k) (remove Text-discrete d k)
      removed b e t f =
          changed b e d (remove Text-discrete e k) (remove Text-discrete d k) k f
            (λ j n. get-remove_other d k j n) t (get-remove_self e k ∙ sym (get-remove_self d k))
            (λ j n. get-remove_other e k j n)

      left :
          (b : Text → Bool) (e : Dict Text V)
          → b k ≡ false
          → Follows b e d
          → Follows b e (remove Text-discrete d k)
      left b e t f =
          unchanged b e d e (remove Text-discrete d k) k f (λ j n. get-remove_other d k j n) t
