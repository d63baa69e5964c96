-- ===== src/Collector/Merged.antt =====
-- AgentPayload is a dict: what it holds after any operations, in one part and in two.
use dd_agent.Prelude.{
  ◌≡◌, refl, sym, ◌∙◌, Option, none, some, [], ◌∷◌, Bool, true, false, not, ◌||◌, if◌then◌else◌,
  arith, Bool-cases, inl, inr,
}
use mathlib.Core.Logic.{if_pos, if_neg}
use mathlib.Core.Path.{subst}
use dd_agent.Prelude.Dict.{Dict, get, put, remove, get-put, get-put_self, get-remove}
use dd_agent.Prelude.Text.{Text, Text-discrete}
use dd_agent.Collector.Payload.{is_metadata, is_duplicate, update, AgentPayload, setitem, delitem}

pub data Operation (V : Type 0) : Type 0 where
  set : Text → V → Operation V
  del : Text → Operation V

abbrev pub in_data : Text → Bool
in_data k = is_duplicate k || not (is_metadata k)

abbrev pub in_meta : Text → Bool
in_meta k = is_duplicate k || is_metadata k

module _ {V : Type 0} where
  -- The values of a key after an update: those of the second dict come first.
  pub get-update :
      (d e : Dict Text V) (k : Text)
      → get Text-discrete (update d e) k
        ≡ elim (get Text-discrete e k) [ none ↦ get Text-discrete d k | some v ↦ some v ]
  unfolding update get
  get-update d [] k = refl
  get-update d ((j, v) ∷ e) k =
      ground (arith, get-put Text-discrete (update d e) j k v, get-update d e k)

  abbrev pub dict_del : Dict Text V → Text → Option V → Dict Text V × Bool
  dict_del d k none = (d, false)
  dict_del d k (some v) = (remove Text-discrete d k, true)

  -- An operation on a plain dict, and false for a KeyError.
  abbrev pub dict_step : Dict Text V → Operation V → Dict Text V × Bool
  dict_step d (set k v) = (put Text-discrete d k v, true)
  dict_step d (del k) = dict_del d k (get Text-discrete d k)

  abbrev pub step : AgentPayload V → Operation V → AgentPayload V × Bool
  step p (set k v) = (setitem p k v, true)
  step p (del k) = delitem p k

  -- A part of a dict follows the dict for the keys that it takes.
  abbrev pub Follows : (Text → Bool) → Dict Text V → Dict Text V → Type 0
  Follows b e d = (j : Text) → get Text-discrete e j ≡ (if b j then get Text-discrete d j else none)

  -- Both parts hold what the dict has for their keys.
  pub record Holds (p : AgentPayload V) (d : Dict Text V) : Type 0 where
    pub data_part : Follows in_data p.data_payload d
    pub meta_part : Follows in_meta p.meta_payload d

  pub get-put_other :
      (d : Dict Text V) (k j : Text) (v : V)
      → ¬ (k ≡ j)
      → get Text-discrete (put Text-discrete d k v) j ≡ get Text-discrete d j
  get-put_other d k j v n = get-put Text-discrete d k j v ∙ if_neg (Text-discrete k j) n _ _

  pub get-remove_self :
      (d : Dict Text V) (k : Text) → get Text-discrete (remove Text-discrete d k) k ≡ none
  get-remove_self d k = get-remove Text-discrete d k k ∙ if_pos (Text-discrete k k) refl _ _

  pub get-remove_other :
      (d : Dict Text V) (k j : Text)
      → ¬ (k ≡ j)
      → get Text-discrete (remove Text-discrete d k) j ≡ get Text-discrete d j
  get-remove_other d k j n = get-remove Text-discrete d k j ∙ if_neg (Text-discrete k j) n _ _

  module _ (b : Text → Bool) (e d e' d' : Dict Text V) (k : Text) (h : Follows b e d)
      (other : (j : Text) → ¬ (k ≡ j) → get Text-discrete d' j ≡ get Text-discrete d j) where
    -- The part and the dict are changed alike at one key.
    pub changed :
        b k ≡ true
        → get Text-discrete e' k ≡ get Text-discrete d' k
        → ((j : Text) → ¬ (k ≡ j) → get Text-discrete e' j ≡ get Text-discrete e j)
        → Follows b e' d'
    changed t same kept j = elim (Text-discrete k j) [
      | yes p ↦
          subst (λ x. get Text-discrete e' x ≡ (if b x then get Text-discrete d' x else none)) p
            (rw t same)
      | no n ↦ rw (kept j n, other j n) (h j)
    ]

    -- The dict is changed at a key that the part does not take.
    pub unchanged : b k ≡ false → Follows b e d'
    unchanged t j = elim (Text-discrete k j) [
      | yes p ↦
          subst (λ x. get Text-discrete e x ≡ (if b x then get Text-discrete d' x else none)) p
            (rw t (h k ∙ rw t))
      | no n ↦ rw (other j n) (h j)
    ]

  pub setitem-Holds :
      (p : AgentPayload V) (d : Dict Text V) (k : Text) (v : V)
      → Holds p d
      → Holds (setitem p k v) (put Text-discrete d k v)
  unfolding setitem
  setitem-Holds p d k v h = elim (Bool-cases (is_duplicate k)) [
    | inl t ↦ rw t (record {
      data_part = stored in_data p.data_payload (rw t) h.data_part;
      meta_part = stored in_meta p.meta_payload (rw t) h.meta_part;
    })
    | inr t ↦ elim (Bool-cases (is_metadata k)) [
      | inl m ↦
          rw (t, m)
            (record {
              data_part = left in_data p.data_payload (rw (t, m)) h.data_part;
              meta_part = stored in_meta p.meta_payload (rw (t, m)) h.meta_part;
            })
      | inr m ↦
          rw (t, m)
            (record {
              data_part = stored in_data p.data_payload (rw (t, m)) h.data_part;
              meta_part = left in_meta p.meta_payload (rw (t, m)) h.meta_part;
            })
    ]
  ]
    where
      stored :
          (b : Text → Bool) (e : Dict Text V)
          → b k ≡ true
          → Follows b e d
          → Follows b (put Text-discrete e k v) (put Text-discrete d k v)
      stored b e t f =
          changed b e d (put Text-discrete e k v) (put Text-discrete d k v) k f
            (λ j n. get-put_other d k j v n) t
            (get-put_self Text-discrete e k v ∙ sym (get-put_self Text-discrete d k v))
            (λ j n. get-put_other e k j v n)

      left :
          (b : Text → Bool) (e : Dict Text V)
          → b k ≡ false
          → Follows b e d
          → Follows b e (put Text-discrete d k v)
      left b e t f =
          unchanged b e d e (put Text-discrete d k v) k f (λ j n. get-put_other d k j v n) t
