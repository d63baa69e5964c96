-- ===== src/Emitter/Clean.antt =====
-- What a sanitised payload satisfies.
use dd_agent.Prelude.{
  ℕ, ◌≡◌, Bool, false, not, Option, some, [], ◌∷◌, keep, All, Bool-cases, inl, inr,
}
use dd_agent.Prelude.Text.{Text}
use dd_agent.Emitter.Items.{
  Value, str, unicode, other, Item, scalar, dict, list, tuple, Items, nil, cons, Fields, end, field,
  put_field, same_key,
}
use dd_agent.Prelude.Options.{Ensures, Ensures-bind, Ensures-at}
use dd_agent.Emitter.Sanitize.{
  Unicode, is_control_byte, joined, remove_control_chars, sanitize_payload, sanitize_items,
  sanitize_fields,
}

keep-All : (p : ℕ → Bool) (s : Text) → All (λ c. p c ≡ false) (keep (λ c. not (p c)) s)
keep-All p [] = tt
keep-All p (c ∷ s) = elim (Bool-cases (p c)) [
  | inl e ↦ rw e (keep-All p s)
  | inr e ↦ rw e (e, keep-All p s)
]

-- All keys and all strings satisfy a predicate.
module _ (P : Value → Type 0) where
  unfoldable mutual
    pub AllStrings : Item → Type 0
    AllStrings (dict fs) = AllFields fs
    AllStrings (list xs) = AllItems xs
    AllStrings (tuple xs) = AllItems xs
    AllStrings (scalar (other n)) = Unit
    AllStrings (scalar (str s)) = P (str s)
    AllStrings (scalar (unicode s)) = P (unicode s)

    pub AllItems : Items → Type 0
    AllItems nil = Unit
    AllItems (cons x xs) = AllStrings x × AllItems xs

    pub AllFields : Fields → Type 0
    AllFields end = Unit
    AllFields (field k v fs) = P k × AllStrings v × AllFields fs

  put_field-All :
      (k : Value) (v : Item) (fs : Fields)
      → P k
      → AllStrings v
      → AllFields fs
      → AllFields (put_field k v fs)
  unfolding AllStrings put_field
  put_field-All k v end p q h = (p, q, tt)
  put_field-All k v (field j w fs) p q h = elim (Bool-cases (same_key j k)) [
    | inl e ↦ rw e (h.0, q, h.2)
    | inr e ↦ rw e (h.0, h.1, put_field-All k v fs p q h.2)
  ]

  scalar_lem : (v : Value) → P v → AllStrings (scalar v)
  unfolding AllStrings
  scalar_lem (str s) p = p
  scalar_lem (unicode s) p = p
  scalar_lem (other n) p = tt

  -- What sanitize_func returns holds of every key and every string of the result.
  module _ (f : Value → Option Value) (good : (v : Value) → Ensures P (f v)) where
    mutual
      unfolding AllStrings sanitize_payload

      pub sanitize_payload-All : (i : Item) → Ensures AllStrings (sanitize_payload f i)
      sanitize_payload-All (dict fs) =
          Ensures-bind AllFields AllStrings (sanitize_fields f fs end) _
            (sanitize_fields-All fs end tt) (λ g h. h)
      sanitize_payload-All (list xs) =
          Ensures-bind AllItems AllStrings (sanitize_items f xs) _ (sanitize_items-All xs)
            (λ g h. h)
      sanitize_payload-All (tuple xs) =
          Ensures-bind AllItems AllStrings (sanitize_items f xs) _ (sanitize_items-All xs)
            (λ g h. h)
      sanitize_payload-All (scalar (other n)) = tt
      sanitize_payload-All (scalar (str s)) =
          Ensures-bind P AllStrings (f (str s)) _ (good (str s)) scalar_lem
      sanitize_payload-All (scalar (unicode s)) =
          Ensures-bind P AllStrings (f (unicode s)) _ (good (unicode s)) scalar_lem

      sanitize_items-All : (xs : Items) → Ensures AllItems (sanitize_items f xs)
      sanitize_items-All nil = tt
      sanitize_items-All (cons x xs) =
          Ensures-bind AllStrings AllItems (sanitize_payload f x) _ (sanitize_payload-All x) (λ y p.
            Ensures-bind AllItems AllItems (sanitize_items f xs) _ (sanitize_items-All xs)
              (λ ys q. (p, q)))

      sanitize_fields-All :
          (fs newdict : Fields)
          → AllFields newdict
          → Ensures AllFields (sanitize_fields f fs newdict)
      sanitize_fields-All end d h = h
      sanitize_fields-All (field k v fs) d h =
          Ensures-bind AllStrings AllFields (sanitize_payload f v) _ (sanitize_payload-All v)
            (λ w p.
              Ensures-bind P AllFields (f k) _ (good k)
                (λ j q. sanitize_fields-All fs (put_field j w d) (put_field-All j w d q p h)))

module _ (u : Unicode) where
  -- A string without control characters.
  abbrev pub IsPrintable : Value → Type 0
  IsPrintable (str s) = All (λ c. is_control_byte c ≡ false) s
  IsPrintable (unicode s) = All (λ c. u.is_control c ≡ false) s
  IsPrintable (other n) = ⊥

  joined-IsPrintable : (s : Text) → All (λ c. u.is_control c ≡ false) s → IsPrintable (joined s)
  unfolding joined
  joined-IsPrintable [] h = tt
  joined-IsPrintable (c ∷ s) h = h

  remove_control_chars-IsPrintable : (v : Value) → Ensures IsPrintable (remove_control_chars u v)
  unfolding remove_control_chars
  remove_control_chars-IsPrintable (str s) = keep-All is_control_byte s
  remove_control_chars-IsPrintable (unicode s) =
      joined-IsPrintable (keep (λ c. not (u.is_control c)) s) (keep-All u.is_control s)
  remove_control_chars-IsPrintable (other n) = tt

  -- A payload that sanitize_payload returns with remove_control_chars holds no control character in
  -- any key or string, however deep it stands.
  pub sanitize_payload-IsPrintable :
      (i j : Item) → sanitize_payload (remove_control_chars u) i ≡ some j → AllStrings IsPrintable j
  sanitize_payload-IsPrintable i j e =
      Ensures-at (AllStrings IsPrintable) _
        (sanitize_payload-All IsPrintable (remove_control_chars u) remove_control_chars-IsPrintable
          i)
        e
