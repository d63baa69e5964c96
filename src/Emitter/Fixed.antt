-- ===== src/Emitter/Fixed.antt =====
-- What sanitize_payload returns is left as it is by another call.
use mathlib.Core.Path.{subst}
use dd_agent.Prelude.{
  ℕ, ◌≡◌, refl, sym, ap, ◌∙◌, Bool, not, Option, some, [], ◌∷◌, keep, arith, Bool-cases, inl, inr,
}
use dd_agent.Prelude.Text.{Text}
use dd_agent.Prelude.Options.{◌>>=◌, Ensures, Ensures-bind, Ensures-at, any_returned}
use dd_agent.Emitter.Items.{
  Value, str, unicode, other, Item, scalar, dict, list, tuple, Items, nil, cons, Fields, end, field,
  put_field, append, Distinct, put_field-Distinct, put_field_last, append_field, append_end,
  same_key,
}
use dd_agent.Emitter.Sanitize.{
  Unicode, is_control_byte, joined, remove_control_chars, sanitize_payload, sanitize_items,
  sanitize_fields,
}
use dd_agent.Emitter.Clean.{AllStrings, AllItems, AllFields, sanitize_payload-All}

-- In every dict no two keys are equal, as Python's dicts are.
unfoldable mutual
  pub IsValid : Item → Type 0
  IsValid (dict fs) = Distinct fs × ValidFields fs
  IsValid (list xs) = ValidItems xs
  IsValid (tuple xs) = ValidItems xs
  IsValid (scalar v) = Unit

  pub ValidItems : Items → Type 0
  ValidItems nil = Unit
  ValidItems (cons x xs) = IsValid x × ValidItems xs

  pub ValidFields : Fields → Type 0
  ValidFields end = Unit
  ValidFields (field k v fs) = IsValid v × ValidFields fs

put_field-Valid :
    (k : Value) (v : Item) (fs : Fields)
    → IsValid v
    → ValidFields fs
    → ValidFields (put_field k v fs)
unfolding IsValid put_field
put_field-Valid k v end p h = (p, tt)
put_field-Valid k v (field j w fs) p h = elim (Bool-cases (same_key j k)) [
  | inl e ↦ rw e (p, h.1)
  | inr e ↦ rw e (h.0, put_field-Valid k v fs p h.1)
]

abbrev Built : Fields → Type 0
Built fs = Distinct fs × ValidFields fs

module _ (f : Value → Option Value) where
  scalar-IsValid : (v : Value) → Ensures IsValid (f v >>= λ w. some (scalar w))
  unfolding IsValid
  scalar-IsValid v = Ensures-bind (λ w. Unit) IsValid (f v) _ (any_returned (f v)) (λ w h. tt)

  mutual
    unfolding IsValid sanitize_payload

    pub sanitize_payload-IsValid : (i : Item) → Ensures IsValid (sanitize_payload f i)
    sanitize_payload-IsValid (dict fs) =
        Ensures-bind Built IsValid (sanitize_fields f fs end) _ (fields_valid fs end (tt, tt))
          (λ g h. h)
    sanitize_payload-IsValid (list xs) =
        Ensures-bind ValidItems IsValid (sanitize_items f xs) _ (items_valid xs) (λ g h. h)
    sanitize_payload-IsValid (tuple xs) =
        Ensures-bind ValidItems IsValid (sanitize_items f xs) _ (items_valid xs) (λ g h. h)
    sanitize_payload-IsValid (scalar (other n)) = tt
    sanitize_payload-IsValid (scalar (str s)) = scalar-IsValid (str s)
    sanitize_payload-IsValid (scalar (unicode s)) = scalar-IsValid (unicode s)

    items_valid : (xs : Items) → Ensures ValidItems (sanitize_items f xs)
    items_valid nil = tt
    items_valid (cons x xs) =
        Ensures-bind IsValid ValidItems (sanitize_payload f x) _ (sanitize_payload-IsValid x)
          (λ y p.
            Ensures-bind ValidItems ValidItems (sanitize_items f xs) _ (items_valid xs)
              (λ ys q. (p, q)))

    fields_valid :
        (fs newdict : Fields) → Built newdict → Ensures Built (sanitize_fields f fs newdict)
    fields_valid end d h = h
    fields_valid (field k v fs) d h =
        Ensures-bind IsValid Built (sanitize_payload f v) _ (sanitize_payload-IsValid v) (λ w p.
          Ensures-bind (λ j. Unit) Built (f k) _ (any_returned (f k))
            (λ j q.
              fields_valid fs (put_field j w d)
                (put_field-Distinct j w d h.0, put_field-Valid j w d p h.1)))

  -- A value that the function leaves as it is.
  abbrev IsFixed : Value → Type 0
  IsFixed v = f v ≡ some v

  mutual
    unfolding IsValid AllStrings sanitize_payload append

    fixed_payload : (i : Item) → AllStrings IsFixed i → IsValid i → sanitize_payload f i ≡ some i
    fixed_payload (dict fs) h v = rw (fixed_fields fs end h v.1 v.0)
    fixed_payload (list xs) h v = rw (fixed_items xs h v)
    fixed_payload (tuple xs) h v = rw (fixed_items xs h v)
    fixed_payload (scalar (other n)) h v = refl
    fixed_payload (scalar (str s)) h v = rw h
    fixed_payload (scalar (unicode s)) h v = rw h

    fixed_items : (xs : Items) → AllItems IsFixed xs → ValidItems xs → sanitize_items f xs ≡ some xs
    fixed_items nil h v = refl
    fixed_items (cons x xs) h v = rw (fixed_payload x h.0 v.0, fixed_items xs h.1 v.1)

    fixed_fields :
        (fs d : Fields)
        → AllFields IsFixed fs
        → ValidFields fs
        → Distinct (append d fs)
        → sanitize_fields f fs d ≡ some (append d fs)
    fixed_fields end d h v e = rw (append_end d)
    fixed_fields (field k w fs) d h v e =
        let last : put_field k w d ≡ append d (field k w end) = put_field_last k w d fs e in
        let all : append (append d (field k w end)) fs ≡ append d (field k w fs) =
          append_field k w d fs in
        rw (fixed_payload w h.1 v.0, h.0, last)
          (fixed_fields fs (append d (field k w end)) h.2 v.1 (subst Distinct (sym all) e)
            ∙ ap some all)

module _ (u : Unicode) where
  keep_idem :
      (p : ℕ → Bool) (s : Text)
      → keep (λ c. not (p c)) (keep (λ c. not (p c)) s) ≡ keep (λ c. not (p c)) s
  keep_idem p [] = refl
  keep_idem p (c ∷ s) = ground (arith, keep_idem p s)

  joined_fixed :
      (s : Text)
      → keep (λ c. not (u.is_control c)) s ≡ s
      → remove_control_chars u (joined s) ≡ some (joined s)
  unfolding remove_control_chars joined
  joined_fixed [] e = refl
  joined_fixed (c ∷ s) e = ap (λ x. some (joined x)) e

  removed_once : (v : Value) → Ensures (IsFixed (remove_control_chars u)) (remove_control_chars u v)
  unfolding remove_control_chars
  removed_once (str s) = rw (keep_idem is_control_byte s)
  removed_once (unicode s) =
      joined_fixed (keep (λ c. not (u.is_control c)) s) (keep_idem u.is_control s)
  removed_once (other n) = tt

  -- A payload that sanitize_payload returns with remove_control_chars is returned by it once more.
  pub sanitize_payload_idem :
      (i j : Item)
      → sanitize_payload (remove_control_chars u) i ≡ some j
      → sanitize_payload (remove_control_chars u) j ≡ some j
  sanitize_payload_idem i j e =
      fixed_payload f j
        (Ensures-at (AllStrings (IsFixed f)) _ (sanitize_payload-All (IsFixed f) f removed_once i)
          e)
        (Ensures-at IsValid _ (sanitize_payload-IsValid f i) e)
    where
      f : Value → Option Value
      f = remove_control_chars u
