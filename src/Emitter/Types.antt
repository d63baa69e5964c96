-- ===== src/Emitter/Types.antt =====
-- Of which types what sanitize_payload returns is.
use dd_agent.Prelude.{◌≡◌, refl, true, false, Option, arith, Bool-cases, inl, inr, some, [], ◌∷◌}
use mathlib.Core.Logic.{if_pos}
use dd_agent.Prelude.Text.{Text, Text-discrete}
use dd_agent.Prelude.Options.{Ensures, Ensures-bind, Ensures-of, Ensures-at, any_returned, is_some}
use dd_agent.Emitter.Items.{
  Value, str, unicode, other, Item, scalar, dict, list, tuple, Items, nil, cons, Fields, end, field,
  put_field, get_field, same_key, same_text,
}
use dd_agent.Emitter.Sanitize.{
  Unicode, joined, remove_control_chars, sanitize_payload, sanitize_items, sanitize_fields,
}
use dd_agent.Emitter.Keys.{is_string, string_keys, sanitize_payload_returns}

-- A byte string for a byte string, and for a unicode string a unicode string or, where nothing of it
-- is left, the empty byte string; the same object where it is no string.
abbrev pub SameValue : Value → Value → Type 0
SameValue (str s) (str t) = Unit
SameValue (unicode s) (unicode t) = Unit
SameValue (unicode s) (str t) = t ≡ []
SameValue (other m) (other n) = m ≡ n
SameValue _ _ = ⊥

same_text_self : (s : Text) → (same_text s s) ≡ true
same_text_self s = if_pos (Text-discrete s s) refl true false

same_key_self : (k : Value) → same_key k k ≡ true
unfolding same_key
same_key_self (str s) = same_text_self s
same_key_self (unicode s) = same_text_self s
same_key_self (other n) = ground arith

-- The dict has the key.
abbrev pub Has : Value → Fields → Type 0
Has j fs = is_some (get_field j fs) ≡ true

put_field-Has_self : (k : Value) (v : Item) (fs : Fields) → Has k (put_field k v fs)
unfolding put_field get_field
put_field-Has_self k v end = rw (same_key_self k) refl
put_field-Has_self k v (field j w fs) = elim (Bool-cases (same_key j k)) [
  | inl e ↦ rw e (rw e refl)
  | inr e ↦ rw e (rw e (put_field-Has_self k v fs))
]

put_field-Has : (j k : Value) (v : Item) (fs : Fields) → Has j fs → Has j (put_field k v fs)
unfolding put_field get_field
put_field-Has j k v end h = cc
put_field-Has j k v (field i w fs) h = ground (arith, put_field-Has j k v fs)

module _ (f : Value → Option Value) where
  -- The dict has what is made of each key.
  abbrev pub Kept : Fields → Fields → Type 0
  Kept end gs = Unit
  Kept (field k v fs) gs = (j : Value) × (f k ≡ some j) × Has j gs × Kept fs gs

  -- Types of the values in a payload and in its copy: sequences go by their elements. The copy of a
  -- dict has what is made of each key, and the value of each of its entries has the type of the value of
  -- an entry with that key.
  mutual
    pub data SameType : Item → Item → Type 0 where
      scalars : {v w : Value} → SameValue v w → SameType (scalar v) (scalar w)
      dicts : {fs gs : Fields} → ValuesFrom fs gs → Kept fs gs → SameType (dict fs) (dict gs)
      lists : {xs ys : Items} → SameTypes xs ys → SameType (list xs) (list ys)
      tuples : {xs ys : Items} → SameTypes xs ys → SameType (tuple xs) (tuple ys)

    pub data SameTypes : Items → Items → Type 0 where
      nils : SameTypes nil nil
      conses :
          {x y : Item} {xs ys : Items}
          → SameType x y
          → SameTypes xs ys
          → SameTypes (cons x xs) (cons y ys)

    pub data ValuesFrom : Fields → Fields → Type 0 where
      ends : {fs : Fields} → ValuesFrom fs end
      fields :
          {fs gs : Fields} {j : Value} {w : Item}
          → ValueFrom fs j w
          → ValuesFrom fs gs
          → ValuesFrom fs (field j w gs)

    pub data ValueFrom : Fields → Value → Item → Type 0 where
      here :
          {k i j : Value} {v w : Item} {fs : Fields}
          → f k ≡ some i
          → same_key j i ≡ true
          → SameType v w
          → ValueFrom (field k v fs) j w
      there :
          {k j : Value} {v w : Item} {fs : Fields} → ValueFrom fs j w → ValueFrom (field k v fs) j w

  put_field-From :
      (k : Value) (w : Item) (fs d : Fields)
      → ((j : Value) → same_key j k ≡ true → ValueFrom fs j w)
      → ValuesFrom fs d
      → ValuesFrom fs (put_field k w d)
  unfolding put_field
  put_field-From k w fs end p h = fields (p k (same_key_self k)) ends
  put_field-From k w fs (field j v d) p (fields q h) = elim (Bool-cases (same_key j k)) [
    | inl e ↦ rw e (fields (p j e) h)
    | inr e ↦ rw e (fields q (put_field-From k w fs d p h))
  ]

  sanitize_fields-Has :
      (fs d : Fields) (j : Value) → Has j d → Ensures (Has j) (sanitize_fields f fs d)
  unfolding sanitize_payload
  sanitize_fields-Has end d j h = h
  sanitize_fields-Has (field k v fs) d j h =
      Ensures-bind (λ w. Unit) (Has j) (sanitize_payload f v) _
        (any_returned (sanitize_payload f v))
        (λ w p.
          Ensures-bind (λ i. Unit) (Has j) (f k) _ (any_returned (f k))
            (λ i q. sanitize_fields-Has fs (put_field i w d) j (put_field-Has j i w d h)))

  sanitize_fields-Kept : (fs d : Fields) → Ensures (Kept fs) (sanitize_fields f fs d)
  unfolding sanitize_payload
  sanitize_fields-Kept end d = tt
  sanitize_fields-Kept (field k v fs) d =
      Ensures-bind (λ w. Unit) (Kept (field k v fs)) (sanitize_payload f v) _
        (any_returned (sanitize_payload f v))
        (λ w p.
          Ensures-bind (λ j. f k ≡ some j) (Kept (field k v fs)) (f k) _
            (Ensures-of (λ j. f k ≡ some j) (f k) (λ j e. e))
            (λ j e.
              Ensures-of (Kept (field k v fs)) (sanitize_fields f fs (put_field j w d)) (λ g r. (
                j,
                e,
                Ensures-at (Has j) _
                    (sanitize_fields-Has fs (put_field j w d) j (put_field-Has_self j w d)) r,
                Ensures-at (Kept fs) _ (sanitize_fields-Kept fs (put_field j w d)) r,
              ))))

  module _ (same : (v : Value) → Ensures (SameValue v) (f v)) where
    mutual
      unfolding sanitize_payload

      pub sanitize_payload-SameType : (i : Item) → Ensures (SameType i) (sanitize_payload f i)
      sanitize_payload-SameType (dict fs) =
          Ensures-bind (λ g. ValuesFrom fs g × Kept fs g) (SameType (dict fs))
            (sanitize_fields f fs end) _
            (Ensures-of (λ g. ValuesFrom fs g × Kept fs g) (sanitize_fields f fs end)
              (λ g r. (
                Ensures-at (ValuesFrom fs) _ (fields_type fs fs end (λ j w h. h) ends) r,
                Ensures-at (Kept fs) _ (sanitize_fields-Kept fs end) r,
              )))
            (λ g h. dicts h.0 h.1)
      sanitize_payload-SameType (list xs) =
          Ensures-bind (SameTypes xs) (SameType (list xs)) (sanitize_items f xs) _ (items_type xs)
            (λ ys h. lists h)
      sanitize_payload-SameType (tuple xs) =
          Ensures-bind (SameTypes xs) (SameType (tuple xs)) (sanitize_items f xs) _ (items_type xs)
            (λ ys h. tuples h)
      sanitize_payload-SameType (scalar (other n)) = scalars refl
      sanitize_payload-SameType (scalar (str s)) =
          Ensures-bind (SameValue (str s)) (SameType (scalar (str s))) (f (str s)) _ (same (str s))
            (λ w h. scalars h)
      sanitize_payload-SameType (scalar (unicode s)) =
          Ensures-bind (SameValue (unicode s)) (SameType (scalar (unicode s))) (f (unicode s)) _
            (same (unicode s)) (λ w h. scalars h)

      items_type : (xs : Items) → Ensures (SameTypes xs) (sanitize_items f xs)
      items_type nil = nils
      items_type (cons x xs) =
          Ensures-bind (SameType x) (SameTypes (cons x xs)) (sanitize_payload f x) _
            (sanitize_payload-SameType x)
            (λ y p.
              Ensures-bind (SameTypes xs) (SameTypes (cons x xs)) (sanitize_items f xs) _
                (items_type xs) (λ ys q. conses p q))

      fields_type :
          (all fs d : Fields)
          → ((j : Value) (w : Item) → ValueFrom fs j w → ValueFrom all j w)
          → ValuesFrom all d
          → Ensures (ValuesFrom all) (sanitize_fields f fs d)
      fields_type all end d lift h = h
      fields_type all (field k v fs) d lift h =
          Ensures-bind (SameType v) (ValuesFrom all) (sanitize_payload f v) _
            (sanitize_payload-SameType v)
            (λ w p.
              Ensures-bind (λ i. f k ≡ some i) (ValuesFrom all) (f k) _
                (Ensures-of (λ i. f k ≡ some i) (f k) (λ i e. e))
                (λ i e.
                  fields_type all fs (put_field i w d) (λ j x r. lift j x (there r))
                    (put_field-From i w all d (λ j s. lift j w (here e s p)) h)))

module _ (u : Unicode) where
  pub returns_string : (v : Value) → is_some (remove_control_chars u v) ≡ is_string v
  unfolding remove_control_chars
  returns_string (str s) = refl
  returns_string (unicode s) = refl
  returns_string (other n) = refl

  joined_type : (s t : Text) → SameValue (unicode s) (joined t)
  unfolding joined
  joined_type s [] = refl
  joined_type s (c ∷ t) = tt

  keeps_type : (v : Value) → Ensures (SameValue v) (remove_control_chars u v)
  unfolding remove_control_chars
  keeps_type (str s) = tt
  keeps_type (unicode s) = joined_type s _
  keeps_type (other n) = tt

  -- With remove_control_chars, sanitize_payload returns exactly when every key of every dict is a
  -- string. Then every dict of the result has the cleaned key of each entry of the dict it is made of,
  -- each of its values is made of that of an entry with this cleaned key, and lists and tuples have one
  -- element for each element. Each string is of the type of the one it is made of, save that a unicode
  -- string of which nothing is left becomes the empty byte string, and other objects are the same.
  pub sanitize_payload_types :
      (i : Item)
      → (is_some (sanitize_payload (remove_control_chars u) i) ≡ string_keys i)
        × Ensures
            (SameType (remove_control_chars u) i)
            (sanitize_payload (remove_control_chars u) i)
  sanitize_payload_types i = (
    sanitize_payload_returns (remove_control_chars u) returns_string i,
    sanitize_payload-SameType (remove_control_chars u) keeps_type i,
  )
