-- ===== src/Emitter/Keys.antt =====
-- When sanitize_payload returns: every key is passed to sanitize_func.
use dd_agent.Prelude.{◌≡◌, refl, ◌∙◌, Bool, true, false, ◌&&◌, Option, arith}
use dd_agent.Prelude.Options.{is_some, is_some-bind, is_some-some}
use dd_agent.Emitter.Items.{
  Value, str, unicode, other, Item, scalar, dict, list, tuple, Items, nil, cons, Fields, end, field,
  put_field,
}
use dd_agent.Emitter.Sanitize.{sanitize_payload, sanitize_items, sanitize_fields}

abbrev pub is_string : Value → Bool
is_string (other n) = false
is_string _ = true

-- Whether all keys, at every depth, are strings.
unfoldable mutual
  pub string_keys : Item → Bool
  string_keys (dict fs) = string_keys_fields fs
  string_keys (list xs) = string_keys_items xs
  string_keys (tuple xs) = string_keys_items xs
  string_keys (scalar v) = true

  pub string_keys_items : Items → Bool
  string_keys_items nil = true
  string_keys_items (cons x xs) = string_keys x && string_keys_items xs

  pub string_keys_fields : Fields → Bool
  string_keys_fields end = true
  string_keys_fields (field k v fs) = is_string k && string_keys v && string_keys_fields fs

and_swap : (a b c : Bool) → (a && (b && c)) ≡ (b && a && c)
and_swap a b c = ground arith

module _ (f : Value → Option Value) (returns : (v : Value) → is_some (f v) ≡ is_string v) where
  mutual
    unfolding string_keys sanitize_payload

    pub sanitize_payload_returns : (i : Item) → is_some (sanitize_payload f i) ≡ string_keys i
    sanitize_payload_returns (dict fs) =
        is_some-some (sanitize_fields f fs end) dict ∙ fields_return fs end
    sanitize_payload_returns (list xs) = is_some-some (sanitize_items f xs) list ∙ items_return xs
    sanitize_payload_returns (tuple xs) = is_some-some (sanitize_items f xs) tuple ∙ items_return xs
    sanitize_payload_returns (scalar (other n)) = refl
    sanitize_payload_returns (scalar (str s)) = is_some-some (f (str s)) scalar ∙ returns (str s)
    sanitize_payload_returns (scalar (unicode s)) =
        is_some-some (f (unicode s)) scalar ∙ returns (unicode s)

    items_return : (xs : Items) → is_some (sanitize_items f xs) ≡ string_keys_items xs
    items_return nil = refl
    items_return (cons x xs) =
        is_some-bind (sanitize_payload f x) _ (string_keys_items xs)
          (λ y. is_some-some (sanitize_items f xs) (cons y) ∙ items_return xs)
        ∙ rw (sanitize_payload_returns x)

    fields_return : (fs d : Fields) → is_some (sanitize_fields f fs d) ≡ string_keys_fields fs
    fields_return end d = refl
    fields_return (field k v fs) d =
        is_some-bind (sanitize_payload f v) _ (is_string k && string_keys_fields fs) (λ w.
          is_some-bind (f k) _ (string_keys_fields fs) (λ j. fields_return fs (put_field j w d))
          ∙ rw (returns k))
        ∙ rw (sanitize_payload_returns v)
            (and_swap (string_keys v) (is_string k) (string_keys_fields fs))
