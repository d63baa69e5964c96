-- ===== src/Tests/Emitter.antt =====
-- Examples of the theorems on emitter.py, and runs of http_emitter on small messages.
use dd_agent.Prelude.{
  ◌≡◌, refl, Bool, true, ◌&&◌, none, some, [], ◌∷◌, keep, ltb, inl, inr, if◌then◌else◌, Bool-cases,
  ◌⊎◌,
}
use dd_agent.Prelude.Options.{Ensures, is_some}
use dd_agent.Prelude.Dict.{Dict, get}
use dd_agent.Prelude.Text.{Text, Text-discrete, codes}
use dd_agent.Emitter.Items.{
  Value, str, unicode, other, Item, scalar, dict, list, tuple, Items, nil, cons, Fields, end, field,
  put_field, get_field, same_key,
}
use dd_agent.Emitter.Sanitize.{
  Unicode, joined, is_control_byte, remove_control_chars, sanitize_payload,
}
use dd_agent.Emitter.Clean.{
  AllStrings, AllItems, AllFields, IsPrintable, sanitize_payload-IsPrintable,
}
use dd_agent.Emitter.Fixed.{sanitize_payload_idem}
use dd_agent.Emitter.Keys.{string_keys}
use dd_agent.Emitter.Types.{SameType, sanitize_payload_types}
use dd_agent.Emitter.Send.{
  Services, Dumped, text, undecodable, raised, returned, no_api_key, http_emitter, headers_of,
  api_key_of,
}
use dd_agent.Emitter.Posted.{IsDecodable, DumpsJson, Variant, intake_url, http_emitter_posts}

-- Only ASCII is decoded.
abbrev ascii : Text → Bool
ascii [] = true
ascii (c ∷ s) = ltb c 128 && ascii s

abbrev sample_unicode : Unicode
sample_unicode = record {
  is_control = is_control_byte;
  decode = λ s. if ascii s then some s else none;
  decode_ignore = keep (λ c. ltb c 128);
}

abbrev ascii_value : Value → Bool
ascii_value (str s) = ascii s
ascii_value _ = true

unfoldable mutual
  ascii_item : Item → Bool
  ascii_item (scalar v) = ascii_value v
  ascii_item (dict fs) = ascii_fields fs
  ascii_item (list xs) = ascii_items xs
  ascii_item (tuple xs) = ascii_items xs

  ascii_items : Items → Bool
  ascii_items nil = true
  ascii_items (cons x xs) = ascii_item x && ascii_items xs

  ascii_fields : Fields → Bool
  ascii_fields end = true
  ascii_fields (field k v fs) = ascii_value k && ascii_item v && ascii_fields fs

sample_dumps : Item → Dumped
sample_dumps i = if ascii_item i then text (codes "{}") else undecodable

abbrev sample_services : Services
sample_services = record {
  unicode_data = sample_unicode;
  dumps = sample_dumps;
  compress = λ t. t;
  md5 = λ t. t;
  version = codes "5.12";
  truth = λ n. true;
  shown = λ i. codes "k1";
}

value_ascii : (v : Value) → IsDecodable sample_unicode v → ascii_value v ≡ true
value_ascii (str s) (t, h) = elim (Bool-cases (ascii s)) [ inl e ↦ e | inr e ↦ cc (rw e at h) ]
value_ascii (unicode s) h = refl
value_ascii (other n) h = refl

mutual
  unfolding ascii_item AllStrings

  item_ascii : (i : Item) → AllStrings (IsDecodable sample_unicode) i → ascii_item i ≡ true
  item_ascii (scalar (str s)) h = value_ascii (str s) h
  item_ascii (scalar (unicode s)) h = refl
  item_ascii (scalar (other n)) h = refl
  item_ascii (dict fs) h = fields_ascii fs h
  item_ascii (list xs) h = items_ascii xs h
  item_ascii (tuple xs) h = items_ascii xs h

  items_ascii : (xs : Items) → AllItems (IsDecodable sample_unicode) xs → ascii_items xs ≡ true
  items_ascii nil h = refl
  items_ascii (cons x xs) h = rw (item_ascii x h.0, items_ascii xs h.1)

  fields_ascii : (fs : Fields) → AllFields (IsDecodable sample_unicode) fs → ascii_fields fs ≡ true
  fields_ascii end h = refl
  fields_ascii (field k v fs) h = rw (value_ascii k h.0, item_ascii v h.1, fields_ascii fs h.2)

sample_otherwise :
    (i : Item) → ((t : Text) × (sample_dumps i ≡ text t)) ⊎ (sample_dumps i ≡ undecodable)
unfolding sample_dumps
sample_otherwise i = elim (Bool-cases (ascii_item i)) [
  | inl e ↦ inl (codes "{}", rw e)
  | inr e ↦ inr (rw e)
]

sample_decodable :
    (i : Item) → AllStrings (IsDecodable sample_unicode) i → (t : Text) × (sample_dumps i ≡ text t)
unfolding sample_dumps
sample_decodable i h = (codes "{}", rw (item_ascii i h))

sample-DumpsJson : DumpsJson sample_services
sample-DumpsJson = record { decodable = sample_decodable; otherwise = sample_otherwise }

-- {'apiKey': 'k1', 'a\x07': ['\xc3\x00', 3], 'a': (u'\x1b',)}
abbrev sample_message : Fields
sample_message = field (str (codes "apiKey")) (scalar (str (codes "k1"))) (
    field (str (b'a' ∷ 7 ∷ []))
      (list (cons (scalar (str (195 ∷ 0 ∷ []))) (cons (scalar (other 3)) nil)))
      (field (str (codes "a")) (tuple (cons (scalar (unicode (27 ∷ []))) nil)) end))

abbrev sample_config : Dict Text Text
sample_config = (codes "dd_url", codes "https://app") ∷ (codes "version", codes "5.12") ∷ []

-- The keys 'a\x07' and 'a' become one, with the value of the latter.
abbrev clean_message : Fields
clean_message =
    field (str (codes "apiKey")) (scalar (str (codes "k1")))
      (field (str (codes "a")) (tuple (cons (scalar (str [])) nil)) end)

sanitize_runs :
    sanitize_payload (remove_control_chars sample_unicode) (dict sample_message)
    ≡ some (dict clean_message)
unfolding sanitize_payload remove_control_chars joined put_field same_key Text-discrete
sanitize_runs = refl

sanitize_payload-IsPrintable_example : AllStrings (IsPrintable sample_unicode) (dict clean_message)
sanitize_payload-IsPrintable_example =
    sanitize_payload-IsPrintable sample_unicode (dict sample_message) (dict clean_message)
      sanitize_runs

sanitize_payload_idem_example :
    sanitize_payload (remove_control_chars sample_unicode) (dict clean_message)
    ≡ some (dict clean_message)
sanitize_payload_idem_example =
    sanitize_payload_idem sample_unicode (dict sample_message) (dict clean_message) sanitize_runs

sanitize_payload_types_example :
    (is_some (sanitize_payload (remove_control_chars sample_unicode) (dict sample_message))
      ≡ string_keys (dict sample_message))
    × Ensures
        (SameType (remove_control_chars sample_unicode) (dict sample_message))
        (sanitize_payload (remove_control_chars sample_unicode) (dict sample_message))
sanitize_payload_types_example = sanitize_payload_types sample_unicode (dict sample_message)

keys_are_strings : string_keys (dict sample_message) ≡ true
unfolding string_keys
keys_are_strings = refl

url_found : get Text-discrete sample_config (codes "dd_url") ≡ some (codes "https://app")
unfolding get Text-discrete
url_found = refl

version_found : get Text-discrete sample_config (codes "version") ≡ some (codes "5.12")
unfolding get Text-discrete
version_found = refl

key_found : api_key_of sample_services sample_message ≡ some (scalar (str (codes "k1")))
unfolding get_field same_key Text-discrete
key_found = refl

http_emitter_posts_example :
    (q : Item) × (t : Text) × Variant sample_services (dict sample_message) q
    × (sample_dumps q ≡ text t)
    × (http_emitter sample_services sample_message sample_config (codes "metrics")
        ≡ returned (
            some (record {
              url =
                  intake_url sample_services
                    (codes "https://app")
                    (codes "metrics")
                    (scalar (str (codes "k1")));
              body = t;
              headers = headers_of sample_services t (codes "5.12");
            })))
http_emitter_posts_example =
    http_emitter_posts sample_services sample_message sample_config (codes "metrics")
      (codes "https://app") (codes "5.12") (scalar (str (codes "k1"))) sample-DumpsJson
      keys_are_strings url_found version_found key_found refl

-- An object that is no string as a key: the message is dropped where a byte string does not decode.
other_key_is_dropped :
    http_emitter sample_services
      (field (other 1) (scalar (str (200 ∷ []))) end)
      sample_config
      (codes "metrics")
    ≡ returned none
unfolding http_emitter sample_dumps ascii_item sanitize_payload remove_control_chars get
    Text-discrete
other_key_is_dropped = refl

-- Without an API key http_emitter raises.
no_key_raises : http_emitter sample_services end sample_config (codes "metrics") ≡ raised no_api_key
unfolding http_emitter sample_dumps ascii_item get get_field Text-discrete
no_key_raises = refl
