-- ===== src/Emitter/Posted.antt =====
-- http_emitter posts what can be serialized.
use dd_agent.Prelude.{◌≡◌, refl, ◌∙◌, true, Option, some, ◌++◌, ◌⊎◌, inl, inr, Option-cases}
use dd_agent.Prelude.Options.{
  Ensures, Ensures-at, is_some, is_some-bind, is_some-some, is_some→some,
}
use dd_agent.Prelude.Dict.{Dict, get}
use dd_agent.Prelude.Text.{Text, Text-discrete, codes}
use dd_agent.Emitter.Items.{
  Value, str, unicode, other, Item, scalar, dict, list, tuple, Items, nil, cons, Fields, end, field,
  put_field,
}
use dd_agent.Emitter.Sanitize.{
  Unicode, remove_control_chars, remove_undecodable_chars, sanitize_payload, sanitize_items,
  sanitize_fields,
}
use dd_agent.Emitter.Clean.{AllStrings, sanitize_payload-All}
use dd_agent.Emitter.Keys.{string_keys, sanitize_payload_returns}
use dd_agent.Emitter.Types.{returns_string}
use dd_agent.Emitter.Send.{
  Services, Dumped, text, undecodable, returned, dump_message, redump, truthy, headers_of,
  post_headers, api_key_of, http_emitter,
}

module _ (f : Value → Option Value) (total : (v : Value) → is_some (f v) ≡ true) where
  -- A function that never raises lets every payload through.
  mutual
    unfolding sanitize_payload

    payload_total : (i : Item) → is_some (sanitize_payload f i) ≡ true
    payload_total (dict fs) = is_some-some (sanitize_fields f fs end) dict ∙ fields_total fs end
    payload_total (list xs) = is_some-some (sanitize_items f xs) list ∙ items_total xs
    payload_total (tuple xs) = is_some-some (sanitize_items f xs) tuple ∙ items_total xs
    payload_total (scalar (other n)) = refl
    payload_total (scalar (str s)) = is_some-some (f (str s)) scalar ∙ total (str s)
    payload_total (scalar (unicode s)) = is_some-some (f (unicode s)) scalar ∙ total (unicode s)

    items_total : (xs : Items) → is_some (sanitize_items f xs) ≡ true
    items_total nil = refl
    items_total (cons x xs) =
        is_some-bind (sanitize_payload f x) _ true
          (λ y. is_some-some (sanitize_items f xs) (cons y) ∙ items_total xs)
        ∙ rw (payload_total x)

    fields_total : (fs d : Fields) → is_some (sanitize_fields f fs d) ≡ true
    fields_total end d = refl
    fields_total (field k v fs) d =
        is_some-bind (sanitize_payload f v) _ true
          (λ w. is_some-bind (f k) _ true (λ j. fields_total fs (put_field j w d)) ∙ rw (total k))
        ∙ rw (payload_total v)

-- Byte strings are UTF-8.
abbrev pub IsDecodable : Unicode → Value → Type 0
IsDecodable u (str s) = (t : Text) × (u.decode s ≡ some t)
IsDecodable u _ = Unit

decoded-IsDecodable :
    (u : Unicode) (v : Value) → Ensures (IsDecodable u) (remove_undecodable_chars u v)
unfolding remove_undecodable_chars
decoded-IsDecodable u (str s) = elim (Option-cases (u.decode s)) [
  | inl e ↦ rw e tt
  | inr (t, e) ↦ rw e (t, e)
]
decoded-IsDecodable u (unicode s) = tt
decoded-IsDecodable u (other n) = tt

undecodable_total : (u : Unicode) (v : Value) → is_some (remove_undecodable_chars u v) ≡ true
unfolding remove_undecodable_chars
undecodable_total u (str s) = refl
undecodable_total u (unicode s) = refl
undecodable_total u (other n) = refl

module _ (s : Services) where
  -- What is documented of json.dumps on payloads of the types that JSON has: it raises
  -- UnicodeDecodeError if anything, and not if all byte strings are UTF-8.
  pub record DumpsJson : Type 0 where
    pub decodable :
        (i : Item) → AllStrings (IsDecodable s.unicode_data) i → (t : Text) × (s.dumps i ≡ text t)
    pub otherwise : (i : Item) → ((t : Text) × (s.dumps i ≡ text t)) ⊎ (s.dumps i ≡ undecodable)

  -- The message, or what is left of it when it is sanitised once or twice.
  pub data Variant (m : Item) : Item → Type 0 where
    as_is : Variant m m
    once :
        {q : Item} → sanitize_payload (remove_control_chars s.unicode_data) m ≡ some q → Variant m q
    twice :
        {n q : Item}
        → sanitize_payload (remove_control_chars s.unicode_data) m ≡ some n
        → sanitize_payload (remove_undecodable_chars s.unicode_data) n ≡ some q
        → Variant m q

  abbrev pub Dumps : Item → Dumped → Type 0
  Dumps m d = (q : Item) × (t : Text) × Variant m q × (s.dumps q ≡ text t) × (d ≡ text t)

  redump-Dumps :
      (m n : Item)
      → DumpsJson
      → sanitize_payload (remove_control_chars s.unicode_data) m ≡ some n
      → Dumps m (redump s n (s.dumps n))
  unfolding redump
  redump-Dumps m n j e = elim (j.otherwise n) [
    | inl (t, d) ↦ (n, t, once e, d, rw d)
    | inr d ↦
        let (q, p) = is_some→some _ (
          payload_total (remove_undecodable_chars s.unicode_data) (undecodable_total s.unicode_data)
            n) in
        let (t, b) = j.decodable q (
          Ensures-at (AllStrings (IsDecodable s.unicode_data)) _
            (sanitize_payload-All (IsDecodable s.unicode_data)
              (remove_undecodable_chars s.unicode_data) (decoded-IsDecodable s.unicode_data) n)
            p) in
        (q, t, twice e p, b, rw (d, p, b))
  ]

  dump_message-Dumps : (m : Item) → DumpsJson → string_keys m ≡ true → Dumps m (dump_message s m)
  unfolding dump_message
  dump_message-Dumps m j k = elim (j.otherwise m) [
    | inl (t, d) ↦ (m, t, as_is, d, rw d)
    | inr d ↦
        let (n, e) = is_some→some _ (
          sanitize_payload_returns (remove_control_chars s.unicode_data)
            (returns_string s.unicode_data) m
          ∙ k) in
        rw (d, e) (redump-Dumps m n j e)
  ]

  -- The url, under a configured address, for an endpoint and an API key.
  abbrev pub intake_url : Text → Text → Item → Text
  intake_url url endpoint api_key =
      url ++ (codes "/intake/" ++ (endpoint ++ (codes "?api_key=" ++ s.shown api_key)))

  -- If json.dumps fails at most on byte strings that are not UTF-8, and an address and a version are
  -- configured, a message whose keys are all strings and that has an API key is posted to the intake
  -- of the endpoint, as the compressed JSON of the message or of what sanitising it once or twice
  -- leaves: no such message is dropped.
  pub http_emitter_posts :
      (message : Fields) (agent_config : Dict Text Text) (endpoint url version : Text)
      (api_key : Item)
      → DumpsJson
      → string_keys (dict message) ≡ true
      → get Text-discrete agent_config (codes "dd_url") ≡ some url
      → get Text-discrete agent_config (codes "version") ≡ some version
      → api_key_of s message ≡ some api_key
      → truthy s api_key ≡ true
      → (q : Item) × (t : Text) × Variant (dict message) q
        × (s.dumps q ≡ text t)
        × (http_emitter s message agent_config endpoint
            ≡ returned (
                some (record {
                  url = intake_url url endpoint api_key;
                  body = s.compress t;
                  headers = headers_of s (s.compress t) version;
                })))
  unfolding http_emitter post_headers
  http_emitter_posts message agent_config endpoint url version api_key j k hu hv ha ht =
      let (q, t, v, d, e) = dump_message-Dumps (dict message) j k in
      (q, t, v, d, simp (hu, e, ha, ht, hv) refl)
