-- ===== src/Dogstatsd/Payload.antt =====
-- dogstatsd.py: serialize_metrics, with json.dumps, zlib.compress and the replacement of bad characters
-- as parameters.
use dd_agent.Prelude.{
  ℕ, ◌≤◌, ◌<◌, ◌≡◌, ◌∙◌, refl, ap, sym, Option, none, some, List, [], ◌∷◌, ◌++◌, Bool, true, false,
  ltb, if◌then◌else◌, length, ◌⊎◌, Option-cases, Bool-cases, inl, inr, arith, some_injective,
}
use dd_agent.Prelude.Text.{Text, codes}

-- json.dumps of {"series": metrics}: a text, a UnicodeDecodeError, or another exception
pub data Dumped : Type 0 where
  json : Text → Dumped
  undecodable unserializable : Dumped

-- json.dumps, unicode(s, errors='replace') on each text of a metric, which raises a TypeError where one
-- is unicode already, add_serialization_status_metric at the time of the call, and zlib.compress
pub record Encoding (P : Type 0) : Type 0 where
  pub dumps : List P → Dumped
  pub unicode_metric : P → Option P
  pub status_metric : Text → P
  pub compress : Text → Text

-- len(serialized) > COMPRESS_THRESHOLD; headers holds 'Content-Encoding' if deflated
abbrev pub compress_threshold : ℕ
compress_threshold = 1024

pub record Body : Type 0 where
  pub body : Text
  pub deflated : Bool

module _ {P : Type 0} (enc : Encoding P) where
  unfoldable pub unicode_metrics : List P → Option (List P)
  unicode_metrics [] = some []
  unicode_metrics (m ∷ ms) = elim (enc.unicode_metric m) [
    | none ↦ none
    | some m' ↦ elim (unicode_metrics ms) [ none ↦ none | some ms' ↦ some (m' ∷ ms') ]
  ]

  -- The handlers: each gives the series that is serialized, and its text. `none` is an exception that
  -- leaves serialize_metrics.
  abbrev pub last_attempt : List P → Dumped → Option (List P × Text)
  last_attempt ms (json t) = some (ms, t)
  last_attempt ms undecodable = none
  last_attempt ms unserializable = none

  abbrev pub give_up : Option (List P × Text)
  give_up =
      let gone = enc.status_metric (codes "permanent_failure") ∷ [] in
      last_attempt gone (enc.dumps gone)

  abbrev pub second_attempt : List P → Dumped → Option (List P × Text)
  second_attempt ms (json t) = some (ms, t)
  second_attempt ms undecodable = give_up
  second_attempt ms unserializable = give_up

  abbrev pub replaced : Option (List P) → Option (List P × Text)
  replaced none = give_up
  replaced (some ms) = second_attempt ms (enc.dumps ms)

  -- except UnicodeDecodeError
  abbrev pub first_attempt : List P → Dumped → Option (List P × Text)
  first_attempt ms (json t) = some (ms, t)
  first_attempt ms undecodable =
      replaced (unicode_metrics (ms ++ enc.status_metric (codes "failure") ∷ []))
  first_attempt ms unserializable = none

  unfoldable pub serialized : List P → Option (List P × Text)
  unfolding unicode_metrics
  serialized metrics =
      let metrics = metrics ++ enc.status_metric (codes "success") ∷ [] in
      first_attempt metrics (enc.dumps metrics)

  abbrev pub body_of : Text → Body
  body_of text =
      if ltb compress_threshold (length text)
      then record { body = enc.compress text; deflated = true }
      else record { body = text; deflated = false }

  unfoldable pub serialize_metrics : List P → Option Body
  unfolding serialized
  serialize_metrics metrics = elim (serialized metrics) [
    | none ↦ none
    | some (_, text) ↦ some (body_of text)
  ]

  pub serialize_metrics-serialized :
      (metrics sent : List P) (t : Text)
      → serialized metrics ≡ some (sent, t)
      → serialize_metrics metrics ≡ some (body_of t)
  unfolding serialize_metrics
  serialize_metrics-serialized metrics sent t e = rw (e, serialize_metrics) refl

  -- The metrics with the status of a success, as the first json.dumps is given them, and the metrics of
  -- the second one before their characters are replaced.
  abbrev pub with_success : List P → List P
  with_success metrics = metrics ++ enc.status_metric (codes "success") ∷ []

  abbrev pub with_failure : List P → List P
  with_failure metrics = with_success metrics ++ enc.status_metric (codes "failure") ∷ []

  -- What is sent: all metrics with the status of a success; or all with replaced characters and two
  -- statuses, where the first json.dumps had a UnicodeDecodeError; or the status of a permanent failure
  -- alone, where moreover the replacement or the second json.dumps raised.
  abbrev pub Sends : List P → List P → Type 0
  Sends metrics sent =
      (sent ≡ with_success metrics)
      ⊎ ((enc.dumps (with_success metrics) ≡ undecodable)
          × ((unicode_metrics (with_failure metrics) ≡ some sent)
              ⊎ ((sent ≡ enc.status_metric (codes "permanent_failure") ∷ [])
                  × ((ms : List P) (t : Text)
                      → unicode_metrics (with_failure metrics) ≡ some ms
                      → ¬ (enc.dumps ms ≡ json t)))))

  -- The body is the text, compressed exactly if it is longer than 1,024.
  abbrev pub Carries : Body → Text → Type 0
  Carries b t =
      ((length t ≤ 1024) × (b ≡ record { body = t; deflated = false }))
      ⊎ ((1024 < length t) × (b ≡ record { body = enc.compress t; deflated = true }))

  body_of-Carries : (t : Text) → Carries (body_of t) t
  body_of-Carries t = elim (Bool-cases (ltb compress_threshold (length t))) [
    | inl long ↦ rw long (inr (ground arith, refl))
    | inr short ↦ rw short (inl (ground arith, refl))
  ]

  Dumped-cases :
      (d : Dumped) → ((t : Text) × (d ≡ json t)) ⊎ ((d ≡ undecodable) ⊎ (d ≡ unserializable))
  Dumped-cases (json t) = inl (t, refl)
  Dumped-cases undecodable = inr (inl refl)
  Dumped-cases unserializable = inr (inr refl)

  json_injective : {a b : Text} → json a ≡ json b → a ≡ b
  json_injective e = cc

  abbrev Returns : List P → Type 0
  Returns metrics =
      (sent : List P) × (t : Text) × (enc.dumps sent ≡ json t)
      × (serialized metrics ≡ some (sent, t))
      × Sends metrics sent

  gives_up :
      (metrics : List P) (t : Text)
      → enc.dumps (with_success metrics) ≡ undecodable
      → enc.dumps (enc.status_metric (codes "permanent_failure") ∷ []) ≡ json t
      → replaced (unicode_metrics (with_failure metrics)) ≡ give_up
      → ((ms : List P) (t : Text)
          → unicode_metrics (with_failure metrics) ≡ some ms
          → ¬ (enc.dumps ms ≡ json t))
      → Returns metrics
  unfolding serialized
  gives_up metrics t n h e fails = (
    enc.status_metric (codes "permanent_failure") ∷ [],
    t,
    h,
    ap (first_attempt (with_success metrics)) n ∙ e ∙ ap (last_attempt _) h,
    inr (n, inr (refl, fails)),
  )

  serialized-undecodable :
      (metrics : List P) (t : Text)
      → enc.dumps (with_success metrics) ≡ undecodable
      → enc.dumps (enc.status_metric (codes "permanent_failure") ∷ []) ≡ json t
      → Returns metrics
  unfolding serialized
  serialized-undecodable metrics t n h =
      elim (Option-cases (unicode_metrics (with_failure metrics))) [
        | inl raises ↦ gives_up metrics t n h (ap replaced raises) (λ ms u e. cc)
        | inr (ms, e) ↦ elim (Dumped-cases (enc.dumps ms)) [
          | inl (u, f) ↦ (
            ms,
            u,
            f,
            ap (first_attempt (with_success metrics)) n ∙ ap replaced e ∙ ap (second_attempt ms) f,
            inr (n, inl e),
          )
          | inr (inl f) ↦
              gives_up metrics t n h (ap replaced e ∙ ap (second_attempt ms) f)
                (λ ms' u e' f'. let same : ms ≡ ms' = some_injective (sym e ∙ e') in cc)
          | inr (inr f) ↦
              gives_up metrics t n h (ap replaced e ∙ ap (second_attempt ms) f)
                (λ ms' u e' f'. let same : ms ≡ ms' = some_injective (sym e ∙ e') in cc)
        ]
      ]

  -- Where json.dumps serializes the one metric that reports a permanent failure, and the first json.dumps
  -- returns or has a UnicodeDecodeError, serialize_metrics returns, and json.dumps gives a text of what is
  -- sent, which is the body, compressed exactly if it is longer than 1,024. What is sent is all metrics
  -- with the status of a success; or, only after a UnicodeDecodeError, all metrics with replaced
  -- characters and the statuses of a success and of a failure; or, only where then the replacement or
  -- the second json.dumps raised, the status of a permanent failure alone.
  pub serialize_metrics-returns :
      (metrics : List P) (t : Text)
      → enc.dumps (enc.status_metric (codes "permanent_failure") ∷ []) ≡ json t
      → ¬ (enc.dumps (metrics ++ enc.status_metric (codes "success") ∷ []) ≡ unserializable)
      → (sent : List P) × (u : Text) × (b : Body) × (serialize_metrics metrics ≡ some b)
        × (enc.dumps sent ≡ json u)
        × Carries b u
        × Sends metrics sent
  unfolding serialized
  serialize_metrics-returns metrics t h no_other =
      elim (Dumped-cases (enc.dumps (with_success metrics))) [
        | inl (u, e) ↦ (
          with_success metrics,
          u,
          body_of u,
          serialize_metrics-serialized metrics (with_success metrics) u
              (ap (first_attempt (with_success metrics)) e),
          e,
          body_of-Carries u,
          inl refl,
        )
        | inr (inl n) ↦
            let (sent, u, e, f, sends) = serialized-undecodable metrics t n h in
            (
              sent,
              u,
              body_of u,
              serialize_metrics-serialized metrics sent u f,
              e,
              body_of-Carries u,
              sends,
            )
        | inr (inr other) ↦ absurd (no_other other)
      ]
