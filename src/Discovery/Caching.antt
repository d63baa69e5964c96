-- ===== src/Discovery/Caching.antt =====
-- The cache of identifiers: what is cached with templates, and what is kept.
use dd_agent.Prelude.{
  ℕ, ◌≡◌, refl, sym, ap, ◌∙◌, Option, none, some, List, [], ◌∷◌, ◌++◌, map, Bool, true, false, ◌==◌,
  length, arith, Bool-cases, Option-cases, inl, inr, All, All-append, ==_iff,
}
use mathlib.Core.Path.{subst}
use mathlib.Core.List.{append_assoc}
use mathlib.Core.Logic.{if_pos, if_neg}
use dd_agent.Prelude.Dict.{get, put, get-put, get-put_self}
use dd_agent.Prelude.Text.{Text, Text-discrete}
use dd_agent.Collector.Payload.{among}
use dd_agent.Discovery.Image.{get_image_ident}
use dd_agent.Discovery.Store.{
  Services, Config, Source, Lookup, missing, index_error, found, read_config_from_store,
  get_auto_config, Kube, kube_of,
}
use dd_agent.Discovery.Refresh.{
  insert, add_all, Cache, Template, zipped, update_cache, well_formed, templates_of, Templates,
  templates, raised, from_store, from_auto, from_kube, get_check_tpls, get_checks_to_refresh,
}

among-append : (n : Text) (s t : List Text) → among n s ≡ true → among n (s ++ t) ≡ true
unfolding among
among-append n [] t h = cc
among-append n (x ∷ s) t h = ground (arith, among-append n s t)

among_last : (n : Text) (s : List Text) → among n (s ++ n ∷ []) ≡ true
unfolding among
among_last n [] = if_pos (Text-discrete n n) refl true false
among_last n (x ∷ s) = ground (arith, among_last n s)

insert_self : (n : Text) (s : List Text) → among n (insert n s) ≡ true
insert_self n s = ground (arith, among_last n s)

insert_other : (n t : Text) (s : List Text) → among n s ≡ true → among n (insert t s) ≡ true
insert_other n t s h = ground (arith, among-append n s (t ∷ []))

add_all_keeps : (n : Text) (s ts : List Text) → among n s ≡ true → among n (add_all s ts) ≡ true
unfolding add_all
add_all_keeps n s [] h = h
add_all_keeps n s (t ∷ ts) h = add_all_keeps n (insert t s) ts (insert_other n t s h)

add_all_adds : (s ts : List Text) → All (λ n. among n (add_all s ts) ≡ true) ts
unfolding add_all
add_all_adds s [] = tt
add_all_adds s (t ∷ ts) =
    (add_all_keeps t (insert t s) ts (insert_self t s), add_all_adds (insert t s) ts)

-- What all elements satisfy is satisfied after more are added that satisfy it.
add_all-All : (P : Text → Type 0) (s ts : List Text) → All P s → All P ts → All P (add_all s ts)
unfolding add_all
add_all-All P s [] h k = h
add_all-All P s (t ∷ ts) h k = elim (Bool-cases (among t s)) [
  | inl e ↦ rw e (add_all-All P s ts h k.1)
  | inr e ↦ rw e (add_all-All P (s ++ t ∷ []) ts (All-append P s (t ∷ []) h (k.0, tt)) k.1)
]

among_middle : (s : List Text) (t : Text) (ts : List Text) → among t (s ++ t ∷ ts) ≡ true
unfolding among
among_middle [] t ts = if_pos (Text-discrete t t) refl true (among t ts)
among_middle (x ∷ s) t ts = ground (arith, among_middle s t ts)

among_part : (s ts : List Text) → All (λ n. among n (s ++ ts) ≡ true) ts
among_part s [] = tt
among_part s (t ∷ ts) = (
  among_middle s t ts,
  subst (λ (x : List Text). All (λ n. among n x ≡ true) ts) (append_assoc s (t ∷ []) ts)
      (among_part (s ++ t ∷ []) ts),
)

zipped-names :
    {V : Type 0} (source : Source) (ns : List Text) (is xs : List V)
    → length ns ≡ length is
    → length ns ≡ length xs
    → (map (λ (t : Template V). t.check_name) (zipped source ns is xs) ≡ ns)
      × (map (λ (t : Template V). t.init_config) (zipped source ns is xs) ≡ is)
      × (map (λ (t : Template V). t.instance_config) (zipped source ns is xs) ≡ xs)
unfolding zipped
zipped-names source [] [] [] h k = (refl, refl, refl)
zipped-names source [] [] (x ∷ xs) h k = absurd (omega arith)
zipped-names source [] (i ∷ is) xs h k = absurd (omega arith)
zipped-names source (n ∷ ns) [] xs h k = absurd (omega arith)
zipped-names source (n ∷ ns) (i ∷ is) [] h k = absurd (omega arith)
zipped-names source (n ∷ ns) (i ∷ is) (x ∷ xs) h k =
    let (a, b, c) = zipped-names source ns is xs (omega arith) (omega arith) in
    (ap (λ (t : List Text). n ∷ t) a, ap (λ (t : List _). i ∷ t) b, ap (λ (t : List _). x ∷ t) c)

add_all_cons :
    (t : Text) (ts xs : List Text) → (u : Text) × (us : List Text) × (add_all (t ∷ ts) xs ≡ u ∷ us)
unfolding add_all
add_all_cons t ts [] = (t, ts, refl)
add_all_cons t ts (x ∷ xs) = elim (Bool-cases (among x (t ∷ ts))) [
  | inl e ↦ rw e (add_all_cons t ts xs)
  | inr e ↦ rw e (add_all_cons t (ts ++ x ∷ []) xs)
]

module _ {V : Type 0} (s : Services V) where
  -- What holds of the cache that get_check_tpls leaves.
  abbrev Leaves : (Cache → Type 0) → Templates V → Type 0
  Leaves P (templates ts cache) = P cache
  Leaves P raised = Unit

  abbrev Has : Text → List Text → Cache → Type 0
  Has j x cache = get Text-discrete cache j ≡ some x

  update_cache-Has :
      (cache : Cache) (identifier : Text) (names : List Text) (j : Text) (x : List Text)
      → Has j x cache
      → Has j x (update_cache cache identifier names)
  unfolding update_cache
  update_cache-Has cache identifier names j x h =
      elim (Option-cases (get Text-discrete cache identifier)) [
        | inl e ↦ rw e (
            get-put Text-discrete cache identifier j (add_all [] names)
            ∙ if_neg (Text-discrete identifier j) (λ p. cc (e, h, ap (get Text-discrete cache) p)) _
                _
            ∙ h)
        | inr (y, e) ↦ rw e h
      ]

  from_store-Has :
      (identifier : Text) (cache : Cache) (l : Lookup V) (j : Text) (x : List Text)
      → Has j x cache
      → Leaves (Has j x) (from_store s identifier cache l)
  from_store-Has identifier cache missing j x h = h
  from_store-Has identifier cache index_error j x h = tt
  from_store-Has identifier cache (found source c) j x h = elim (Bool-cases (well_formed c)) [
    | inl e ↦ rw e (update_cache-Has cache identifier c.check_names j x h)
    | inr e ↦ rw e h
  ]

  from_auto-Has :
      (cache : Cache) (l : Lookup V) (j : Text) (x : List Text)
      → Has j x cache
      → Leaves (Has j x) (from_auto s cache l)
  from_auto-Has cache missing j x h = h
  from_auto-Has cache index_error j x h = tt
  from_auto-Has cache (found source c) j x h = h

  from_kube-Has :
      (identifier : Text) (cache : Cache) (k : Option (Config V)) (j : Text) (x : List Text)
      → Has j x cache
      → Leaves (Has j x) (from_kube s identifier cache k)
  from_kube-Has identifier cache none j x h =
      from_auto-Has cache (get_auto_config s identifier) j x h
  from_kube-Has identifier cache (some c) j x h = h

  get_check_tpls-Has :
      (auto_conf : Bool) (identifier : Text) (kube : Option (Kube s)) (cache : Cache) (j : Text)
      (x : List Text)
      → Has j x cache
      → Leaves (Has j x) (get_check_tpls s auto_conf identifier kube cache)
  unfolding get_check_tpls
  get_check_tpls-Has true identifier kube cache j x h =
      from_kube-Has identifier cache (kube_of s kube) j x h
  get_check_tpls-Has false identifier kube cache j x h =
      from_store-Has identifier cache (read_config_from_store s identifier) j x h

  refresh_cached :
      (identifier : Text) (cache : Cache) (t : Text) (ts : List Text)
      → get Text-discrete cache identifier ≡ some (t ∷ ts)
      → get_checks_to_refresh s identifier none cache ≡ (t ∷ ts, cache)
  unfolding get_checks_to_refresh add_all
  refresh_cached identifier cache t ts h = rw h refl

  -- Where the configuration that is found for an identifier has as many entries in each list, at least
  -- one, and the identifier is not cached, get_check_tpls gives one template for each check name, in
  -- order and with its own configurations, and get_checks_to_refresh then gives a set of which each of
  -- these names is an element, and no other.
  pub get_check_tpls-refreshes :
      (identifier : Text) (kube : Option (Kube s)) (cache : Cache) (source : Source) (c : Config V)
      (n : Text) (ns : List Text)
      → read_config_from_store s identifier ≡ found source c
      → c.check_names ≡ n ∷ ns
      → length c.check_names ≡ length c.init_configs
      → length c.check_names ≡ length c.instances
      → get Text-discrete cache identifier ≡ none
      → (ts : List (Template V)) × (cache' : Cache) × (names : List Text) × (get_check_tpls s false
            identifier kube cache
          ≡ templates ts cache')
        × (map (λ (t : Template V). t.check_name) ts ≡ c.check_names)
        × (map (λ (t : Template V). t.init_config) ts ≡ c.init_configs)
        × (map (λ (t : Template V). t.instance_config) ts ≡ c.instances)
        × (get_checks_to_refresh s identifier none cache' ≡ (names, cache'))
        × All (λ m. among m names ≡ true) c.check_names
        × All (λ m. among m c.check_names ≡ true) names
  unfolding get_check_tpls update_cache
  get_check_tpls-refreshes identifier kube cache source c n ns e names h k uncached =
      let set : List Text = add_all [] c.check_names in
      let cache' : Cache = put Text-discrete cache identifier set in
      let (u, us, q) = add_all_cons n [] ns in
      let set_cons : set ≡ u ∷ us = ap (add_all []) names ∙ q in
      let (a, b, d) = zipped-names source c.check_names c.init_configs c.instances h k in
      (
        templates_of source c,
        cache',
        set,
        ap (from_store s identifier cache) e ∙ rw (h_iff h, h_iff k, uncached) refl,
        a,
        b,
        d,
        refresh_cached identifier cache' u us
              (get-put_self Text-discrete cache identifier set ∙ ap some set_cons)
            ∙ ap (λ (x : List Text). (x, cache')) (sym set_cons),
        add_all_adds [] c.check_names,
        add_all-All (λ m. among m c.check_names ≡ true) [] c.check_names tt
            (among_part [] c.check_names),
      )
    where
      h_iff : {x y : ℕ} → x ≡ y → (x == y) ≡ true
      h_iff {x} {y} p = (==_iff x y).1 p

  refresh_unknown :
      (identifier : Text) (cache : Cache)
      → get_image_ident identifier ≡ identifier
      → get Text-discrete cache identifier ≡ none
      → get_checks_to_refresh s identifier none cache ≡ ([], put Text-discrete cache identifier [])
  unfolding get_checks_to_refresh add_all
  refresh_unknown identifier cache plain h = rw (h, plain, h) refl

  refresh_empty :
      (identifier : Text) (cache : Cache)
      → get_image_ident identifier ≡ identifier
      → get Text-discrete cache identifier ≡ some []
      → get_checks_to_refresh s identifier none cache ≡ ([], cache)
  unfolding get_checks_to_refresh add_all
  refresh_empty identifier cache plain h = rw (h, plain, h) refl

  -- After get_checks_to_refresh for a plain image name that is not cached, and for which no pod
  -- annotates anything, the templates of this image that get_check_tpls finds later are not cached:
  -- get_checks_to_refresh gives no check for it.
  pub refresh_forgets :
      (identifier : Text) (kube : Option (Kube s)) (cache : Cache) (auto_conf : Bool)
      (ts : List (Template V)) (cache' : Cache)
      → get_image_ident identifier ≡ identifier
      → get Text-discrete cache identifier ≡ none
      → get_check_tpls s auto_conf identifier kube (get_checks_to_refresh s identifier none cache).1
        ≡ templates ts cache'
      → ((get_checks_to_refresh s identifier none cache).0 ≡ [])
        × (get_checks_to_refresh s identifier none cache' ≡ ([], cache'))
  refresh_forgets identifier kube cache auto_conf ts cache' plain uncached e =
      let unknown : get_checks_to_refresh s identifier none cache
          ≡ ([], put Text-discrete cache identifier []) =
        refresh_unknown identifier cache plain uncached in
      let later : get_check_tpls s auto_conf identifier kube (put Text-discrete cache identifier [])
          ≡ templates ts cache' =
        ap (λ (x : List Text × Cache). get_check_tpls s auto_conf identifier kube x.1) (sym unknown)
        ∙ e in
      (
        ap (λ (x : List Text × Cache). x.0) unknown,
        refresh_empty identifier cache' plain (
            subst (Leaves (Has identifier [])) later (
              get_check_tpls-Has auto_conf identifier kube (put Text-discrete cache identifier [])
                identifier [] (get-put_self Text-discrete cache identifier []))),
      )
