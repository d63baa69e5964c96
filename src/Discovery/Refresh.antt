-- ===== src/Discovery/Refresh.antt =====
-- utils/service_discovery/abstract_config_store.py: get_check_tpls and get_checks_to_refresh, with the
-- cache identifier_to_checks.
use dd_agent.Prelude.{
  Option, none, some, List, [], ◌∷◌, ◌++◌, Bool, ◌&&◌, ◌==◌, if◌then◌else◌, length,
}
use dd_agent.Prelude.Dict.{Dict, get, put}
use dd_agent.Prelude.Text.{Text, Text-discrete}
use dd_agent.Collector.Payload.{among}
use dd_agent.Discovery.Image.{get_image_ident}
use dd_agent.Discovery.Store.{
  Services, Config, Source, kubernetes, Lookup, missing, index_error, found, read_config_from_store,
  get_auto_config, get_kube_config, Kube, kube_of,
}

-- A set is a list of its elements without duplicates.
abbrev pub insert : Text → List Text → List Text
insert t ts = if among t ts then ts else ts ++ t ∷ []

-- s.update(ts)
unfoldable pub add_all : List Text → List Text → List Text
unfolding among
add_all s [] = s
add_all s (t ∷ ts) = add_all (insert t s) ts

abbrev pub Cache : Type 0
Cache = Dict Text (List Text)

pub record Template (V : Type 0) : Type 0 where
  pub source : Source
  pub check_name : Text
  pub init_config : V
  pub instance_config : V

abbrev pub update_at : Cache → Text → List Text → Option (List Text) → Cache
update_at cache identifier check_names none =
    put Text-discrete cache identifier (add_all [] check_names)
update_at cache identifier check_names (some s) = cache

-- _update_identifier_to_checks: a set that is there is not replaced
unfoldable pub update_cache : Cache → Text → List Text → Cache
unfolding add_all
update_cache cache identifier check_names =
    update_at cache identifier check_names (get Text-discrete cache identifier)

module _ {V : Type 0} where
  -- zip(check_names, init_config_tpls, instance_tpls), with the source
  unfoldable pub zipped : Source → List Text → List V → List V → List (Template V)
  zipped source (n ∷ ns) (i ∷ is) (x ∷ xs) =
      record { source = source; check_name = n; init_config = i; instance_config = x }
      ∷ zipped source ns is xs
  zipped source _ _ _ = []

  abbrev pub well_formed : Config V → Bool
  well_formed c =
      (length c.check_names == length c.init_configs)
      && (length c.check_names == length c.instances)

  abbrev pub templates_of : Source → Config V → List (Template V)
  templates_of source c = zipped source c.check_names c.init_configs c.instances

-- The templates and the cache, or an IndexError.
pub data Templates (V : Type 0) : Type 0 where
  templates : List (Template V) → Cache → Templates V
  raised : Templates V

module _ {V : Type 0} (s : Services V) where
  abbrev pub from_store : Text → Cache → Lookup V → Templates V
  from_store identifier cache missing = templates [] cache
  from_store identifier cache index_error = raised
  from_store identifier cache (found source c) =
      if well_formed c
      then templates (templates_of source c) (update_cache cache identifier c.check_names)
      else templates [] cache

  abbrev pub from_auto : Cache → Lookup V → Templates V
  from_auto cache missing = templates [] cache
  from_auto cache index_error = raised
  from_auto cache (found source c) = templates (templates_of source c) cache

  abbrev pub from_kube : Text → Cache → Option (Config V) → Templates V
  from_kube identifier cache none = from_auto cache (get_auto_config s identifier)
  from_kube identifier cache (some c) = templates (templates_of kubernetes c) cache

  -- auto_conf: no store is configured
  unfoldable pub get_check_tpls : Bool → Text → Option (Kube s) → Cache → Templates V
  unfolding update_cache zipped
  get_check_tpls auto_conf identifier kube cache =
      if auto_conf
      then from_kube identifier cache (kube_of s kube)
      else from_store identifier cache (read_config_from_store s identifier)

  abbrev pub cached : Option (List Text) → List Text
  cached none = []
  cached (some s) = s

  abbrev kube_names : Option (Config V) → List Text
  kube_names none = []
  kube_names (some c) = c.check_names

  -- Reading the defaultdict makes an empty set where there is none.
  abbrev pub fall_back : Text → Cache → Option (List Text) → List Text × Cache
  fall_back ident cache none = ([], put Text-discrete cache ident [])
  fall_back ident cache (some s) = (s, cache)

  abbrev pub refresh : Text → Cache → List Text → List Text × Cache
  refresh identifier cache [] =
      fall_back (get_image_ident identifier) cache
        (get Text-discrete cache (get_image_ident identifier))
  refresh identifier cache (t ∷ ts) = (t ∷ ts, cache)

  unfoldable pub get_checks_to_refresh : Text → Option (Kube s) → Cache → List Text × Cache
  unfolding add_all get_kube_config
  get_checks_to_refresh identifier kube cache =
      refresh identifier cache
        (add_all (cached (get Text-discrete cache identifier)) (kube_names (kube_of s kube)))
