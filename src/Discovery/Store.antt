-- ===== src/Discovery/Store.antt =====
-- utils/service_discovery/abstract_config_store.py: reading templates from the store, from the
-- annotations of a pod, or from the auto-configuration. The client of the store, json.loads and the
-- files of the auto-configuration are parameters.
use dd_agent.Prelude.{Option, none, some, List, [], ◌∷◌, ◌++◌, Bool, if◌then◌else◌}
use dd_agent.Prelude.Options.{◌>>=◌}
use dd_agent.Prelude.Dict.{Dict, get}
use dd_agent.Prelude.Text.{Text, Text-discrete, codes}
use dd_agent.Discovery.Image.{get_image_ident}

-- check_names, init_config_tpls and instance_tpls
pub record Config (V : Type 0) : Type 0 where
  pub check_names : List Text
  pub init_configs : List V
  pub instances : List V

pub data Failure : Type 0 where
  key_not_found key_error timeout bad_json other : Failure

pub data Read (A : Type 0) : Type 0 where
  got : A → Read A
  failed : Failure → Read A

infixl 5 ◌>>>=◌
abbrev pub ◌>>>=◌ : {A B : Type 0} → Read A → (A → Read B) → Read B
got a >>>= f = f a
failed e >>>= f = failed e

pub record Services (V : Type 0) : Type 0 where
  -- client_read of path.join(sd_template_dir, identifier, key).lstrip('/')
  pub client_read : Text → Text → Read Text
  -- json.loads of a list of names, or of configurations; none for JSONDecodeError
  pub load_names : Text → Option (List Text)
  pub load_configs : Text → Option (List V)
  pub auto_conf_images : Dict Text Text
  -- a JMX check, or one whose class is found
  pub is_check : Text → Bool
  -- init_config and instances of get_auto_conf
  pub auto_conf : Text → V × List V
  -- x or {}
  pub or_empty : V → V

pub data Source : Type 0 where
  auto_configuration template kubernetes : Source

-- What a lookup gives: no configuration, one with its source, or an IndexError.
pub data Lookup (V : Type 0) : Type 0 where
  missing index_error : Lookup V
  found : Source → Config V → Lookup V

abbrev loaded : {A : Type 0} → Option A → Read A
loaded none = failed bad_json
loaded (some a) = got a

-- `except KeyError: return None`
abbrev none_if_key_error : {A : Type 0} → Read A → Read (Option A)
none_if_key_error (got a) = got (some a)
none_if_key_error (failed key_error) = got none
none_if_key_error (failed e) = failed e

module _ {V : Type 0} (s : Services V) where
  abbrev read_all : Text → Read (Config V)
  read_all identifier = s.client_read identifier (codes "check_names") >>>= λ a.
      loaded (s.load_names a) >>>= λ names.
      s.client_read identifier (codes "init_configs") >>>= λ b.
      loaded (s.load_configs b) >>>= λ inits. s.client_read identifier (codes "instances") >>>= λ c.
      loaded (s.load_configs c) >>>= λ instances.
      got (record { check_names = names; init_configs = inits; instances = instances })

  -- _issue_read
  unfoldable pub issue_read : Text → Read (Option (Config V))
  issue_read identifier = none_if_key_error (read_all identifier)

  abbrev auto_instances : Text → V → List V → Lookup V
  auto_instances name init [] = index_error
  auto_instances name init (i ∷ is) =
      found auto_configuration (record {
        check_names = name ∷ [];
        init_configs = init ∷ [];
        instances = s.or_empty i ∷ [];
      })

  abbrev auto_check : Option Text → Lookup V
  auto_check none = missing
  auto_check (some name) =
      if s.is_check name
      then auto_instances name (s.auto_conf name).0 (s.auto_conf name).1
      else missing

  -- _get_auto_config
  unfoldable pub get_auto_config : Text → Lookup V
  get_auto_config image_name =
      auto_check (get Text-discrete s.auto_conf_images (get_image_ident image_name))

  -- a read that raises KeyNotFound, or finds nothing, is tried with the identifier of the image
  abbrev first_read : Text → Read (Option (Config V)) → Read (Option (Config V))
  first_read identifier (failed key_not_found) = issue_read (get_image_ident identifier)
  first_read identifier r = r

  abbrev second_read : Text → Read (Option (Config V)) → Read (Option (Config V))
  second_read identifier (got none) = issue_read (get_image_ident identifier)
  second_read identifier r = r

  abbrev or_auto : Text → Read (Option (Config V)) → Lookup V
  or_auto identifier (got (some c)) = found template c
  or_auto identifier (got none) = get_auto_config identifier
  or_auto identifier (failed bad_json) = missing
  or_auto identifier (failed other) = missing
  or_auto identifier (failed e) = get_auto_config identifier

  unfoldable pub read_config_from_store : Text → Lookup V
  unfolding issue_read get_auto_config
  read_config_from_store identifier =
      or_auto identifier (second_read identifier (first_read identifier (issue_read identifier)))

  -- kube_annotations and kube_container_name
  abbrev pub Kube : Type 0
  Kube = Dict Text Text × Text

  abbrev annotation : Kube → Text → Option Text
  annotation (annotations, container) key =
      get Text-discrete annotations
        (codes "service-discovery.datadoghq.com/" ++ (container ++ (b'.' ∷ key)))

  -- _get_kube_config; none for a KeyError or a JSONDecodeError
  unfoldable pub get_kube_config : Kube → Option (Config V)
  get_kube_config kube = do
    a ← annotation kube (codes "check_names")
    names ← s.load_names a
    b ← annotation kube (codes "init_configs")
    inits ← s.load_configs b
    c ← annotation kube (codes "instances")
    instances ← s.load_configs c
    some (record { check_names = names; init_configs = inits; instances = instances })

  -- the annotations, unless there are none
  abbrev pub kube_of : Option Kube → Option (Config V)
  kube_of none = none
  kube_of (some ([], container)) = none
  kube_of (some (a ∷ annotations, container)) = get_kube_config (a ∷ annotations, container)
