-- ===== src/Tests/Discovery.antt =====
-- Examples of the theorems on the service discovery, and runs of it.
use dd_agent.Prelude.{ℕ, ◌≡◌, refl, none, some, List, [], ◌∷◌, map, true, false, All}
use mathlib.Core.Logic.{ite}
use dd_agent.Prelude.Dict.{get, put}
use dd_agent.Prelude.Text.{Text, Text-discrete, codes}
use dd_agent.Packet.Split.{has, split}
use dd_agent.Collector.Payload.{among}
use dd_agent.Discovery.Image.{last, get_image_ident, get_image_ident-names}
use dd_agent.Discovery.Store.{
  Services, Config, Read, got, failed, key_not_found, auto_configuration, template, found,
  read_config_from_store,
}
use dd_agent.Discovery.Refresh.{Cache, Template, templates, get_check_tpls, get_checks_to_refresh}
use dd_agent.Discovery.Caching.{get_check_tpls-refreshes}

get_image_ident-names_example :
    (get_image_ident (codes "5000/docker/redis:3.2") ≡ codes "redis")
    × (get_image_ident (codes "hub:5000/docker/redis:3.2") ≡ codes "redis")
    × (get_image_ident (codes "hub:5000/docker/redis") ≡ last (split b'/' (codes "hub")))
unfolding has
get_image_ident-names_example =
    get_image_ident-names (codes "hub") (codes "5000/docker") (codes "redis") (codes "3.2") refl
      refl refl refl refl

-- The store has two templates for redis, and the auto-configuration one for any other image.
abbrev read_store : Text → Text → Read Text
read_store identifier key =
    ite (Text-discrete identifier (codes "redis")) (got key) (failed key_not_found)

abbrev services : Services ℕ
services = record {
  client_read = read_store;
  load_names = λ t. some (codes "redisdb" ∷ codes "process" ∷ []);
  load_configs = λ t. some (1 ∷ 2 ∷ []);
  auto_conf_images = (codes "nginx", codes "nginx") ∷ [];
  is_check = λ t. true;
  auto_conf = λ t. (3, 4 ∷ []);
  or_empty = λ v. v;
}

abbrev redis_config : Config ℕ
redis_config = record {
  check_names = codes "redisdb" ∷ codes "process" ∷ [];
  init_configs = 1 ∷ 2 ∷ [];
  instances = 1 ∷ 2 ∷ [];
}

redis_test :
    read_config_from_store services (codes "docker/redis:3.2") ≡ found template redis_config
unfolding read_config_from_store get_image_ident Text-discrete
redis_test = refl

nginx_test :
    read_config_from_store services (codes "nginx")
    ≡ found auto_configuration
        (record { check_names = codes "nginx" ∷ []; init_configs = 3 ∷ []; instances = 4 ∷ [] })
unfolding read_config_from_store get_image_ident get Text-discrete
nginx_test = refl

get_check_tpls-refreshes_example :
    (ts : List (Template ℕ)) × (cache' : Cache) × (names : List Text) × (get_check_tpls services
        false
        (codes "docker/redis:3.2")
        none
        []
      ≡ templates ts cache')
    × (map (λ (t : Template ℕ). t.check_name) ts ≡ codes "redisdb" ∷ codes "process" ∷ [])
    × (map (λ (t : Template ℕ). t.init_config) ts ≡ 1 ∷ 2 ∷ [])
    × (map (λ (t : Template ℕ). t.instance_config) ts ≡ 1 ∷ 2 ∷ [])
    × (get_checks_to_refresh services (codes "docker/redis:3.2") none cache' ≡ (names, cache'))
    × All (λ m. among m names ≡ true) (codes "redisdb" ∷ codes "process" ∷ [])
    × All (λ m. among m (codes "redisdb" ∷ codes "process" ∷ []) ≡ true) names
unfolding get
get_check_tpls-refreshes_example =
    get_check_tpls-refreshes services (codes "docker/redis:3.2") none [] template redis_config
      (codes "redisdb") (codes "process" ∷ []) redis_test refl refl refl refl

abbrev redis_templates : List (Template ℕ)
redis_templates =
    record { source = template; check_name = codes "redisdb"; init_config = 1; instance_config = 1 }
    ∷ record {
      source = template;
      check_name = codes "process";
      init_config = 2;
      instance_config = 2;
    }
    ∷ []

-- The set that reading the cache made is not replaced.
forgotten_test :
    get_check_tpls services false
      (codes "redis")
      none
      (get_checks_to_refresh services (codes "redis") none []).1
    ≡ templates redis_templates ((codes "redis", []) ∷ [])
unfolding get_check_tpls get_checks_to_refresh read_config_from_store get_image_ident get put
    Text-discrete
forgotten_test = refl
