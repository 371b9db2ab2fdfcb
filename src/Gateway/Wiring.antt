-- ===== src/Gateway/Wiring.antt =====
-- gateway/main.py: how `create_app` puts a gateway together, with the composites of
-- gateway/composites.py. The values that are read from the environment are arguments.
pub mod Laws
use agent_features.Common.{
  Option, none, some, List, [], ◌∷◌, ◌++◌, Bool, true, false, if◌then◌else◌,
}
use agent_features.Common.Text.{Text, codes, ◌==◌}
use agent_features.Common.Dict.{Dict, put}
use agent_features.Common.Json.{Json, str, obj, Fields, end, field}
use agent_features.Common.Floats.{Floats}
use agent_features.Models.{Feature}
use agent_features.Validation.{SchemaError}
use agent_features.Catalog.{Catalog}
use agent_features.Catalog.Memory.{InMemoryCatalog, list, get, list_capabilities}
use agent_features.Ranking.Metrics.{empty_store}
use agent_features.Ranking.Policy.{RankingPolicy, baseline, metrics, default_policy}
use agent_features.Composer.{Step, Composite, model_post_init}
use agent_features.Invoker.{Invoke}
use agent_features.Catalog.Cluster
use agent_features.Catalog.Cluster.{Api, KubernetesCatalog}
use agent_features.Invoker.Grpc.{Endpoint, at, unreachable, failed}
use agent_features.Samples.{typed, object_schema, requiring}
use agent_features.Gateway.{App, State}

-- a step without pins
abbrev pub plain_step : (name capability : Text) → Dict Text → Step
plain_step name capability inputs = record {
  name = name;
  capability = capability;
  vendor = none;
  version = none;
  inputs = inputs;
}

-- `build_dev_composites`
unfoldable pub build_dev_composites : List Composite
unfolding model_post_init
build_dev_composites =
    model_post_init (record {
      name = codes "greet-report";
      capability = [];
      description = codes "Greet someone, then report stats on the greeting.";
      input_schema =
          object_schema (field (codes "name") (typed (codes "string")) end)
            (requiring (codes "name"));
      steps =
          plain_step (codes "greeting") (codes "greet") ((codes "name", codes "input.name") ∷ [])
          ∷ plain_step (codes "stats") (codes "text_stats")
              ((codes "text", codes "greeting.greeting") ∷ [])
          ∷ [];
      output =
          (codes "greeting", codes "greeting.greeting")
          ∷ (codes "characters", codes "stats.characters")
          ∷ (codes "words", codes "stats.words")
          ∷ [];
    })
    ∷ []

-- {c.name: c for c in …}
abbrev pub composites_of : Dict Composite → List Composite → Dict Composite
composites_of d [] = d
composites_of d (c ∷ cs) = composites_of (put c.name c d) cs

abbrev is_value : Option Text → Text → Bool
is_value none t = false
is_value (some s) t = s == t

abbrev or_given : {A : Type 0} → A → Option A → A
or_given a none = a
or_given a (some b) = b

abbrev pub endpoint_given : Text → Option Text → Endpoint
endpoint_given name none = unreachable (codes "no endpoint for feature '" ++ name ++ codes "'")
endpoint_given name (some []) = unreachable (codes "no endpoint for feature '" ++ name ++ codes "'")
endpoint_given name (some (c ∷ s)) = at (c ∷ s)

-- with what the catalogue returns, or none where it raises
abbrev pub endpoint_found : Text → Option (Option Feature) → Endpoint
endpoint_found name none = failed
endpoint_found name (some none) = endpoint_given name none
endpoint_found name (some (some f)) = endpoint_given name f.endpoint

module _ {W : Type 0} where
  -- `_resolve`, on the catalogue of the cluster
  unfoldable pub resolve_endpoint :
      (Text → Option Json) → Api W → KubernetesCatalog → Text → W → Endpoint
  unfolding Cluster.get
  resolve_endpoint loads api k8s_catalog name w =
      endpoint_found name (Cluster.get loads api k8s_catalog name w)

  -- an InMemoryCatalog as a Catalog
  abbrev pub as_catalog : InMemoryCatalog → Catalog W
  as_catalog c = record {
    list = λ query tags w. list c query tags;
    get = λ name w. get c name;
    list_capabilities = λ w. list_capabilities c;
  }

-- by AGENT_FEATURES_RANKING
unfoldable pub policy_of : (fl : Floats) → Option Text → RankingPolicy fl
policy_of fl ranking =
    if is_value ranking (codes "baseline") then baseline else metrics (default_policy fl)

module _ (fl : Floats) {W : Type 0} where
  open fl use {Float}

  -- The catalogue and the invoker, by AGENT_FEATURES_MODE where neither is given; those of the
  -- cluster and of the development gateway are arguments.
  unfoldable pub wired :
      Option (Catalog W)
      → Option (Invoke Float W)
      → (mode : Option Text) → (cluster dev : Catalog W × Invoke Float W)
      → Catalog W × Invoke Float W
  wired none none mode cluster dev = if is_value mode (codes "cluster") then cluster else dev
  wired none (some invoker) mode cluster dev = (dev.0, invoker)
  wired (some catalog) invoker mode cluster dev = (catalog, or_given dev.1 invoker)

  unfoldable pub create_app :
      (Json → Fields → List SchemaError)
      → Option (Catalog W)
      → Option (Invoke Float W)
      → (mode ranking : Option Text) → (cluster dev : Catalog W × Invoke Float W) → App fl W
  unfolding policy_of wired
  create_app iter_errors catalog invoker mode ranking cluster dev =
      let (catalog', invoker') = wired catalog invoker mode cluster dev in
      record {
        catalog = catalog';
        invoker = invoker';
        policy = policy_of fl ranking;
        iter_errors = iter_errors;
      }

  -- the state that `create_app` begins with
  unfoldable pub first_state : W → State Float W
  unfolding build_dev_composites
  first_state w = record {
    store = empty_store fl;
    composites = composites_of [] build_dev_composites;
    world = w;
  }
