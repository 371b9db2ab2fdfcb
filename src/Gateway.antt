-- ===== src/Gateway.antt =====
-- gateway/main.py: what the routes share. `create_app` closes over the catalogue, the invoker, the
-- ranking policy and the schema validator, which are an `App` here; what the routes change is a
-- `State`. A route is one step from a state to the next; Concurrent has the waits within it.
pub mod Features
pub mod Compose
pub mod Compile
pub mod Provenance
pub mod Chat
pub mod Agents
pub mod Serve
pub mod Wiring
pub mod Waits
pub mod Concurrent
use agent_features.Common.{
  ℕ, Option, none, some, List, [], ◌∷◌, ◌++◌, Bool, true, false, keep, if◌then◌else◌,
}
use agent_features.Common.Text.{Text, codes, ◌==◌, truthy?}
use agent_features.Common.Dict.{Dict}
use agent_features.Common.Json.{Json, Fields}
use agent_features.Common.Floats.{Floats}
use agent_features.Models.{Feature}
use agent_features.Validation.{SchemaError, collect_errors}
use agent_features.Catalog.{Catalog}
use agent_features.Catalog.Rank.{feature_id, honour}
use agent_features.Catalog.Version.{match_version}
use agent_features.Ranking.Metrics.{MetricsStore, record_outcome}
use agent_features.Ranking.Policy.{RankingPolicy, rank}
use agent_features.Composer.{Composite}
use agent_features.Invoker.{Invoke}

-- the detail of an HTTPException
pub data Detail : Type 0 where
  text : Text → Detail
  texts : List Text → Detail

-- what a route returns, an HTTPException that it raises, or any other exception
pub data Response (A : Type 0) : Type 0 where
  ok : A → Response A
  http_error : (status : ℕ) → Detail → Response A
  server_error : Response A

-- the metrics, the registry of composites, and what is behind the invoker
pub record State (Float : Type 0) (W : Type 0) : Type 0 where
  pub store : MetricsStore Float
  pub composites : Dict Composite
  pub world : W

module _ (fl : Floats) (W : Type 0) where
  open fl use {Float}

  pub record App : Type 0 where
    pub catalog : Catalog W
    pub invoker : Invoke Float W
    pub policy : RankingPolicy fl
    pub iter_errors : Json → Fields → List SchemaError

module _ {fl : Floats} {W : Type 0} (app : App fl W) where
  open fl use {Float}

  -- `_providers`
  unfoldable pub providers : Text → (vendor version : Option Text) → W → List Feature
  providers capability vendor version w =
      let out = keep (λ f. f.manifest.capability == capability) (app.catalog.list none none w) in
      let out' = honour vendor (λ v f. f.manifest.vendor == v) out in
      honour version (λ s f. match_version f.manifest.version s) out'

  -- policy.rank(_providers(…), store)
  unfoldable pub ranked : Text → (vendor version : Option Text) → State Float W → List Feature
  unfolding providers
  ranked capability vendor version s =
      rank fl app.policy (providers capability vendor version s.world) s.store

  -- collect_errors(payload, feature.manifest.input_schema)
  abbrev pub input_errors : Feature → Json → List Text
  input_errors f payload = collect_errors app.iter_errors payload f.manifest.input_schema

-- store.record(feature_id(feature), …)
abbrev pub count :
    (fl : Floats) {W : Type 0} → Feature → Bool → fl.Float → State fl.Float W → State fl.Float W
count fl f success latency s = record s {
  store = record_outcome fl (feature_id f) success latency s.store;
}
