-- ===== src/Models.antt =====
-- gateway/models.py: the records that the gateway passes around. `Protocol` of the source is
-- `FeatureProtocol` here, as gateway/catalog.py imports it.
use agent_features.Common.{ℕ, ℤ, pos, List, [], Option, none, if◌then◌else◌}
use agent_features.Common.Text.{Text, truthy}
use agent_features.Common.Dict.{Dict}
use agent_features.Common.Json.{Fields}

pub data TrustTier : Type 0 where
  official verified community : TrustTier

pub data Visibility : Type 0 where
  public internal private : Visibility

pub data FeatureProtocol : Type 0 where
  grpc http : FeatureProtocol

pub data Phase : Type 0 where
  pending provisioning ready failed : Phase

pub record Manifest : Type 0 where
  pub name : Text
  pub version : Text
  pub description : Text
  pub tags : List Text
  pub input_schema : Fields
  pub output_schema : Fields
  pub visibility : Visibility
  pub protocol : FeatureProtocol
  pub vendor : Text
  pub capability : Text
  pub trust : TrustTier

-- the validator that runs when a Manifest has been built
unfoldable pub default_capability : Manifest → Manifest
default_capability m = if truthy m.capability then m else record m { capability = m.name }

pub record Feature : Type 0 where
  pub manifest : Manifest
  pub phase : Phase
  pub endpoint : Option Text

pub record RequestContext : Type 0 where
  pub trace_id : Option Text
  pub tenant : Option Text
  pub timeout_ms : ℤ
  pub metadata : Dict Text

-- RequestContext()
abbrev pub default_context : RequestContext
default_context = record { trace_id = none; tenant = none; timeout_ms = pos 30_000; metadata = [] }

pub record InvokeRequest : Type 0 where
  pub input : Fields
  pub context : RequestContext

-- The type of floats is a parameter: the latencies are numbers of the runtime.
pub record InvokeResponse (Float : Type 0) : Type 0 where
  pub feature : Text
  pub version : Text
  pub output : Fields
  pub latency_ms : Float
  pub vendor : Text

pub record CapabilitySummary : Type 0 where
  pub capability : Text
  pub description : Text
  pub provider_count : ℕ
  pub vendors : List Text
  pub preferred : Option Text

pub record ProviderScore (Float : Type 0) : Type 0 where
  pub feature_id : Text
  pub vendor : Text
  pub version : Text
  pub score : Float
  pub invocations : ℕ
  pub success_rate : Option Float
  pub avg_latency_ms : Option Float
