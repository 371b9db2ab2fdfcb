-- ===== src/Invoker.antt =====
-- gateway/invoker.py: what an invocation can end in, and the two invokers. `W` is the state of the
-- world that a handler or a remote call may read and change.
pub mod Local
pub mod Grpc
use agent_features.Common.Text.{Text}
use agent_features.Common.Json.{Json, Fields}
use agent_features.Models.{RequestContext}

pub record InvokeResult (Float : Type 0) : Type 0 where
  pub output : Fields
  pub latency_ms : Float

-- An InvokeResult, or the exception that is raised: FeatureInputError and FeatureUnavailable with
-- their texts, or any other.
pub data Invocation (Float : Type 0) : Type 0 where
  returned : InvokeResult Float → Invocation Float
  feature_input_error : Text → Invocation Float
  feature_unavailable : Text → Invocation Float
  other_error : Invocation Float

-- `Invoker.invoke`
abbrev pub Invoke : Type 0 → Type 0 → Type 0
Invoke Float W = Text → Json → RequestContext → W → Invocation Float × W
