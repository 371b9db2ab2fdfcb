-- ===== src/Invoker/Grpc.antt =====
-- `GrpcInvoker` of gateway/invoker.py. gRPC and protobuf are libraries: opening a channel, a call
-- on one and the conversions of `Struct` are parameters.
pub mod Laws
use agent_features.Common.{
  ℤ, pos, negsuc, suc, ltb, Option, none, some, List, [], ◌∷◌, ◌++◌, map, Bool, true, false,
  if◌then◌else◌,
}
use agent_features.Common.Text.{Text, codes}
use agent_features.Common.Dict.{Dict, get, put}
use agent_features.Common.Json.{Json, Fields}
use agent_features.Common.Floats.{Floats}
use agent_features.Models.{RequestContext}
use agent_features.Invoker.{
  InvokeResult, Invocation, returned, feature_input_error, feature_unavailable, other_error,
}

-- the request message: the texts are empty where the context has None
pub record GrpcRequest : Type 0 where
  pub feature : Text
  pub input : Json
  pub trace_id : Text
  pub tenant : Text
  pub timeout_ms : ℤ
  pub metadata : Dict Text

abbrev pub or_blank : Option Text → Text
or_blank none = []
or_blank (some s) = s

unfoldable pub grpc_request : Text → Json → RequestContext → GrpcRequest
grpc_request feature payload context = record {
  feature = feature;
  input = payload;
  trace_id = or_blank context.trace_id;
  tenant = or_blank context.tenant;
  timeout_ms = context.timeout_ms;
  metadata = context.metadata;
}

-- protobuf refuses another value for a field of type int32
abbrev pub in_int32 : ℤ → Bool
in_int32 (pos n) = ltb n 2_147_483_648
in_int32 (negsuc n) = ltb n 2_147_483_648

-- what the endpoint resolver returns or raises: a FeatureUnavailable or another exception
pub data Endpoint : Type 0 where
  at : Text → Endpoint
  unreachable : Text → Endpoint
  failed : Endpoint

-- A status code and its details. Only INVALID_ARGUMENT is told apart; the name of another is what
-- the message shows.
pub data StatusCode : Type 0 where
  invalid_argument : StatusCode
  other_status : (name : Text) → StatusCode

-- a response, an AioRpcError, or another exception
pub data Answer : Type 0 where
  response : Fields → Answer
  rpc_error : StatusCode → (details : Text) → Answer
  raised : Answer

-- details or "invalid input"
abbrev pub or_invalid_input : Text → Text
or_invalid_input [] = codes "invalid input"
or_invalid_input (c ∷ s) = c ∷ s

-- what an AioRpcError is raised again as
abbrev pub translate : {Float : Type 0} → Text → StatusCode → Text → Invocation Float
translate feature invalid_argument details = feature_input_error (or_invalid_input details)
translate feature (other_status name) details =
    feature_unavailable (codes "gRPC call to '" ++ feature ++ codes "' failed: " ++ name)

module _ {W : Type 0} {Channel : Type 0} (insecure_channel : Text → W → Channel × W) where
  -- the cached channel of an endpoint, or a new one that is cached
  abbrev pub cached_or_new : Option Channel → Text → Dict Channel → W → Channel × (Dict Channel × W)
  cached_or_new (some channel) endpoint channels w = (channel, (channels, w))
  cached_or_new none endpoint channels w =
      let (channel, w') = insecure_channel endpoint w in
      (channel, (put endpoint channel channels, w'))

  -- the channel of an endpoint, in an invoker whose channels by endpoint are given
  unfoldable pub channel_for : Text → Dict Channel → W → Channel × (Dict Channel × W)
  channel_for endpoint channels w = cached_or_new (get endpoint channels) endpoint channels w

module _ (fl : Floats) {W : Type 0} {Channel : Type 0} (perf_counter : W → fl.Float × W)
    (insecure_channel : Text → W → Channel × W)
    (call : Channel → GrpcRequest → (timeout : fl.Float) → W → Answer × W)
    (close_channel : Channel → W → W) where
  open fl use {Float, sub, mul, neg, ratio, decimal, round}

  -- timeout_ms / 1000
  abbrev pub seconds : ℤ → Float
  seconds (pos n) = ratio n 1000
  seconds (negsuc n) = neg (ratio (suc n) 1000)

  -- the channels by endpoint, which are the state of an invoker
  abbrev pub Channels : Type 0
  Channels = Dict Channel

  abbrev pub after_call : Text → Float → Answer → W → Invocation Float × W
  after_call feature start (response out) w =
      let (now, w') = perf_counter w in
      (
        returned
            (record { output = out; latency_ms = round (mul (sub now start) (decimal 1000 0)) 3 }),
        w',
      )
  after_call feature start (rpc_error status details) w = (translate feature status details, w)
  after_call feature start raised w = (other_error, w)

  -- with the channel, by whether the request can be made
  abbrev pub send :
      (valid : Bool) → Channel → Text → Json → RequestContext → W → Invocation Float × W
  send false channel feature payload context w = (other_error, w)
  send true channel feature payload context w =
      let (start, w₁) = perf_counter w in
      let (answer, w₂) =
        call channel (grpc_request feature payload context) (seconds context.timeout_ms) w₁ in
      after_call feature start answer w₂

  abbrev pub invoke_at :
      Endpoint → Text → Json → RequestContext → Channels → W → Invocation Float × (Channels × W)
  invoke_at (unreachable m) feature payload context channels w =
      (feature_unavailable m, (channels, w))
  invoke_at failed feature payload context channels w = (other_error, (channels, w))
  invoke_at (at endpoint) feature payload context channels w =
      let (channel, (channels', w₁)) = channel_for insecure_channel endpoint channels w in
      let (result, w₂) = send (in_int32 context.timeout_ms) channel feature payload context w₁ in
      (result, (channels', w₂))

  unfoldable pub invoke :
      (resolve : Text → W → Endpoint)
      → Text
      → Json
      → RequestContext
      → Channels
      → W
      → Invocation Float × (Channels × W)
  unfolding channel_for
  invoke resolve feature payload context channels w =
      invoke_at (resolve feature w) feature payload context channels w

  -- the loop over the channels
  abbrev pub close_all : Channels → W → W
  close_all [] w = w
  close_all ((endpoint, channel) ∷ channels) w = close_all channels (close_channel channel w)

  unfoldable pub close : Channels → W → Channels × W
  close channels w = ([], close_all channels w)
