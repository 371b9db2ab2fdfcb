-- ===== src/Examples/Echo/Laws.antt =====
-- The echo behind the gRPC invoker.
use agent_features.Common.{◌≡◌, refl, some, true}
use agent_features.Common.Text.{Text, codes}
use agent_features.Common.Json.{Json, str, obj, Fields, end, field, get_field}
use agent_features.Common.Dict.{Dict, get}
use agent_features.Common.Floats.{Floats}
use agent_features.Models.{RequestContext}
use agent_features.Invoker.{returned}
use agent_features.Invoker.Grpc
use agent_features.Invoker.Grpc.{Endpoint, at, Answer, response, GrpcRequest, channel_for, in_int32}
use agent_features.Examples.Echo.{invoke}

module _ (fl : Floats) {W Channel Struct : Type 0} (perf_counter : W → fl.Float × W)
    (insecure_channel : Text → W → Channel × W) (close_channel : Channel → W → W)
    (string_value : Text → Struct → Text) (updated : Fields → Struct) (struct_of : Json → Struct)
    (dict_of : Struct → Fields) where
  open fl use {Float}

  -- a call that reaches the echo, on any channel
  abbrev pub serve : Channel → GrpcRequest → (timeout : Float) → W → Answer × W
  serve channel request timeout w =
      let (r, w') = invoke fl perf_counter string_value updated (struct_of request.input) w in
      (response (dict_of r.output), w')

  module _
      (reads : (k : Text) (d : Fields) (s : Text)
        → get_field k d ≡ some (str s)
        → string_value k (struct_of (obj d)) ≡ s)
      (restores : (k s : Text)
        → dict_of (updated (field k (str s) end)) ≡ field k (str s) end) where
    -- The gRPC invoker, where the feature has an endpoint and the echo answers on its channel,
    -- returns the text of the input's field `message` under `echo`, if a `Struct` keeps the texts
    -- that are written to it and the timeout of the request is a 32-bit integer.
    pub invoke-echoes :
        (resolve : Text → W → Endpoint) (feature endpoint : Text) (d : Fields) (message : Text)
        (context : RequestContext) (channels : Dict Channel) (w : W)
        → resolve feature w ≡ at endpoint
        → get_field (codes "message") d ≡ some (str message)
        → in_int32 context.timeout_ms ≡ true
        → (latency_ms : Float) × ((Grpc.invoke fl perf_counter insecure_channel serve close_channel
              resolve feature
              (obj d)
              context
              channels
              w).0
            ≡ returned (record {
              output = field (codes "echo") (str message) end;
              latency_ms = latency_ms;
            }))
    unfolding Grpc.invoke invoke Grpc.grpc_request get
    invoke-echoes resolve feature endpoint d message context channels w e m t =
        rw (e, t, reads (codes "message") d message m, restores) (_, refl)
