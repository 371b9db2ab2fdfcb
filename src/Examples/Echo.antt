-- ===== src/Examples/Echo.antt =====
-- examples/features/echo/server.py. protobuf is a library: the `Struct` messages, the text of a
-- field of one (`fields[k].string_value`) and `update` of a new one are parameters, and so is the
-- clock. The start of the server is left out.
pub mod Laws
use agent_features.Common.Text.{Text, codes}
use agent_features.Common.Json.{str, Fields, end, field}
use agent_features.Common.Floats.{Floats}

pub record EchoResponse (Struct Float : Type 0) : Type 0 where
  pub output : Struct
  pub latency_ms : Float

module _ (fl : Floats) {W Struct : Type 0} (perf_counter : W → fl.Float × W)
    (string_value : Text → Struct → Text) (updated : Fields → Struct) where
  open fl use {Float, sub, mul, decimal}

  -- `EchoService.Invoke`, with the input of the request
  unfoldable pub invoke : Struct → W → EchoResponse Struct Float × W
  invoke input w =
      let (start, w₁) = perf_counter w in
      let message = string_value (codes "message") input in
      let output = updated (field (codes "echo") (str message) end) in
      let (now, w₂) = perf_counter w₁ in
      (record { output = output; latency_ms = mul (sub now start) (decimal 1000 0) }, w₂)
