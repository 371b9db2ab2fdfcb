-- ===== src/Invoker/Grpc/Laws.antt =====
-- The channels of a gRPC invoker.
use agent_features.Common.{◌≡◌, ◌≢◌, some}
use agent_features.Common.Text.{Text}
use agent_features.Common.Dict.{Dict, IsDict, get}

module _ {W : Type 0} {Channel : Type 0} (insecure_channel : Text → W → Channel × W) where
  -- how the channels stand behind a lookup of an endpoint
  record IsKept (endpoint : Text) (channels : Dict Channel) (p : Channel × (Dict Channel × W))
      : Type 0 where
    found : get endpoint p.1.0 ≡ some p.0
    others : (j : Text) → endpoint ≢ j → get j p.1.0 ≡ get j channels
    dict : IsDict channels → IsDict p.1.0
