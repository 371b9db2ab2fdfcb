-- ===== src/Gateway/Serve.antt =====
-- gateway/main.py: the requests that change the gateway's state, one after another.
pub mod Sound
pub mod Laws
use agent_features.Common.{Option, List, [], ◌∷◌}
use agent_features.Common.Text.{Text}
use agent_features.Common.Json.{Json}
use agent_features.Common.Floats.{Floats}
use agent_features.Models.{InvokeRequest}
use agent_features.Composer.{Composite}
use agent_features.Gateway.{App, State}
use agent_features.Gateway.Features.{invoke_feature, invoke_capability}
use agent_features.Gateway.Compose.{compose, invoke_composite}
use agent_features.Gateway.Compile.{compile_agent}
use agent_features.Gateway.Chat.{chat}

pub data Request : Type 0 where
  post_feature : (name : Text) → InvokeRequest → Request
  post_capability : (capability : Text) → InvokeRequest → (vendor version : Option Text) → Request
  post_compose : Composite → Request
  post_composite : (name : Text) → InvokeRequest → Request
  post_compile : Json → Request
  post_chat : (message : Text) → Request

module _ {fl : Floats} {W : Type 0} (app : App fl W) (loads : Text → Option Json)
    (format : Json → Text) where
  open fl use {Float}

  -- the state behind a request
  unfoldable pub serve : Request → State Float W → State Float W
  serve (post_feature name body) s = (invoke_feature app name body s).1
  serve (post_capability capability body vendor version) s =
      (invoke_capability app capability body vendor version s).1
  serve (post_compose spec) s = (compose spec s).1
  serve (post_composite name body) s = (invoke_composite app name body s).1
  serve (post_compile body) s = (compile_agent format body s).1
  serve (post_chat message) s = (chat app loads message s).1

  unfoldable pub serve_all : List Request → State Float W → State Float W
  unfolding serve
  serve_all [] s = s
  serve_all (q ∷ qs) s = serve_all qs (serve q s)
