-- ===== src/Gateway/Chat/Laws.antt =====
-- The chat console against the route that invokes a capability.
use agent_features.Common.{◌≡◌, refl, List, [], ◌∷◌, none}
use agent_features.Common.Text.{Text}
use agent_features.Common.Json.{obj, Fields}
use agent_features.Common.Floats.{Floats}
use agent_features.Models.{Feature, InvokeResponse, default_context}
use agent_features.Invoker.{
  Invocation, returned, feature_input_error, feature_unavailable, other_error,
}
use agent_features.Gateway.{
  App, State, Response, ok, http_error, server_error, ranked, input_errors,
}
use agent_features.Gateway.Features.{settle, invoke_checked, invoke, invoke_best, invoke_capability}
use agent_features.Gateway.Compose.Laws.{request}
use agent_features.Gateway.Chat.{
  ChatEvent, status, error, result, broken, chat_end, chat_checked, chat_invoke, chat_best,
  chat_capability,
}

module _ {fl : Floats} {W : Type 0} (app : App fl W) where
  open fl use {Float}

  -- A stream shows a response: lines of status, and last the result, an error, or the break.
  abbrev pub Shows : Response (InvokeResponse Float) → List (ChatEvent Float) → Type 0
  Shows r [] = ⊥
  Shows r (status t ∷ events) = Shows r events
  Shows (ok a) (result feature vendor output latency ∷ events) =
      (events ≡ [])
      × (feature ≡ a.feature)
      × (vendor ≡ a.vendor)
      × (output ≡ a.output)
      × (latency ≡ a.latency_ms)
  Shows (http_error st d) (result feature vendor output latency ∷ events) = ⊥
  Shows server_error (result feature vendor output latency ∷ events) = ⊥
  Shows (ok a) (error m ∷ events) = ⊥
  Shows (http_error st d) (error m ∷ events) = events ≡ []
  Shows server_error (error m ∷ events) = ⊥
  Shows (ok a) (broken ∷ events) = ⊥
  Shows (http_error st d) (broken ∷ events) = ⊥
  Shows server_error (broken ∷ events) = events ≡ []

  abbrev pub Streams :
      Response (InvokeResponse Float) × State Float W
      → List (ChatEvent Float) × State Float W
      → Type 0
  Streams p q = (p.1 ≡ q.1) × Shows p.0 q.0

  settle-Streams :
      (f : Feature) (r : Invocation Float) (s : State Float W)
      → Streams (settle app f r s) (chat_end app f r s)
  settle-Streams f (returned r) s = (refl, (refl, refl, refl, refl, refl))
  settle-Streams f (feature_input_error m) s = (refl, refl)
  settle-Streams f (feature_unavailable m) s = (refl, refl)
  settle-Streams f other_error s = (refl, refl)

  checked-Streams :
      (es : List Text) (f : Feature) (input : Fields) (s : State Float W)
      → Streams (invoke_checked app es f (request input) s) (chat_checked app es f (obj input) s)
  checked-Streams (e ∷ es) f input s = (refl, refl)
  checked-Streams [] f input s =
      let (r, w') = app.invoker f.manifest.name (obj input) default_context s.world in
      settle-Streams f r (record s { world = w' })

  best-Streams :
      (fs : List Feature) (capability : Text) (input : Fields) (s : State Float W)
      → Streams
          (invoke_best app fs capability (request input) none none s)
          (chat_best app fs capability (obj input) s)
  unfolding invoke chat_invoke
  best-Streams [] capability input s = (refl, refl)
  best-Streams (f ∷ fs) capability input s =
      checked-Streams (input_errors app f (obj input)) f input s

  -- The chat command `cap:<capability> {json}` with an object does what the route for the
  -- capability does with that input, no pins and the default context: it leaves the same metrics,
  -- composites and world. Its stream is lines of status and then one last event, which shows the
  -- route's feature, vendor, output and latency if the route returns, is an error if the route
  -- fails with a status, and breaks off if the route lets an exception through.
  pub chat_capability-Streams :
      (capability : Text) (input : Fields) (s : State Float W)
      → Streams
          (invoke_capability app capability (request input) none none s)
          (chat_capability app capability (obj input) s)
  unfolding invoke_capability chat_capability
  chat_capability-Streams capability input s =
      best-Streams (ranked app capability none none s) capability input s
