-- ===== src/Gateway/Compose/Laws.antt =====
-- A composite's step against the route that invokes a capability.
use agent_features.Common.{◌≡◌, refl, Option, none, some, List, [], ◌∷◌, Bool, true, false}
use agent_features.Common.Text.{Text}
use agent_features.Common.Json.{obj, Fields}
use agent_features.Common.Floats.{Floats}
use agent_features.Models.{Feature, InvokeRequest, InvokeResponse, default_context}
use agent_features.Invoker.{
  Invocation, returned, feature_input_error, feature_unavailable, other_error,
}
use agent_features.Gateway.{
  App, State, Response, ok, http_error, server_error, ranked, input_errors,
}
use agent_features.Gateway.Features.{settle, invoke_checked, invoke, invoke_best, invoke_capability}
use agent_features.Gateway.Compose.{Running, step_answer, step_checked, step_best, run_capability}

-- the body {input: …}, with the default context
abbrev pub request : Fields → InvokeRequest
request input = record { input = input; context = default_context }

module _ {fl : Floats} {W : Type 0} (app : App fl W) where
  open fl use {Float}

  -- A route's response and a step's answer: the outputs are the same, or both have failed, or an
  -- exception went through both.
  abbrev pub Answers :
      Response (InvokeResponse Float) → (Option Fields × Option Text) → Bool → Type 0
  Answers (ok a) answer raised = (answer ≡ (some a.output, none)) × (raised ≡ false)
  Answers (http_error status d) answer raised =
      (answer.0 ≡ none) × ((m : Text) × (answer.1 ≡ some m)) × (raised ≡ false)
  Answers server_error answer raised = (answer.0 ≡ none) × (raised ≡ true)

  -- both have the same effect, and the responses correspond
  abbrev pub Agree :
      Response (InvokeResponse Float) × State Float W
      → (Option Fields × Option Text) × Running Float W
      → Type 0
  Agree p q = (p.1 ≡ q.1.0) × Answers p.0 q.0 q.1.1

  settle-Agree :
      (f : Feature) (r : Invocation Float) (s : State Float W)
      → Agree (settle app f r s) (step_answer app f r s false)
  settle-Agree f (returned r) s = (refl, (refl, refl))
  settle-Agree f (feature_input_error m) s = (refl, (refl, (_, refl), refl))
  settle-Agree f (feature_unavailable m) s = (refl, (refl, (_, refl), refl))
  settle-Agree f other_error s = (refl, (refl, refl))

  checked-Agree :
      (es : List Text) (f : Feature) (input : Fields) (s : State Float W)
      → Agree (invoke_checked app es f (request input) s) (step_checked app es f input (s, false))
  checked-Agree (e ∷ es) f input s = (refl, (refl, (_, refl), refl))
  checked-Agree [] f input s =
      let (result, w') = app.invoker f.manifest.name (obj input) default_context s.world in
      settle-Agree f result (record s { world = w' })

  best-Agree :
      (fs : List Feature) (capability : Text) (input : Fields) (vendor version : Option Text)
      (s : State Float W)
      → Agree
          (invoke_best app fs capability (request input) vendor version s)
          (step_best app fs capability input (s, false))
  unfolding invoke
  best-Agree [] capability input vendor version s = (refl, (refl, (_, refl), refl))
  best-Agree (f ∷ fs) capability input vendor version s =
      checked-Agree (input_errors app f (obj input)) f input s

  -- A step of a composite does what the route for its capability does with the same input, the same
  -- pins and the default context: it leaves the same metrics, composites and world, it returns the
  -- same output when the route returns one, it fails with a message when the route fails with
  -- status 404, 422 or 503, and it raises what the route lets through.
  pub run_capability-Agree :
      (capability : Text) (input : Fields) (vendor version : Option Text) (s : State Float W)
      → Agree
          (invoke_capability app capability (request input) vendor version s)
          (run_capability app capability input vendor version (s, false))
  unfolding invoke_capability run_capability
  run_capability-Agree capability input vendor version s =
      best-Agree (ranked app capability vendor version s) capability input vendor version s
