-- ===== src/Gateway/Compose.antt =====
-- gateway/main.py: the routes of composites.
pub mod Laws
use agent_features.Common.{Option, none, some, List, [], ◌∷◌, ◌++◌, map, Bool, true, false}
use agent_features.Common.Text.{Text, codes, join}
use agent_features.Common.Dict.{get, put, values}
use agent_features.Common.Json.{obj, Fields}
use agent_features.Common.Floats.{Floats}
use agent_features.Models.{Feature, InvokeRequest, default_context}
use agent_features.Validation.{collect_errors}
use agent_features.Composer.{Step, Composite, CompositeResult, run}
use agent_features.Invoker.{
  Invocation, returned, feature_input_error, feature_unavailable, other_error,
}
use agent_features.Gateway.{
  App, State, Response, ok, http_error, server_error, text, texts, ranked, input_errors, count,
}

pub record CompositeSummary : Type 0 where
  pub name : Text
  pub capability : Text
  pub description : Text
  -- the name and the capability of each step
  pub steps : List (Text × Text)

-- `_composite_summary`
unfoldable pub composite_summary : Composite → CompositeSummary
composite_summary c = record {
  name = c.name;
  capability = c.capability;
  description = c.description;
  steps = map (λ (s : Step). (s.name, s.capability)) c.steps;
}

-- The state while a composite runs, and whether an exception that `_run_capability` does not catch
-- has been raised. A step that raises one returns no output here, so the composer makes no later
-- step, and the route then fails.
abbrev pub Running : Type 0 → Type 0 → Type 0
Running Float W = State Float W × Bool

abbrev pub known_composite : Text → Option Composite → Response Composite
known_composite name none = http_error 404 (text (codes "unknown composite: " ++ name))
known_composite name (some c) = ok c

module _ {Float W : Type 0} where
  unfoldable pub list_composites : State Float W → List CompositeSummary
  unfolding composite_summary
  list_composites s = map composite_summary (values s.composites)

  unfoldable pub get_composite : Text → State Float W → Response Composite
  get_composite name s = known_composite name (get name s.composites)

  -- Publishes a composite, under its name. `model_post_init` has run when the body was read.
  unfoldable pub compose : Composite → State Float W → Response CompositeSummary × State Float W
  unfolding composite_summary
  compose spec s =
      (ok (composite_summary spec), record s { composites = put spec.name spec s.composites })

  -- the end of a run
  abbrev pub responded :
      CompositeResult → Running Float W → Response CompositeResult × State Float W
  responded result (s, false) = (ok result, s)
  responded result (s, true) = (server_error, s)

module _ {fl : Floats} {W : Type 0} (app : App fl W) where
  open fl use {Float, decimal}

  -- what `_run_capability` does with the end of the invocation
  abbrev pub step_answer :
      Feature
      → Invocation Float
      → State Float W
      → Bool
      → (Option Fields × Option Text) × Running Float W
  step_answer f (returned result) s raised =
      ((some result.output, none), (count fl f true result.latency_ms s, raised))
  step_answer f (feature_input_error m) s raised =
      ((none, some (codes "the feature rejected the input")), (s, raised))
  step_answer f (feature_unavailable m) s raised = (
    (none, some (codes "the provider is currently unavailable")),
    (count fl f false (decimal 0 1) s, raised),
  )
  step_answer f other_error s raised = ((none, none), (s, true))

  abbrev pub step_checked :
      List Text
      → Feature
      → Fields
      → Running Float W
      → (Option Fields × Option Text) × Running Float W
  step_checked (e ∷ es) f input r =
      ((none, some (codes "invalid input: " ++ join (codes "; ") (e ∷ es))), r)
  step_checked [] f input (s, raised) =
      let (result, w') = app.invoker f.manifest.name (obj input) default_context s.world in
      step_answer f result (record s { world = w' }) raised

  -- the ranked providers, invoked at the head
  abbrev pub step_best :
      List Feature
      → Text
      → Fields
      → Running Float W
      → (Option Fields × Option Text) × Running Float W
  step_best [] capability input r =
      ((none, some (codes "no provider for capability '" ++ capability ++ codes "'")), r)
  step_best (f ∷ fs) capability input r = step_checked (input_errors app f (obj input)) f input r

  -- `_run_capability`
  unfoldable pub run_capability :
      Text
      → Fields
      → (vendor version : Option Text) → Running Float W
      → (Option Fields × Option Text) × Running Float W
  unfolding ranked
  run_capability capability input vendor version r =
      step_best (ranked app capability vendor version r.0) capability input r

  abbrev pub run_checked :
      List Text → Composite → Fields → State Float W → Response CompositeResult × State Float W
  run_checked (e ∷ es) c input s = (http_error 422 (texts (e ∷ es)), s)
  run_checked [] c input s =
      let (result, r) = run run_capability c input (s, false) in responded result r

  abbrev pub run_found :
      Option Composite → Text → Fields → State Float W → Response CompositeResult × State Float W
  run_found none name input s = (http_error 404 (text (codes "unknown composite: " ++ name)), s)
  run_found (some c) name input s =
      run_checked (collect_errors app.iter_errors (obj input) c.input_schema) c input s

  unfoldable pub invoke_composite :
      Text → InvokeRequest → State Float W → Response CompositeResult × State Float W
  unfolding run_capability
  invoke_composite name body s = run_found (get name s.composites) name body.input s
