-- ===== src/Gateway/Serve/Sound.antt =====
-- What the routes keep true of the gateway's state.
use agent_features.Common.{
  ◌≡◌, refl, sym, subst, Option, none, some, List, [], ◌∷◌, Bool, true, false, All,
}
use agent_features.Common.Text.{Text}
use agent_features.Common.Dict.{IsDict, put-IsDict, put-All}
use agent_features.Common.Json.{obj, Fields}
use agent_features.Common.Floats.{Floats}
use agent_features.Models.{Feature, InvokeRequest, default_context}
use agent_features.Validation.{collect_errors}
use agent_features.Catalog.Rank.{feature_id}
use agent_features.Ranking.Metrics.Laws.{IsCounted, record_outcome-IsCounted}
use agent_features.Composer.{Composite, run}
use agent_features.Composer.Invariant.{run-invariant}
use agent_features.Invoker.{
  Invocation, returned, feature_input_error, feature_unavailable, other_error,
}
use agent_features.Gateway.{App, State, ranked, input_errors, count}
use agent_features.Gateway.Features.{
  settle, invoke_checked, invoke, invoke_best, invoke_found, invoke_capability,
}
use agent_features.Gateway.Compose.{
  Running, step_answer, step_checked, step_best, run_capability, run_checked, run_found, responded,
  compose,
}

module _ (fl : Floats) {W : Type 0} where
  open fl use {Float, decimal}

  -- No feature has more successes than invocations. The registry of composites has one entry for a
  -- name, which holds a composite of that name.
  pub record IsSound (s : State Float W) : Type 0 where
    pub counted : IsCounted fl s.store
    pub distinct : IsDict s.composites
    pub named : All (λ e. e.0 ≡ e.1.name) s.composites

  pub count-IsSound :
      (f : Feature) (success : Bool) (latency : Float) (w : W) (s : State Float W)
      → IsSound s
      → IsSound (count fl f success latency (record s { world = w }))
  count-IsSound f success latency w s h = record {
    counted = record_outcome-IsCounted fl (feature_id f) success latency s.store h.counted;
    distinct = h.distinct;
    named = h.named;
  }

  pub world-IsSound : (w : W) (s : State Float W) → IsSound s → IsSound (record s { world = w })
  world-IsSound w s h = record { counted = h.counted; distinct = h.distinct; named = h.named }

  module _ (app : App fl W) where
    pub settle-IsSound :
        (f : Feature) (r : Invocation Float) (w : W) (s : State Float W)
        → IsSound s
        → IsSound (settle app f r (record s { world = w })).1
    settle-IsSound f (returned r) w s h = count-IsSound f true r.latency_ms w s h
    settle-IsSound f (feature_input_error m) w s h = world-IsSound w s h
    settle-IsSound f (feature_unavailable m) w s h = count-IsSound f false (decimal 0 1) w s h
    settle-IsSound f other_error w s h = world-IsSound w s h

    invoke_checked-IsSound :
        (es : List Text) (f : Feature) (body : InvokeRequest) (s : State Float W)
        → IsSound s
        → IsSound (invoke_checked app es f body s).1
    invoke_checked-IsSound (e ∷ es) f body s h = h
    invoke_checked-IsSound [] f body s h =
        let (r, w) = app.invoker f.manifest.name (obj body.input) body.context s.world in
        settle-IsSound f r w s h

    pub invoke-IsSound :
        (f : Feature) (body : InvokeRequest) (s : State Float W)
        → IsSound s
        → IsSound (invoke app f body s).1
    unfolding invoke
    invoke-IsSound f body s h =
        invoke_checked-IsSound (input_errors app f (obj body.input)) f body s h

    pub invoke_best-IsSound :
        (fs : List Feature) (capability : Text) (body : InvokeRequest)
        (vendor version : Option Text) (s : State Float W)
        → IsSound s
        → IsSound (invoke_best app fs capability body vendor version s).1
    invoke_best-IsSound [] capability body vendor version s h = h
    invoke_best-IsSound (f ∷ fs) capability body vendor version s h = invoke-IsSound f body s h

    pub invoke_capability-IsSound :
        (capability : Text) (body : InvokeRequest) (vendor version : Option Text)
        (s : State Float W)
        → IsSound s
        → IsSound (invoke_capability app capability body vendor version s).1
    unfolding invoke_capability
    invoke_capability-IsSound capability body vendor version s h =
        invoke_best-IsSound (ranked app capability vendor version s) capability body vendor version
          s h

    pub invoke_found-IsSound :
        (found : Option Feature) (name : Text) (body : InvokeRequest) (s : State Float W)
        → IsSound s
        → IsSound (invoke_found app found name body s).1
    invoke_found-IsSound none name body s h = h
    invoke_found-IsSound (some f) name body s h = invoke-IsSound f body s h

    pub compose-IsSound :
        (spec : Composite) (s : State Float W) → IsSound s → IsSound (compose spec s).1
    unfolding compose
    compose-IsSound spec s h = record {
      counted = h.counted;
      distinct = put-IsDict spec.name spec s.composites h.distinct;
      named = put-All (λ e. e.0 ≡ e.1.name) spec.name spec s.composites refl h.named;
    }

    pub step_answer-IsSound :
        (f : Feature) (r : Invocation Float) (w : W) (s : State Float W) (raised : Bool)
        → IsSound s
        → IsSound (step_answer app f r (record s { world = w }) raised).1.0
    step_answer-IsSound f (returned r) w s raised h = count-IsSound f true r.latency_ms w s h
    step_answer-IsSound f (feature_input_error m) w s raised h = world-IsSound w s h
    step_answer-IsSound f (feature_unavailable m) w s raised h =
        count-IsSound f false (decimal 0 1) w s h
    step_answer-IsSound f other_error w s raised h = world-IsSound w s h

    step_checked-IsSound :
        (es : List Text) (f : Feature) (input : Fields) (r : Running Float W)
        → IsSound r.0
        → IsSound (step_checked app es f input r).1.0
    step_checked-IsSound (e ∷ es) f input r h = h
    step_checked-IsSound [] f input (s, raised) h =
        let (r, w) = app.invoker f.manifest.name (obj input) default_context s.world in
        step_answer-IsSound f r w s raised h

    step_best-IsSound :
        (fs : List Feature) (capability : Text) (input : Fields) (r : Running Float W)
        → IsSound r.0
        → IsSound (step_best app fs capability input r).1.0
    step_best-IsSound [] capability input r h = h
    step_best-IsSound (f ∷ fs) capability input r h =
        step_checked-IsSound (input_errors app f (obj input)) f input r h

    run_capability-IsSound :
        (capability : Text) (input : Fields) (vendor version : Option Text) (r : Running Float W)
        → IsSound r.0
        → IsSound (run_capability app capability input vendor version r).1.0
    unfolding run_capability
    run_capability-IsSound capability input vendor version r h =
        step_best-IsSound (ranked app capability vendor version r.0) capability input r h

    responded-state : (result : _) (r : Running Float W) → (responded result r).1 ≡ r.0
    responded-state result (s, false) = refl
    responded-state result (s, true) = refl

    run_checked-IsSound :
        (es : List Text) (c : Composite) (input : Fields) (s : State Float W)
        → IsSound s
        → IsSound (run_checked app es c input s).1
    run_checked-IsSound (e ∷ es) c input s h = h
    run_checked-IsSound [] c input s h =
        let (result, r) = run (run_capability app) c input (s, false) in
        subst IsSound (sym (responded-state result r)) (
          run-invariant (run_capability app) (λ r. IsSound r.0) run_capability-IsSound c input
            (s, false) h)

    pub run_found-IsSound :
        (found : Option Composite) (name : Text) (input : Fields) (s : State Float W)
        → IsSound s
        → IsSound (run_found app found name input s).1
    run_found-IsSound none name input s h = h
    run_found-IsSound (some c) name input s h =
        run_checked-IsSound (collect_errors app.iter_errors (obj input) c.input_schema) c input s h
