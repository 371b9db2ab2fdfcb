-- ===== src/Gateway/Wiring/Laws.antt =====
-- What holds of the state of a gateway that `create_app` has made, behind any requests.
use agent_features.Common.{◌≡◌, refl, Option, some, List, [], ◌∷◌, arith, All}
use agent_features.Common.Text.{Text}
use agent_features.Common.Dict
use agent_features.Common.Dict.{Dict, put, IsDict, put-IsDict, put-All}
use agent_features.Common.Json.{Json, Fields}
use agent_features.Common.Floats.{Floats}
use agent_features.Validation.{SchemaError}
use agent_features.Catalog.{Catalog}
use agent_features.Ranking.Metrics
use agent_features.Ranking.Metrics.{FeatureMetrics, empty_store}
use agent_features.Composer.{Composite}
use agent_features.Invoker.{Invoke}
use agent_features.Gateway.Serve.{Request, serve_all}
use agent_features.Gateway.Serve.Sound.{IsSound}
use agent_features.Gateway.Serve.Laws.{serve_all-IsSound}
use agent_features.Gateway.Wiring.{composites_of, build_dev_composites, create_app, first_state}

composites_of-IsDict :
    (d : Dict Composite) (cs : List Composite) → IsDict d → IsDict (composites_of d cs)
composites_of-IsDict d [] h = h
composites_of-IsDict d (c ∷ cs) h =
    composites_of-IsDict (put c.name c d) cs (put-IsDict c.name c d h)

composites_of-named :
    (d : Dict Composite) (cs : List Composite)
    → All (λ e. e.0 ≡ e.1.name) d
    → All (λ e. e.0 ≡ e.1.name) (composites_of d cs)
composites_of-named d [] h = h
composites_of-named d (c ∷ cs) h =
    composites_of-named (put c.name c d) cs (put-All (λ e. e.0 ≡ e.1.name) c.name c d refl h)

no_metrics :
    (fl : Floats) (k : Text) (m : FeatureMetrics fl.Float)
    → Metrics.get fl k (empty_store fl) ≡ some m
    → ⊥
unfolding Metrics.get Dict.get
no_metrics fl k m e = ground arith

module _ (fl : Floats) {W : Type 0} where
  open fl use {Float}

  pub first_state-IsSound : (w : W) → IsSound fl (first_state fl w)
  unfolding first_state
  first_state-IsSound w = record {
    counted = λ k m e. absurd (no_metrics fl k m e);
    distinct = composites_of-IsDict [] build_dev_composites tt;
    named = composites_of-named [] build_dev_composites tt;
  }

  -- A gateway that `create_app` has made, with any catalogue, invoker, policy and validator, and
  -- any requests to it, one after another: no feature has more successes than invocations, the
  -- registry of composites has one entry for a name, and that entry is a composite of the name.
  pub serve_all-created :
      (iter_errors : Json → Fields → List SchemaError) (catalog : Option (Catalog W))
      (invoker : Option (Invoke Float W)) (mode ranking : Option Text)
      (cluster dev : Catalog W × Invoke Float W) (loads : Text → Option Json) (format : Json → Text)
      (qs : List Request) (w : W)
      → IsSound fl (
          serve_all
            (create_app fl iter_errors catalog invoker mode ranking cluster dev)
            loads
            format
            qs
            (first_state fl w))
  serve_all-created iter_errors catalog invoker mode ranking cluster dev loads format qs w =
      serve_all-IsSound fl (create_app fl iter_errors catalog invoker mode ranking cluster dev)
        loads format qs (first_state fl w) (first_state-IsSound w)
