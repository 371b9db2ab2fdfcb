-- ===== src/Gateway/Features.antt =====
-- gateway/main.py: the routes of features and of capabilities.
pub mod Laws
pub mod Rankings
use agent_features.Common.{
  ℕ, ◌+◌, Option, none, some, List, [], ◌∷◌, ◌++◌, map, Bool, true, false, if◌then◌else◌,
}
use agent_features.Common.Text.{Text, codes, truthy?}
use agent_features.Common.Json.{Json, obj, Fields}
use agent_features.Common.Floats.{Floats}
use agent_features.Models.{Feature, InvokeRequest, InvokeResponse, ProviderScore, CapabilitySummary}
use agent_features.Catalog.Rank.{feature_id}
use agent_features.Ranking.Metrics.{FeatureMetrics, MetricsStore, success_rate, avg_latency_ms}
use agent_features.Ranking.Metrics
use agent_features.Ranking.Policy.{rank, score}
use agent_features.Invoker.{
  Invocation, returned, feature_input_error, feature_unavailable, other_error,
}
use agent_features.Gateway.{
  App, State, Response, ok, http_error, server_error, Detail, text, texts, providers, ranked,
  input_errors, count,
}

-- t or '' behind an f-string's prefix: (vendor=…), or nothing where there is no pin
abbrev pub pin : Text → Option Text → Text
pin label none = []
pin label (some []) = []
pin label (some (c ∷ t)) = codes " (" ++ label ++ codes "=" ++ c ∷ t ++ codes ")"

abbrev pub no_provider : Text → (vendor version : Option Text) → Detail
no_provider capability vendor version = text (
    codes "no provider for capability '"
    ++ capability
    ++ codes "'"
    ++ pin (codes "vendor") vendor
    ++ pin (codes "version") version)

-- 404 where there is no provider
abbrev pub unless_empty : {A : Type 0} → List Feature → Text → A → Response A
unless_empty [] capability a = http_error 404 (text (codes "unknown capability: " ++ capability))
unless_empty (f ∷ fs) capability a = ok a

-- a summary that raises an exception makes the request fail
abbrev pub summarized : {A : Type 0} → Option A → Response A
summarized none = server_error
summarized (some a) = ok a

-- [tag] if tag else None
abbrev pub one_tag : Option Text → Option (List Text)
one_tag none = none
one_tag (some []) = none
one_tag (some (c ∷ t)) = some ((c ∷ t) ∷ [])

module _ {fl : Floats} {W : Type 0} (app : App fl W) where
  open fl use {Float, decimal, round, nonzero}

  -- what `_invoke` does with the end of the invocation
  abbrev pub settle :
      Feature → Invocation Float → State Float W → Response (InvokeResponse Float) × State Float W
  settle f (returned result) s = (
    ok (record {
      feature = f.manifest.name;
      version = f.manifest.version;
      output = result.output;
      latency_ms = result.latency_ms;
      vendor = f.manifest.vendor;
    }),
    count fl f true result.latency_ms s,
  )
  settle f (feature_input_error m) s = (
    http_error 422 (text (codes "feature '" ++ f.manifest.name ++ codes "' rejected the input")),
    s,
  )
  settle f (feature_unavailable m) s = (
    http_error 503
        (text (codes "feature '" ++ f.manifest.name ++ codes "' is currently unavailable")),
    count fl f false (decimal 0 1) s,
  )
  settle f other_error s = (server_error, s)

  -- what `_invoke` does behind the check of the input
  abbrev pub invoke_checked :
      List Text
      → Feature
      → InvokeRequest
      → State Float W
      → Response (InvokeResponse Float) × State Float W
  invoke_checked (e ∷ es) f body s = (http_error 422 (texts (e ∷ es)), s)
  invoke_checked [] f body s =
      let (result, w') = app.invoker f.manifest.name (obj body.input) body.context s.world in
      settle f result (record s { world = w' })

  -- `_invoke`
  unfoldable pub invoke :
      Feature → InvokeRequest → State Float W → Response (InvokeResponse Float) × State Float W
  invoke f body s = invoke_checked (input_errors app f (obj body.input)) f body s

  unfoldable pub list_features : (tag q : Option Text) → State Float W → List Feature
  list_features tag q s = app.catalog.list q (one_tag tag) s.world

  unfoldable pub list_capabilities : State Float W → Response (List CapabilitySummary)
  list_capabilities s = summarized (app.catalog.list_capabilities s.world)

  unfoldable pub get_feature : Text → State Float W → Response Feature
  get_feature name s = elim (app.catalog.get name s.world) [
    | none ↦ http_error 404 (text (codes "unknown feature: " ++ name))
    | some feature ↦ ok feature
  ]

  abbrev pub invoke_found :
      Option Feature
      → Text
      → InvokeRequest
      → State Float W
      → Response (InvokeResponse Float) × State Float W
  invoke_found none name body s = (http_error 404 (text (codes "unknown feature: " ++ name)), s)
  invoke_found (some feature) name body s = invoke feature body s

  unfoldable pub invoke_feature :
      Text → InvokeRequest → State Float W → Response (InvokeResponse Float) × State Float W
  unfolding invoke
  invoke_feature name body s = invoke_found (app.catalog.get name s.world) name body s

  unfoldable pub get_capability : Text → State Float W → Response (List Feature)
  unfolding providers
  get_capability capability s =
      let fs = providers app capability none none s.world in
      unless_empty fs capability (rank fl app.policy fs s.store)

  -- round(m.avg_latency_ms, 3) if m.avg_latency_ms is neither None nor zero
  abbrev pub rounded : Option Float → Option Float
  rounded none = none
  rounded (some x) = if nonzero x then some (round x 3) else none

  abbrev pub provider_score : State Float W → Feature → ProviderScore Float
  provider_score s f =
      let m = Metrics.get fl (feature_id f) s.store in
      record {
        feature_id = feature_id f;
        vendor = f.manifest.vendor;
        version = f.manifest.version;
        score = round (score fl app.policy f s.store) 4;
        invocations = elim m [ none ↦ 0 | some n ↦ n.invocations ];
        success_rate = elim m [ none ↦ none | some n ↦ success_rate fl n ];
        avg_latency_ms = elim m [ none ↦ none | some n ↦ rounded (avg_latency_ms fl n) ];
      }

  unfoldable pub capability_ranking : Text → State Float W → Response (List (ProviderScore Float))
  unfolding providers
  capability_ranking capability s =
      let fs = providers app capability none none s.world in
      unless_empty fs capability (map (provider_score s) (rank fl app.policy fs s.store))

  -- the ranked providers, invoked at the head
  abbrev pub invoke_best :
      List Feature
      → Text
      → InvokeRequest
      → (vendor version : Option Text) → State Float W
      → Response (InvokeResponse Float) × State Float W
  invoke_best [] capability body vendor version s =
      (http_error 404 (no_provider capability vendor version), s)
  invoke_best (f ∷ fs) capability body vendor version s = invoke f body s

  unfoldable pub invoke_capability :
      Text
      → InvokeRequest
      → (vendor version : Option Text) → State Float W
      → Response (InvokeResponse Float) × State Float W
  unfolding ranked invoke
  invoke_capability capability body vendor version s =
      invoke_best (ranked app capability vendor version s) capability body vendor version s
