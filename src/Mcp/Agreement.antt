-- ===== src/Mcp/Agreement.antt =====
-- The calls of the MCP adapter against the route that invokes a feature.
use agent_features.Common.{
  ◌≡◌, ◌≢◌, refl, subst, ◌⊎◌, inl, inr, ℕ, Option, none, some, List, [], ◌∷◌, false, arith,
}
use agent_features.Common.Text.{Text, codes}
use agent_features.Common.Json.{Json, str, obj, Fields, end, field, get_or_null}
use agent_features.Common.Floats.{Floats}
use agent_features.Models.{Feature, InvokeResponse, default_context}
use agent_features.Invoker.{
  Invocation, returned, feature_input_error, feature_unavailable, other_error,
}
use agent_features.Gateway.{App, State, Response, http_error, server_error, input_errors}
use agent_features.Gateway.Features.{settle, invoke_checked, invoke, invoke_found, invoke_feature}
use agent_features.Gateway.Compose.Laws.{request}
use agent_features.Gateway.Agents.{adapter}
use agent_features.Mcp.{
  Reply, response, broken, ok, err, content, tool_error, invalid_params, or_empty, call_end,
  call_checked, call_found, call,
}

module _ {fl : Floats} {W : Type 0} (app : App fl W) (dumps : Fields → Text)
    (show_value : Json → Text) where
  open fl use {Float}

  -- how a reply to `tools/call` stands to a response of the route
  abbrev pub Mirrors : Json → Response (InvokeResponse Float) → Reply → Type 0
  Mirrors id (Response.ok a) reply = reply ≡ response (ok id (content (dumps a.output) false))
  Mirrors id (http_error status d) reply =
      ((status ≡ 404) × ((m : Text) × (reply ≡ response (err id invalid_params m))))
      ⊎ ((status ≢ 404) × ((m : Text) × (reply ≡ response (tool_error id m))))
  Mirrors id server_error reply = reply ≡ broken

  settle-Mirrors :
      (id : Json) (f : Feature) (r : Invocation Float) (w : W) (s : State Float W)
      → let p = settle app f r (record s { world = w }) in
        let q = call_end (adapter app dumps show_value) id f.manifest.name r w in
        Mirrors id p.0 q.0 × (q.1 ≡ p.1.world)
  settle-Mirrors id f (returned r) w s = (refl, refl)
  settle-Mirrors id f (feature_input_error m) w s = (inr (λ e. omega arith, (_, refl)), refl)
  settle-Mirrors id f (feature_unavailable m) w s = (inr (λ e. omega arith, (_, refl)), refl)
  settle-Mirrors id f other_error w s = (refl, refl)

  checked-Mirrors :
      (es : List Text) (id : Json) (f : Feature) (input : Fields) (s : State Float W)
      → let p = invoke_checked app es f (request input) s in
        let q =
          call_checked (adapter app dumps show_value) es id f.manifest.name (obj input) s.world in
        Mirrors id p.0 q.0 × (q.1 ≡ p.1.world)
  checked-Mirrors (e ∷ es) id f input s = (inr (λ e. omega arith, (_, refl)), refl)
  checked-Mirrors [] id f input s =
      let (r, w) = app.invoker f.manifest.name (obj input) default_context s.world in
      settle-Mirrors id f r w s

  found-Mirrors :
      (found : Option Feature) (id : Json) (name : Text) (input : Fields) (s : State Float W)
      → ((f : Feature) → found ≡ some f → f.manifest.name ≡ name)
      → let p = invoke_found app found name (request input) s in
        let q = call_found (adapter app dumps show_value) found id name (obj input) s.world in
        Mirrors id p.0 q.0 × (q.1 ≡ p.1.world)
  unfolding invoke
  found-Mirrors none id name input s filed = (inl (refl, (_, refl)), refl)
  found-Mirrors (some f) id name input s filed =
      subst
        (λ n.
          let p = invoke app f (request input) s in
          let q = call_found (adapter app dumps show_value) (some f) id n (obj input) s.world in
          Mirrors id p.0 q.0 × (q.1 ≡ p.1.world))
        (filed f refl) (checked-Mirrors (input_errors app f (obj input)) id f input s)

  -- {"name": name, "arguments": input}
  abbrev pub tool_params : Text → Fields → Json
  tool_params name input =
      obj (field (codes "name") (str name) (field (codes "arguments") (obj input) end))

  or_empty-obj : (d : Fields) → or_empty (obj d) ≡ obj d
  or_empty-obj end = refl
  or_empty-obj (field k v d) = refl

  -- `tools/call` with a name that is not empty and a dictionary of arguments does to the world what
  -- the route that invokes the feature does with this input and the default context, if the
  -- catalogue finds features under their own names. It replies with the output as text where the
  -- route returns, with the error -32602 where the route fails with status 404, with a tool error
  -- where it fails with another, and breaks where the route lets an exception through.
  pub call-Mirrors :
      (id : Json) (c : ℕ) (name : Text) (input : Fields) (s : State Float W)
      → ((f : Feature) → app.catalog.get (c ∷ name) s.world ≡ some f → f.manifest.name ≡ c ∷ name)
      → let p = invoke_feature app (c ∷ name) (request input) s in
        let q = call (adapter app dumps show_value) id (tool_params (c ∷ name) input) s.world in
        Mirrors id p.0 q.0 × (q.1 ≡ p.1.world)
  unfolding call invoke_feature get_or_null
  call-Mirrors id c name input s filed =
      rw or_empty-obj
        (found-Mirrors (app.catalog.get (c ∷ name) s.world) id (c ∷ name) input s filed)
