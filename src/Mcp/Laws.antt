-- ===== src/Mcp/Laws.antt =====
-- What the MCP adapter answers.
use agent_features.Common.{
  ◌≡◌, refl, ◌⊎◌, inl, inr, and-true, Option, none, some, List, [], ◌∷◌, Bool, true, false, not,
  ◌&&◌,
}
use mathlib.Core.Bool.{true≢false}
use agent_features.Common.Text.{Text, codes}
use agent_features.Common.Json.{
  Json, null, str, obj, arr, cons, nil, bool, int, neg_int, float, Fields, end, field, get_field,
  get_or_null, is_text,
}
use agent_features.Models.{Feature}
use agent_features.Validation.{collect_errors}
use agent_features.Invoker.{
  Invocation, returned, feature_input_error, feature_unavailable, other_error,
}
use agent_features.Mcp.{
  Adapter, Reply, response, no_response, broken, ok, err, or_empty, call_end, call_checked,
  call_found, call_named, call, dispatch_by, dispatch, respond, is_null, handle,
}

-- A response is for JSON-RPC 2.0, has the id that it is given, and has a result or an error, not
-- both. There is none only where the id is null.
abbrev pub Answers : Json → Reply → Type 0
Answers id (response d) =
    (get_field (codes "jsonrpc") d ≡ some (str (codes "2.0")))
    × (get_field (codes "id") d ≡ some id)
    × (((get_field (codes "error") d ≡ none)
          × ((r : Fields) × (get_field (codes "result") d ≡ some (obj r))))
        ⊎ ((get_field (codes "result") d ≡ none)
            × ((e : Fields) × (get_field (codes "error") d ≡ some (obj e)))))
Answers id no_response = is_null id ≡ true
Answers id broken = Unit

ok-Answers : (id : Json) (d : Fields) → Answers id (response (ok id d))
unfolding get_field
ok-Answers id d = (refl, refl, inl (refl, (d, refl)))

err-Answers : (id code : Json) (m : Text) → Answers id (response (err id code m))
unfolding get_field
err-Answers id code m = (refl, refl, inr (refl, (_, refl)))

module _ {Float W : Type 0} (mcp : Adapter Float W) where
  call_end-Answers :
      (id : Json) (name : Text) (r : Invocation Float) (w : W)
      → Answers id (call_end mcp id name r w).0
  call_end-Answers id name (returned r) w = ok-Answers id _
  call_end-Answers id name (feature_input_error m) w = ok-Answers id _
  call_end-Answers id name (feature_unavailable m) w = ok-Answers id _
  call_end-Answers id name other_error w = tt

  call_found-Answers :
      (found : Option Feature) (id : Json) (name : Text) (arguments : Json) (w : W)
      → Answers id (call_found mcp found id name arguments w).0
  call_found-Answers none id name arguments w = err-Answers id _ _
  call_found-Answers (some f) id name arguments w =
      go (collect_errors mcp.iter_errors arguments f.manifest.input_schema)
    where
      go : (es : List Text) → Answers id (call_checked mcp es id name arguments w).0
      go (e ∷ es) = ok-Answers id _
      go [] = call_end-Answers id name _ _

  call_named-Answers :
      (name id arguments : Json) (w : W) → Answers id (call_named mcp name id arguments w).0
  call_named-Answers (str name) id arguments w = call_found-Answers _ id name arguments w
  call_named-Answers null id arguments w = err-Answers id _ _
  call_named-Answers (bool b) id arguments w = err-Answers id _ _
  call_named-Answers (int n) id arguments w = err-Answers id _ _
  call_named-Answers (neg_int n) id arguments w = err-Answers id _ _
  call_named-Answers (float t) id arguments w = err-Answers id _ _
  call_named-Answers (arr nil) id arguments w = err-Answers id _ _
  call_named-Answers (arr (cons v vs)) id arguments w = tt
  call_named-Answers (obj end) id arguments w = err-Answers id _ _
  call_named-Answers (obj (field k v d)) id arguments w = tt

  call-Answers : (id params : Json) (w : W) → Answers id (call mcp id params w).0
  unfolding call
  call-Answers id (obj params) w = call_named-Answers _ id _ w
  call-Answers id null w = tt
  call-Answers id (bool b) w = tt
  call-Answers id (int n) w = tt
  call-Answers id (neg_int n) w = tt
  call-Answers id (float t) w = tt
  call-Answers id (str s) w = tt
  call-Answers id (arr vs) w = tt

  dispatch_by-Answers :
      (initialize tools_list tools_call : Bool) (method id params : Json) (w : W)
      → let p = dispatch_by mcp initialize tools_list tools_call method id params w in
        Answers id p.0 × (tools_call ≡ false → p.1 ≡ w)
  dispatch_by-Answers true l c method id params w = (ok-Answers id _, λ h. refl)
  dispatch_by-Answers false true c method id params w = (ok-Answers id _, λ h. refl)
  dispatch_by-Answers false false true method id params w =
      (call-Answers id params w, λ h. absurd (true≢false h))
  dispatch_by-Answers false false false method id params w = (err-Answers id _ _, λ h. refl)

  respond-Answers :
      (notification : Bool) (method id params : Json) (w : W)
      → (notification ≡ true → is_null id ≡ true)
      → let p = respond mcp notification method id params w in
        Answers id p.0 × (is_text method (codes "tools/call") ≡ false → p.1 ≡ w)
  unfolding dispatch
  respond-Answers true method id params w n = (n refl, λ h. refl)
  respond-Answers false method id params w n = dispatch_by-Answers _ _ _ method id params w

  -- Every response to a message is for JSON-RPC 2.0, has the message's id, and has a result or an
  -- error, not both. Only a message without an id goes without a response, unless an exception
  -- goes through. Only the method `tools/call` changes the world.
  pub handle-Answers :
      (message : Fields) (w : W)
      → let p = handle mcp message w in
        Answers (get_or_null (codes "id") message) p.0
        × (is_text (get_or_null (codes "method") message) (codes "tools/call") ≡ false → p.1 ≡ w)
  unfolding handle
  handle-Answers message w =
      let method = get_or_null (codes "method") message in
      let id = get_or_null (codes "id") message in
      let initializes = is_text method (codes "initialize") in
      respond-Answers (is_null id && not initializes) method id
        (or_empty (get_or_null (codes "params") message)) w
        (λ h. (and-true (is_null id) (not initializes) h).0)
