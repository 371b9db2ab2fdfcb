-- ===== src/Mcp.antt =====
-- gateway/mcp.py: the JSON-RPC adapter. Parameters are the catalogue, the invoker, the schema
-- validator, `json.dumps`, and the text that an f-string makes of a JSON value.
pub mod Laws
pub mod Agreement
use agent_features.Common.{
  Option, none, some, List, [], ◌∷◌, ◌++◌, map, Bool, true, false, not, ◌&&◌, if◌then◌else◌,
}
use agent_features.Common.Text.{Text, codes, join, truthy}
use agent_features.Common.Json.{
  Json, null, bool, neg_int, str, arr, obj, Fields, end, field, cons, nil, arr_of, truthy_fields,
  truthy_json, get_or_null, is_text,
}
use agent_features.Models.{Feature, Manifest, default_context}
use agent_features.Validation.{SchemaError, collect_errors}
use agent_features.Catalog.{Catalog}
use agent_features.Invoker.{
  Invoke, Invocation, returned, feature_input_error, feature_unavailable, other_error,
}

-- a response, none for a notification, or an exception that `handle` does not catch
pub data Reply : Type 0 where
  response : Fields → Reply
  no_response : Reply
  broken : Reply

abbrev or_object : Fields → Fields
or_object end = field (codes "type") (str (codes "object")) end
or_object (field k v d) = field k v d

-- `_tool`
unfoldable pub tool : Manifest → Fields
tool m = field (codes "name") (str m.name) (
    field (codes "description") (str m.description)
      (field (codes "inputSchema") (obj (or_object m.input_schema)) end))

-- `_ok`
abbrev pub ok : Json → Fields → Fields
ok id result =
    field (codes "jsonrpc") (str (codes "2.0"))
      (field (codes "id") id (field (codes "result") (obj result) end))

-- `_err`
abbrev pub err : Json → (code : Json) → Text → Fields
err id code message = field (codes "jsonrpc") (str (codes "2.0")) (
    field (codes "id") id (
      field (codes "error")
        (obj (field (codes "code") code (field (codes "message") (str message) end))) end))

-- the result of a tool: one block of text, and whether it is an error
abbrev pub content : Text → (is_error : Bool) → Fields
content t is_error =
    field (codes "content")
      (arr (
        cons (obj (field (codes "type") (str (codes "text")) (field (codes "text") (str t) end)))
          nil))
      (field (codes "isError") (bool is_error) end)

-- `_tool_error`
abbrev pub tool_error : Json → Text → Fields
tool_error id message = ok id (content message true)

-- -32602 and -32601
abbrev pub invalid_params : Json
invalid_params = neg_int 32601

abbrev pub method_not_found : Json
method_not_found = neg_int 32600

abbrev server_info : Fields
server_info = field (codes "protocolVersion") (str (codes "2025-06-18")) (
    field (codes "capabilities")
      (obj (field (codes "tools") (obj (field (codes "listChanged") (bool false) end)) end))
      (field (codes "serverInfo")
        (obj (
          field (codes "name") (str (codes "agent-features-gateway"))
            (field (codes "version") (str (codes "0.1.0")) end)))
        end))

-- v or {}
abbrev pub or_empty : Json → Json
or_empty v = if truthy_json v then v else obj end

-- the arguments of `handle`, and the library calls under it
pub record Adapter (Float W : Type 0) : Type 0 where
  pub catalog : Catalog W
  pub invoker : Invoke Float W
  pub iter_errors : Json → Fields → List SchemaError
  pub dumps : Fields → Text
  pub show_value : Json → Text

abbrev pub is_null : Json → Bool
is_null null = true
is_null v = false

module _ {Float W : Type 0} (mcp : Adapter Float W) where
  -- what `_call` does with the end of the invocation
  abbrev pub call_end : Json → Text → Invocation Float → W → Reply × W
  call_end id name (returned r) w = (response (ok id (content (mcp.dumps r.output) false)), w)
  call_end id name (feature_input_error m) w =
      (response (tool_error id (codes "feature '" ++ name ++ codes "' rejected the input")), w)
  call_end id name (feature_unavailable m) w = (
    response (tool_error id (codes "feature '" ++ name ++ codes "' is currently unavailable")),
    w,
  )
  call_end id name other_error w = (broken, w)

  abbrev pub call_checked : List Text → Json → Text → Json → W → Reply × W
  call_checked (e ∷ es) id name arguments w =
      (response (tool_error id (codes "invalid input: " ++ join (codes "; ") (e ∷ es))), w)
  call_checked [] id name arguments w =
      let (r, w') = mcp.invoker name arguments default_context w in call_end id name r w'

  abbrev pub call_found : Option Feature → Json → Text → Json → W → Reply × W
  call_found none id name arguments w =
      (response (err id invalid_params (codes "unknown tool: " ++ name)), w)
  call_found (some f) id name arguments w =
      call_checked (collect_errors mcp.iter_errors arguments f.manifest.input_schema) id name
        arguments w

  -- By the kind of the name. A value that is no text is the name of no feature; a list or a
  -- dictionary cannot be looked up at all.
  abbrev pub call_named : Json → Json → Json → W → Reply × W
  call_named (str name) id arguments w =
      call_found (if truthy name then mcp.catalog.get name w else none) id name arguments w
  call_named (arr (cons v vs)) id arguments w = (broken, w)
  call_named (obj (field k v d)) id arguments w = (broken, w)
  call_named v id arguments w = call_found none id (mcp.show_value v) arguments w

  -- `_call`; parameters that are no dictionary have no `get`
  unfoldable pub call : Json → (params : Json) → W → Reply × W
  unfolding get_or_null
  call id (obj params) w =
      call_named (get_or_null (codes "name") params) id
        (or_empty (get_or_null (codes "arguments") params)) w
  call id params w = (broken, w)

  -- the three tests of the method, in turn
  abbrev pub dispatch_by :
      (initialize tools_list tools_call : Bool) → (method id params : Json) → W → Reply × W
  dispatch_by true tools_list tools_call method id params w = (response (ok id server_info), w)
  dispatch_by false true tools_call method id params w =
      let tools = map (λ f. obj (tool f.manifest)) (mcp.catalog.list none none w) in
      (response (ok id (field (codes "tools") (arr (arr_of tools)) end)), w)
  dispatch_by false false true method id params w = call id params w
  dispatch_by false false false method id params w =
      (response (err id method_not_found (codes "unknown method: " ++ mcp.show_value method)), w)

  -- the methods, for a message that is no notification
  unfoldable pub dispatch : (method id params : Json) → W → Reply × W
  unfolding call tool
  dispatch method id params w =
      dispatch_by (is_text method (codes "initialize")) (is_text method (codes "tools/list"))
        (is_text method (codes "tools/call")) method id params w

  -- no response to a message without an id, unless it initializes
  abbrev pub respond : (notification : Bool) → (method id params : Json) → W → Reply × W
  respond true method id params w = (no_response, w)
  respond false method id params w = dispatch method id params w

  unfoldable pub handle : Fields → W → Reply × W
  unfolding get_or_null dispatch
  handle message w =
      let method = get_or_null (codes "method") message in
      let id = get_or_null (codes "id") message in
      respond (is_null id && not (is_text method (codes "initialize"))) method id
        (or_empty (get_or_null (codes "params") message)) w
