-- ===== src/Gateway/Agents.antt =====
-- gateway/main.py: the route of the MCP adapter. json.dumps, and the text that an f-string makes of a
-- JSON value, are parameters.
use agent_features.Common.{Option, none, some}
use agent_features.Common.Text.{Text}
use agent_features.Common.Json.{Json, obj, Fields}
use agent_features.Common.Floats.{Floats}
use agent_features.Mcp.{Adapter, Reply, response, no_response, broken, handle}
use agent_features.Gateway.{App, State, Response, ok, server_error}

-- None is answered as null
abbrev pub replied : Reply → Response (Option Fields)
replied (response d) = ok (some d)
replied no_response = ok none
replied broken = server_error

module _ {fl : Floats} {W : Type 0} (app : App fl W) (dumps : Fields → Text)
    (show_value : Json → Text) where
  open fl use {Float}

  -- the adapter over the gateway's catalogue and invoker
  abbrev pub adapter : Adapter Float W
  adapter = record {
    catalog = app.catalog;
    invoker = app.invoker;
    iter_errors = app.iter_errors;
    dumps = dumps;
    show_value = show_value;
  }

  -- a message that is no dictionary has no `get`
  unfoldable pub mcp_endpoint : Json → State Float W → Response (Option Fields) × State Float W
  unfolding handle
  mcp_endpoint (obj message) s =
      let (reply, w') = handle adapter message s.world in (replied reply, record s { world = w' })
  mcp_endpoint message s = (server_error, s)
