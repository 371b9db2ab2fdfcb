-- ===== src/Gateway/Waits.antt =====
-- gateway/main.py: where a request can wait, at an await or at a yield of the chat's stream, with the
-- variables that it has there.
use agent_features.Common.{Option, none, some, List, Bool, true, false}
use agent_features.Common.Text.{Text}
use agent_features.Common.Json.{Json, obj, Fields}
use agent_features.Models.{Feature, InvokeRequest, InvokeResponse, RequestContext, default_context}
use agent_features.Composer.{Step, Composite, TraceEntry, CompositeResult}
use agent_features.Gateway.{Response}
use agent_features.Gateway.Compose.{CompositeSummary}
use agent_features.Gateway.Compile.{CompileResponse}
use agent_features.Gateway.Chat.{ChatEvent}

-- what a request has been answered with
pub data RouteReply (Float : Type 0) : Type 0 where
  invoked : Response (InvokeResponse Float) → RouteReply Float
  composed : Response CompositeSummary → RouteReply Float
  ran : Response CompositeResult → RouteReply Float
  compiled : Response CompileResponse → RouteReply Float
  streamed : List (ChatEvent Float) → RouteReply Float

-- a request that has been answered, or where it waits, with the variables that it has there
pub data Task (Float : Type 0) : Type 0 where
  done : RouteReply Float → Task Float
  -- `_invoke`, at the invoker
  invoking : Feature → InvokeRequest → Task Float
  -- `Composer.run` in a step, at the invoker
  stepping :
      Composite
      → Step
      → (later : List Step) → (ctx : Fields) → List TraceEntry
      → Feature
      → (input : Fields) → Task Float
  -- `_chat`, behind "features:", behind "resolving …", behind "invoking …", and at the invoker, with
  -- the events that it has sent
  listing : Task Float
  resolving : (sent : List (ChatEvent Float)) → (capability : Text) → (payload : Json) → Task Float
  announced : (sent : List (ChatEvent Float)) → Feature → (payload : Json) → Task Float
  chatting : (sent : List (ChatEvent Float)) → Feature → (payload : Json) → Task Float

-- the call that a request waits for: the name of the feature, its input and the context
abbrev pub call_of : {Float : Type 0} → Task Float → Option (Text × Json × RequestContext)
call_of (invoking f body) = some (f.manifest.name, obj body.input, body.context)
call_of (stepping c st later ctx trace f input) = some (f.manifest.name, obj input, default_context)
call_of (chatting sent f payload) = some (f.manifest.name, payload, default_context)
call_of t = none

-- whether a stream waits at a yield
abbrev pub yielded : {Float : Type 0} → Task Float → Bool
yielded listing = true
yielded (resolving sent capability payload) = true
yielded (announced sent f payload) = true
yielded t = false
