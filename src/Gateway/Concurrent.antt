-- ===== src/Gateway/Concurrent.antt =====
-- gateway/main.py: requests that overlap. A handler runs up to an await, or to a yield of the chat's
-- stream, and other requests may run there before it goes on. The answer of an invoker, and the
-- world behind it, may be any. A route without an await is one step.
pub mod Steps
pub mod Sound
pub mod Accounts
pub mod Halting
pub mod Progress
pub mod Traces
use agent_features.Common.{
  Option, none, some, List, [], ◌∷◌, ◌++◌, Bool, true, false, not, ◌||◌, if◌then◌else◌,
}
use agent_features.Common.Text.{
  Text, codes, ◌==◌, truthy, truthy?, strip, partition, starts_with, after, join,
}
use agent_features.Common.Dict.{get}
use agent_features.Common.Json.{Json, obj, Fields, end, field, put_field}
use agent_features.Common.Floats.{Floats}
use agent_features.Models.{Feature, InvokeRequest, InvokeResponse, RequestContext, default_context}
use agent_features.Validation.{collect_errors}
use agent_features.Composer.{
  Step, Composite, TraceEntry, CompositeResult, Filled, filled, stopped, fill, fail, step_error,
  or_no_output, finish, entry,
}
use agent_features.Invoker.{Invocation}
use agent_features.Gateway.{
  App, State, Response, ok, http_error, server_error, text, texts, ranked, input_errors,
}
use agent_features.Gateway.Features.{settle, no_provider}
use agent_features.Gateway.Compose.{CompositeSummary, Running, compose, step_answer}
use agent_features.Gateway.Compile.{CompileResponse, compile_agent}
use agent_features.Gateway.Chat.{ChatEvent, status, error, help, listed, chat_end}
pub use agent_features.Gateway.Waits.{
  RouteReply, invoked, composed, ran, compiled, streamed, Task, done, invoking, stepping, listing,
  resolving, announced, chatting, call_of, yielded,
}
use agent_features.Gateway.Serve.{
  Request, post_feature, post_capability, post_compose, post_composite, post_compile, post_chat,
}

module _ {fl : Floats} {W : Type 0} (app : App fl W) where
  open fl use {Float}

  -- `_invoke` up to the invoker
  abbrev pub begin_checked : List Text → Feature → InvokeRequest → Task Float
  begin_checked (e ∷ es) f body = done (invoked (http_error 422 (texts (e ∷ es))))
  begin_checked [] f body = invoking f body

  unfoldable pub begin_invoke : Feature → InvokeRequest → Task Float
  begin_invoke f body = begin_checked (input_errors app f (obj body.input)) f body

  abbrev pub begin_feature : Option Feature → Text → InvokeRequest → Task Float
  begin_feature none name body =
      done (invoked (http_error 404 (text (codes "unknown feature: " ++ name))))
  begin_feature (some f) name body = begin_invoke f body

  abbrev pub begin_best :
      List Feature → Text → InvokeRequest → (vendor version : Option Text) → Task Float
  begin_best [] capability body vendor version =
      done (invoked (http_error 404 (no_provider capability vendor version)))
  begin_best (f ∷ fs) capability body vendor version = begin_invoke f body

  -- `run` from the failure of a step
  abbrev pub step_failed : Composite → Step → List TraceEntry → Option Text → Task Float
  step_failed c st trace err = done (ran (ok (fail c trace (step_error st (or_no_output err)))))

  -- `_run_capability` up to the invoker, in a step
  abbrev pub advance_checked :
      List Text
      → Composite
      → Step
      → List Step
      → Fields
      → List TraceEntry
      → Feature
      → Fields
      → Task Float
  advance_checked (e ∷ es) c st later ctx trace f input =
      step_failed c st trace (some (codes "invalid input: " ++ join (codes "; ") (e ∷ es)))
  advance_checked [] c st later ctx trace f input = stepping c st later ctx trace f input

  abbrev pub advance_best :
      List Feature → Composite → Step → List Step → Fields → List TraceEntry → Fields → Task Float
  advance_best [] c st later ctx trace input =
      step_failed c st trace
        (some (codes "no provider for capability '" ++ st.capability ++ codes "'"))
  advance_best (f ∷ fs) c st later ctx trace input =
      advance_checked (input_errors app f (obj input)) c st later ctx trace f input

  abbrev pub advance_filled :
      Filled → Composite → Step → List Step → Fields → List TraceEntry → State Float W → Task Float
  advance_filled (stopped message) c st later ctx trace s =
      done (ran (ok (fail c trace (step_error st message))))
  advance_filled (filled input) c st later ctx trace s =
      advance_best (ranked app st.capability st.vendor st.version s) c st later ctx trace input

  -- `run` from a step on, up to its invoker
  unfoldable pub advance :
      Composite → List Step → Fields → List TraceEntry → State Float W → Task Float
  unfolding ranked fill
  advance c [] ctx trace s = done (ran (ok (finish c trace (fill c.output ctx end))))
  advance c (st ∷ later) ctx trace s =
      advance_filled (fill st.inputs ctx end) c st later ctx trace s

  abbrev pub begin_composite : List Text → Composite → Fields → State Float W → Task Float
  begin_composite (e ∷ es) c input s = done (ran (http_error 422 (texts (e ∷ es))))
  begin_composite [] c input s = advance c c.steps (field (codes "input") (obj input) end) [] s

  abbrev pub begin_run : Option Composite → Text → Fields → State Float W → Task Float
  begin_run none name input s =
      done (ran (http_error 404 (text (codes "unknown composite: " ++ name))))
  begin_run (some c) name input s =
      begin_composite (collect_errors app.iter_errors (obj input) c.input_schema) c input s

  -- `run` behind the answer of a step
  abbrev pub after_step :
      Composite
      → Step
      → List Step
      → Fields
      → List TraceEntry
      → (Option Fields × Option Text) × Running Float W
      → Task Float × State Float W
  after_step c st later ctx trace (answer, (s, true)) = (done (ran server_error), s)
  after_step c st later ctx trace ((none, err), (s, false)) = (step_failed c st trace err, s)
  after_step c st later ctx trace ((some out, err), (s, false)) = (
    if truthy? err
        then step_failed c st trace err
        else advance c later (put_field st.name (obj out) ctx) (trace ++ entry st out ∷ []) s,
    s,
  )

  -- from the line that says which feature is invoked
  abbrev pub announce : List (ChatEvent Float) → Feature → Json → Task Float
  announce sent f payload =
      announced
        (sent
          ++ status
              (codes "invoking " ++ f.manifest.vendor ++ codes "/" ++ f.manifest.name ++ codes "…")
            ∷ [])
        f payload

  abbrev pub announce_best : List (ChatEvent Float) → List Feature → Text → Json → Task Float
  announce_best sent [] capability payload = done (
      streamed
        (sent ++ error (codes "no provider for capability '" ++ capability ++ codes "'") ∷ []))
  announce_best sent (f ∷ fs) capability payload = announce sent f payload

  abbrev pub announce_found : Option Feature → Text → Json → Task Float
  announce_found none head payload =
      done (streamed (error (codes "unknown feature '" ++ head ++ codes "' (try 'list')") ∷ []))
  announce_found (some f) head payload = announce [] f payload

  abbrev pub chat_call : List (ChatEvent Float) → List Text → Feature → Json → Task Float
  chat_call sent (e ∷ es) f payload =
      done (streamed (sent ++ error (codes "invalid input: " ++ join (codes "; ") (e ∷ es)) ∷ []))
  chat_call sent [] f payload = chatting sent f payload

  abbrev pub begin_command : Text → Option Json → State Float W → Task Float
  begin_command head none s =
      done (streamed (error (codes "the text after the command must be valid JSON") ∷ []))
  begin_command head (some payload) s =
      if starts_with head (codes "cap:")
      then resolving
          (status (codes "resolving capability '" ++ after (codes "cap:") head ++ codes "'…") ∷ [])
          (after (codes "cap:") head) payload
      else announce_found (app.catalog.get head s.world) head payload

  module _ (loads : Text → Option Json) (format : Json → Text) where
    abbrev pub begin_line : Text → State Float W → Task Float
    begin_line line s =
        let (head, tail) = partition b' ' line in
        begin_command head (if truthy (strip tail) then loads tail else some (obj end)) s

    unfoldable pub begin_chat : Text → State Float W → Task Float
    unfolding strip
    begin_chat message s =
        let line = strip message in
        if not (truthy line) || line == codes "help"
        then done (streamed help)
        else if line == codes "list"
        then listing
        else begin_line line s

    -- a request up to where it first waits
    unfoldable pub begin : Request → State Float W → Task Float × State Float W
    unfolding begin_invoke advance begin_chat
    begin (post_feature name body) s = (begin_feature (app.catalog.get name s.world) name body, s)
    begin (post_capability capability body vendor version) s =
        (begin_best (ranked app capability vendor version s) capability body vendor version, s)
    begin (post_compose spec) s = let (r, s') = compose spec s in (done (composed r), s')
    begin (post_composite name body) s = (begin_run (get name s.composites) name body.input s, s)
    begin (post_compile body) s =
        let (r, s') = compile_agent format body s in (done (compiled r), s')
    begin (post_chat message) s = (begin_chat message s, s)

  -- a stream behind a yield, up to where it waits again
  unfoldable pub proceed : Task Float → State Float W → Task Float
  proceed listing s = done (streamed (listed (app.catalog.list none none s.world)))
  proceed (resolving sent capability payload) s =
      announce_best sent (ranked app capability none none s) capability payload
  proceed (announced sent f payload) s = chat_call sent (input_errors app f payload) f payload
  proceed t s = t

  -- a request behind the answer of the invoker, up to where it waits again
  unfoldable pub resume : Task Float → Invocation Float → State Float W → Task Float × State Float W
  unfolding advance
  resume (invoking f body) r s = let (reply, s') = settle app f r s in (done (invoked reply), s')
  resume (stepping c st later ctx trace f input) r s =
      after_step c st later ctx trace (step_answer app f r s false)
  resume (chatting sent f payload) r s =
      let (events, s') = chat_end app f r s in (done (streamed (sent ++ events)), s')
  resume t r s = (t, s)
