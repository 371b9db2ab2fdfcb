-- ===== src/Gateway/Concurrent/Traces.antt =====
-- What a composite's run returns, whatever runs between its steps.
use agent_features.Common.{
  ◌≡◌, Option, none, some, List, [], ◌∷◌, true, false, Bool-cases, inl, inr,
}
use agent_features.Common.Text.{Text, truthy?}
use agent_features.Common.Dict.{get}
use agent_features.Common.Json.{Json, Fields, obj, end}
use agent_features.Common.Floats.{Floats}
use agent_features.Models.{Feature, InvokeRequest}
use agent_features.Validation.{collect_errors}
use agent_features.Composer
use agent_features.Composer.{
  Composite, TraceEntry, CompositeResult, Filled, filled, stopped, fill, entry,
}
use agent_features.Composer.Laws.{
  Ran, fail-Ran, finish-Ran, Ran-next, Records, Ended, caller_context,
}
use agent_features.Ranking.Metrics.Laws.{Outcome}
use agent_features.Invoker.{Invocation}
use agent_features.Gateway.{App, State, ok, ranked, input_errors}
use agent_features.Gateway.Compose.{Running, step_answer}
use agent_features.Gateway.Chat.{ChatEvent}
use agent_features.Gateway.Serve.{post_composite}
use agent_features.Gateway.Concurrent.{
  Task, done, ran, invoking, stepping, listing, resolving, announced, chatting, advance_checked,
  advance_best, advance_filled, advance, begin_composite, after_step, announce_best, chat_call,
  begin, proceed, resume,
}
use agent_features.Gateway.Concurrent.Steps.{Move, go, answer}

module _ {fl : Floats} {W : Type 0} (app : App fl W) where
  open fl use {Float}

  -- one request from a wait to a later one, with any states of the gateway at its moves
  pub data Course : Task Float → Task Float → Type 0 where
    stay : {t : Task Float} → Course t t
    move :
        {s s' : State Float W} {t t' t'' : Task Float} {log : List (Outcome fl)}
        → Move app s t s' t' log
        → Course t' t''
        → Course t t''

  module _ (P : CompositeResult → Type 0) where
    -- a result has the property, or every result of the rest of the run has it
    abbrev Leads : Task Float → Type 0
    Leads (done (ran (ok r))) = P r
    Leads (stepping c st later ctx trace f input) =
        (r : CompositeResult) → Ran c (st ∷ later) ctx trace r → P r
    Leads t = Unit

    module _ (c : Composite) (st : Composer.Step) (later : List Composer.Step) (ctx : Fields)
        (trace : List TraceEntry)
        (k : (r : CompositeResult) → Ran c (st ∷ later) ctx trace r → P r) where
      checked-Leads :
          (es : List Text) (f : Feature) (input : Fields)
          → Leads (advance_checked app es c st later ctx trace f input)
      checked-Leads (e ∷ es) f input = k _ (fail-Ran c (st ∷ later) ctx trace _)
      checked-Leads [] f input = k

      best-Leads :
          (fs : List Feature) (input : Fields)
          → Leads (advance_best app fs c st later ctx trace input)
      best-Leads [] input = k _ (fail-Ran c (st ∷ later) ctx trace _)
      best-Leads (f ∷ fs) input = checked-Leads (input_errors app f (obj input)) f input

      filled-Leads :
          (p : Filled) (s : State Float W) → Leads (advance_filled app p c st later ctx trace s)
      filled-Leads (stopped m) s = k _ (fail-Ran c (st ∷ later) ctx trace _)
      filled-Leads (filled input) s =
          best-Leads (ranked app st.capability st.vendor st.version s) input

    advance-Leads :
        (c : Composite) (steps : List Composer.Step) (ctx : Fields) (trace : List TraceEntry)
        (s : State Float W)
        → ((r : CompositeResult) → Ran c steps ctx trace r → P r)
        → Leads (advance app c steps ctx trace s)
    unfolding advance
    advance-Leads c [] ctx trace s k = k _ (finish-Ran c ctx trace)
    advance-Leads c (st ∷ later) ctx trace s k =
        filled-Leads c st later ctx trace k (fill st.inputs ctx end) s

    after_step-Leads :
        (c : Composite) (st : Composer.Step) (later : List Composer.Step) (ctx : Fields)
        (trace : List TraceEntry) (p : (Option Fields × Option Text) × Running Float W)
        → ((r : CompositeResult) → Ran c (st ∷ later) ctx trace r → P r)
        → Leads (after_step app c st later ctx trace p).0
    after_step-Leads c st later ctx trace (r, (s, true)) k = tt
    after_step-Leads c st later ctx trace ((none, err), (s, false)) k =
        k _ (fail-Ran c (st ∷ later) ctx trace _)
    after_step-Leads c st later ctx trace ((some out, err), (s, false)) k =
        elim (Bool-cases (truthy? err)) [
          | inl h ↦ rw h (k _ (fail-Ran c (st ∷ later) ctx trace _))
          | inr h ↦
              rw h
                (advance-Leads c later _ _ s (λ r n. k r (Ran-next c st later ctx out trace r n)))
        ]

    announce_best-Leads :
        (fs : List Feature) (sent : List (ChatEvent Float)) (capability : Text) (payload : Json)
        → Leads (announce_best app sent fs capability payload)
    announce_best-Leads [] sent capability payload = tt
    announce_best-Leads (f ∷ fs) sent capability payload = tt

    chat_call-Leads :
        (es : List Text) (sent : List (ChatEvent Float)) (f : Feature) (payload : Json)
        → Leads (chat_call app sent es f payload)
    chat_call-Leads [] sent f payload = tt
    chat_call-Leads (e ∷ es) sent f payload = tt

    proceed-Leads : (t : Task Float) (s : State Float W) → Leads t → Leads (proceed app t s)
    unfolding proceed
    proceed-Leads listing s h = tt
    proceed-Leads (resolving sent capability payload) s h =
        announce_best-Leads (ranked app capability none none s) sent capability payload
    proceed-Leads (announced sent f payload) s h =
        chat_call-Leads (input_errors app f payload) sent f payload
    proceed-Leads t s h = h

    resume-Leads :
        (t : Task Float) (r : Invocation Float) (s : State Float W)
        → Leads t
        → Leads (resume app t r s).0
    unfolding resume
    resume-Leads (invoking f body) r s h = tt
    resume-Leads (stepping c st later ctx trace f input) r s h =
        after_step-Leads c st later ctx trace (step_answer app f r s false) h
    resume-Leads (chatting sent f payload) r s h = tt
    resume-Leads t r s h = h

    Move-Leads :
        {s : State Float W} {t t' : Task Float} {s' : State Float W} {log : List (Outcome fl)}
        → Move app s t s' t' log
        → Leads t
        → Leads t'
    Move-Leads (go {s = s} {t = t} y) h = proceed-Leads t s h
    Move-Leads (answer {s = s} {t = t} y r w) h = resume-Leads t r (record s { world = w }) h

    Course-Leads : {t t' : Task Float} → Course t t' → Leads t → Leads t'
    Course-Leads stay h = h
    Course-Leads (move m course) h = Course-Leads course (Move-Leads m h)

    checked_run-Leads :
        (es : List Text) (c : Composite) (input : Fields) (s : State Float W)
        → ((r : CompositeResult) → Ran c c.steps (caller_context input) [] r → P r)
        → Leads (begin_composite app es c input s)
    checked_run-Leads (e ∷ es) c input s k = tt
    checked_run-Leads [] c input s k = advance-Leads c c.steps (caller_context input) [] s k

  -- A composite is run, and between its steps the gateway may do anything: other requests may come,
  -- go on and end, and the providers may change. The result that the run then has, if it has one,
  -- is for the composite that was published when the request arrived, and for its input: its trace
  -- records the first steps, each once and in order; with an error it has no output; and without
  -- one every step is recorded, and the output is what the output references give in the context of
  -- the input and the steps' outputs.
  pub Course-trace :
      (loads : Text → Option Json) (format : Json → Text) (name : Text) (body : InvokeRequest)
      (s : State Float W) (c : Composite) (r : CompositeResult)
      → get name s.composites ≡ some c
      → Course (begin app loads format (post_composite name body) s).0 (done (ran (ok r)))
      → Records c.steps r.trace
        × Ended c c.steps (caller_context body.input) r.trace r.output r.error
  unfolding begin
  Course-trace loads format name body s c r e course = Course-Leads traced course (
      rw e (
        checked_run-Leads traced (collect_errors app.iter_errors (obj body.input) c.input_schema) c
          body.input s (λ q n. rw n.traced (n.recorded, n.ended))))
    where
      traced : CompositeResult → Type 0
      traced q =
          Records c.steps q.trace
          × Ended c c.steps (caller_context body.input) q.trace q.output q.error
