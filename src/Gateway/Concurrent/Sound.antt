-- ===== src/Gateway/Concurrent/Sound.antt =====
-- What holds of the gateway's state however requests overlap.
use agent_features.Common.{◌≡◌, refl, sym, subst, Option, none, some, List, true, false}
use agent_features.Common.Text.{Text}
use agent_features.Common.Json.{Json, Fields}
use agent_features.Common.Floats.{Floats}
use agent_features.Ranking.Metrics.Laws.{Outcome}
use agent_features.Composer
use agent_features.Composer.{Composite, TraceEntry}
use agent_features.Validation.{SchemaError}
use agent_features.Catalog.{Catalog}
use agent_features.Invoker.{Invoke}
use agent_features.Invoker.{Invocation}
use agent_features.Gateway.{App, State}
use agent_features.Gateway.Compose.{Running, step_answer}
use agent_features.Gateway.Serve.{
  Request, post_feature, post_capability, post_compose, post_composite, post_compile, post_chat,
}
use agent_features.Gateway.Serve.Sound.{
  IsSound, world-IsSound, settle-IsSound, step_answer-IsSound, compose-IsSound,
}
use agent_features.Gateway.Serve.Laws.{chat_end-IsSound, compile_agent-IsSound}
use agent_features.Gateway.Wiring.{create_app, first_state}
use agent_features.Gateway.Wiring.Laws.{first_state-IsSound}
use agent_features.Gateway.Concurrent.{
  Task, done, invoking, stepping, listing, resolving, announced, chatting, begin, resume,
  after_step,
}
use agent_features.Gateway.Concurrent.Steps.{
  Move, go, answer, Turn, here, there, Config, Step, arrive, turn, elsewhere, Reach, start, next,
}

module _ (fl : Floats) {W : Type 0} (app : App fl W) where
  open fl use {Float}

  -- a run goes on with the state that its step leaves
  after_step-state :
      (c : Composite) (st : Composer.Step) (later : List Composer.Step) (ctx : Fields)
      (trace : List TraceEntry) (p : (Option Fields × Option Text) × Running Float W)
      → (after_step app c st later ctx trace p).1 ≡ p.1.0
  after_step-state c st later ctx trace (r, (s, true)) = refl
  after_step-state c st later ctx trace ((none, err), (s, false)) = refl
  after_step-state c st later ctx trace ((some out, err), (s, false)) = refl

  resume-IsSound :
      (t : Task Float) (r : Invocation Float) (w : W) (s : State Float W)
      → IsSound fl s
      → IsSound fl (resume app t r (record s { world = w })).1
  unfolding resume
  resume-IsSound (invoking f body) r w s h = settle-IsSound fl app f r w s h
  resume-IsSound (stepping c st later ctx trace f input) r w s h =
      subst (IsSound fl)
        (sym (
          after_step-state c st later ctx trace
            (step_answer app f r (record s { world = w }) false)))
        (step_answer-IsSound fl app f r w s false h)
  resume-IsSound (chatting sent f payload) r w s h = chat_end-IsSound fl app f r w s h
  resume-IsSound (done reply) r w s h = world-IsSound fl w s h
  resume-IsSound listing r w s h = world-IsSound fl w s h
  resume-IsSound (resolving sent capability payload) r w s h = world-IsSound fl w s h
  resume-IsSound (announced sent f payload) r w s h = world-IsSound fl w s h

  Move-IsSound :
      {s : State Float W} {t t' : Task Float} {s' : State Float W} {log : List (Outcome fl)}
      → Move app s t s' t' log
      → IsSound fl s
      → IsSound fl s'
  Move-IsSound (go h) sound = sound
  Move-IsSound (answer {s = s} {t = t} h r w) sound = resume-IsSound t r w s sound

  Turn-IsSound :
      {s s' : State Float W} {ts ts' : List (Task Float)} {log : List (Outcome fl)}
      → Turn app s ts s' ts' log
      → IsSound fl s
      → IsSound fl s'
  Turn-IsSound (here ts m) sound = Move-IsSound m sound
  Turn-IsSound (there t m) sound = Turn-IsSound m sound

  module _ (loads : Text → Option Json) (format : Json → Text) where
    begin-IsSound :
        (q : Request) (s : State Float W) → IsSound fl s → IsSound fl (begin app loads format q s).1
    unfolding begin
    begin-IsSound (post_feature name body) s h = h
    begin-IsSound (post_capability capability body vendor version) s h = h
    begin-IsSound (post_compose spec) s h = compose-IsSound fl app spec s h
    begin-IsSound (post_composite name body) s h = h
    begin-IsSound (post_compile body) s h = compile_agent-IsSound fl app loads format body s h
    begin-IsSound (post_chat message) s h = h

    Step-IsSound :
        {c d : Config Float W} {log : List (Outcome fl)}
        → Step app loads format c d log
        → IsSound fl c.0
        → IsSound fl d.0
    Step-IsSound (arrive {s = s} q) h = begin-IsSound q s h
    Step-IsSound (turn m) h = Turn-IsSound m h
    Step-IsSound (elsewhere {s = s} w) h = world-IsSound fl w s h

    -- However requests overlap, and whatever the invoker answers: no feature has more successes than
    -- invocations, the registry of composites has one entry for a name, and that entry is a
    -- composite of the name; if it was so at the start.
    pub Reach-IsSound :
        {s : State Float W} {c : Config Float W} {log : List (Outcome fl)}
        → Reach app loads format s c log
        → IsSound fl s
        → IsSound fl c.0
    Reach-IsSound start h = h
    Reach-IsSound (next r st) h = Step-IsSound st (Reach-IsSound r h)

-- However requests to a gateway that `create_app` has made overlap, with any catalogue, policy and
-- validator, and whatever the invoker answers: no feature has more successes than invocations, the
-- registry of composites has one entry for a name, and that entry is a composite of the name.
pub Reach-created :
    (fl : Floats) {W : Type 0} (iter_errors : Json → Fields → List SchemaError)
    (catalog : Option (Catalog W)) (invoker : Option (Invoke fl.Float W))
    (mode ranking : Option Text) (cluster dev : Catalog W × Invoke fl.Float W)
    (loads : Text → Option Json) (format : Json → Text) (w : W) {c : Config fl.Float W}
    {log : List (Outcome fl)}
    → Reach
        (create_app fl iter_errors catalog invoker mode ranking cluster dev)
        loads
        format
        (first_state fl w)
        c
        log
    → IsSound fl c.0
Reach-created fl iter_errors catalog invoker mode ranking cluster dev loads format w r =
    Reach-IsSound fl (create_app fl iter_errors catalog invoker mode ranking cluster dev) loads
      format r (first_state-IsSound fl w)
