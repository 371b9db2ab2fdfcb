-- ===== src/Gateway/Concurrent/Halting.antt =====
-- Overlapping requests come to an end. The invoker answers at last: an answer is a turn.
use agent_features.Common.{
  ℕ, suc, ◌+◌, ◌≤◌, ◌<◌, ◌≡◌, Option, none, some, List, [], ◌∷◌, true, false, is_some, length,
  Bool-cases, inl, inr, arith,
}
use agent_features.Common.Text.{Text, truthy?}
use agent_features.Common.Json.{Json, Fields, obj, end}
use agent_features.Common.Floats.{Floats}
use agent_features.Models.{Feature}
use agent_features.Composer.{Composite, TraceEntry, Filled, filled, stopped, fill, entry}
use agent_features.Composer
use agent_features.Ranking.Metrics.Laws.{Outcome}
use agent_features.Invoker.{Invocation}
use agent_features.Gateway.{App, State, ranked, input_errors}
use agent_features.Gateway.Compose.{Running, step_answer}
use agent_features.Gateway.Chat.{ChatEvent}
use agent_features.Gateway.Concurrent.{
  Task, done, invoking, stepping, listing, resolving, announced, chatting, advance_checked,
  advance_best, advance_filled, advance, after_step, announce_best, chat_call, proceed, resume,
  call_of, yielded,
}
use agent_features.Gateway.Concurrent.Steps.{Move, go, answer, Turn, here, there, Config}

module _ {Float : Type 0} where
  abbrev pub IsAnswered : Task Float → Type 0
  IsAnswered (done reply) = Unit
  IsAnswered t = ⊥

  -- how often a request can still go on
  unfoldable pub weight : Task Float → ℕ
  weight (done reply) = 0
  weight (invoking f body) = 1
  weight (stepping c st later ctx trace f input) = suc (length later)
  weight listing = 1
  weight (resolving sent capability payload) = 3
  weight (announced sent f payload) = 2
  weight (chatting sent f payload) = 1

  unfoldable pub total : List (Task Float) → ℕ
  total [] = 0
  total (t ∷ ts) = weight t + total ts

module _ {fl : Floats} {W : Type 0} (app : App fl W) where
  open fl use {Float}

  -- the requests go on, one at a time, in `n` turns, while others change the world
  pub data Run : Config Float W → Config Float W → ℕ → Type 0 where
    stop : {c : Config Float W} → Run c c 0
    turned :
        {s s' : State Float W} {ts ts' : List (Task Float)} {log : List (Outcome fl)}
        {d : Config Float W} {n : ℕ}
        → Turn app s ts s' ts' log
        → Run (s', ts') d n
        → Run (s, ts) d (suc n)
    changed :
        {s : State Float W} {ts : List (Task Float)} {d : Config Float W} {n : ℕ} (w : W)
        → Run (record s { world = w }, ts) d n
        → Run (s, ts) d n

  checked-weight :
      (es : List Text) (c : Composite) (st : Composer.Step) (later : List Composer.Step)
      (ctx : Fields) (trace : List TraceEntry) (f : Feature) (input : Fields)
      → weight (advance_checked app es c st later ctx trace f input) ≤ suc (length later)
  unfolding weight
  checked-weight (e ∷ es) c st later ctx trace f input = omega arith
  checked-weight [] c st later ctx trace f input = omega arith

  best-weight :
      (fs : List Feature) (c : Composite) (st : Composer.Step) (later : List Composer.Step)
      (ctx : Fields) (trace : List TraceEntry) (input : Fields)
      → weight (advance_best app fs c st later ctx trace input) ≤ suc (length later)
  unfolding weight
  best-weight [] c st later ctx trace input = omega arith
  best-weight (f ∷ fs) c st later ctx trace input =
      checked-weight (input_errors app f (obj input)) c st later ctx trace f input

  filled-weight :
      (p : Filled) (c : Composite) (st : Composer.Step) (later : List Composer.Step) (ctx : Fields)
      (trace : List TraceEntry) (s : State Float W)
      → weight (advance_filled app p c st later ctx trace s) ≤ suc (length later)
  unfolding weight
  filled-weight (stopped message) c st later ctx trace s = omega arith
  filled-weight (filled input) c st later ctx trace s =
      best-weight (ranked app st.capability st.vendor st.version s) c st later ctx trace input

  pub advance-weight :
      (c : Composite) (steps : List Composer.Step) (ctx : Fields) (trace : List TraceEntry)
      (s : State Float W)
      → weight (advance app c steps ctx trace s) ≤ length steps
  unfolding advance weight
  advance-weight c [] ctx trace s = omega arith
  advance-weight c (st ∷ later) ctx trace s =
      filled-weight (fill st.inputs ctx end) c st later ctx trace s

  after_step-weight :
      (c : Composite) (st : Composer.Step) (later : List Composer.Step) (ctx : Fields)
      (trace : List TraceEntry) (p : (Option Fields × Option Text) × Running Float W)
      → weight (after_step app c st later ctx trace p).0 ≤ length later
  unfolding weight
  after_step-weight c st later ctx trace (r, (s, true)) = omega arith
  after_step-weight c st later ctx trace ((none, err), (s, false)) = omega arith
  after_step-weight c st later ctx trace ((some out, err), (s, false)) =
      elim (Bool-cases (truthy? err)) [
        | inl h ↦ rw h (omega arith)
        | inr h ↦ rw h (advance-weight c later _ _ s)
      ]

  announce_best-weight :
      (sent : List (ChatEvent Float)) (fs : List Feature) (capability : Text) (payload : Json)
      → weight (announce_best app sent fs capability payload) ≤ 2
  unfolding weight
  announce_best-weight sent [] capability payload = omega arith
  announce_best-weight sent (f ∷ fs) capability payload = omega arith

  chat_call-weight :
      (sent : List (ChatEvent Float)) (es : List Text) (f : Feature) (payload : Json)
      → weight (chat_call app sent es f payload) ≤ 1
  unfolding weight
  chat_call-weight sent [] f payload = omega arith
  chat_call-weight sent (e ∷ es) f payload = omega arith

  pub proceed-weight :
      (t : Task Float) (s : State Float W) → yielded t ≡ true → weight (proceed app t s) < weight t
  unfolding weight proceed
  proceed-weight listing s h = omega arith
  proceed-weight (resolving sent capability payload) s h =
      omega
        (arith, announce_best-weight sent (ranked app capability none none s) capability payload)
  proceed-weight (announced sent f payload) s h =
      omega (arith, chat_call-weight sent (input_errors app f payload) f payload)
  proceed-weight t s h = absurd (ground arith)

  pub resume-weight :
      (t : Task Float) (r : Invocation Float) (s : State Float W)
      → is_some (call_of t) ≡ true
      → weight (resume app t r s).0 < weight t
  unfolding weight resume
  resume-weight (invoking f body) r s h = omega arith
  resume-weight (stepping c st later ctx trace f input) r s h =
      omega (arith, after_step-weight c st later ctx trace (step_answer app f r s false))
  resume-weight (chatting sent f payload) r s h = omega arith
  resume-weight t r s h = absurd (ground arith)

  Move-weight :
      {s : State Float W} {t t' : Task Float} {s' : State Float W} {log : List (Outcome fl)}
      → Move app s t s' t' log
      → weight t' < weight t
  Move-weight (go {s = s} {t = t} h) = proceed-weight t s h
  Move-weight (answer {s = s} {t = t} h r w) = resume-weight t r (record s { world = w }) h

  pub Turn-total :
      {s s' : State Float W} {ts ts' : List (Task Float)} {log : List (Outcome fl)}
      → Turn app s ts s' ts' log
      → total ts' < total ts
  unfolding total
  Turn-total (here ts m) = omega (arith, Move-weight m)
  Turn-total (there t m) = omega (arith, Turn-total m)

  -- However the waiting requests take their turns, and whatever the invoker answers: each turn
  -- lowers a total in which an unanswered request counts at most the steps that are left of its
  -- composite, with the step that it is in, and three where it is not a composite's. So no run of
  -- turns is longer than that total at its start, and the total at its end still has that room.
  pub Run-total : {c d : Config Float W} {n : ℕ} → Run c d n → n + total d.1 ≤ total c.1
  Run-total stop = omega arith
  Run-total (turned m r) = omega (arith, Turn-total m, Run-total r)
  Run-total (changed w r) = Run-total r
