-- ===== src/Gateway/Concurrent/Accounts.antt =====
-- No outcome is lost or counted twice, however requests overlap.
use agent_features.Common.{
  ◌≡◌, refl, sym, ap, ◌∙◌, Option, none, some, List, [], ◌∷◌, ◌++◌, Bool, true, false, is_some,
  arith,
}
use agent_features.Common.Text.{Text, codes}
use agent_features.Common.Json.{
  Json, null, bool, int, neg_int, float, str, arr, obj, get_or, get_or_null, truthy_json,
}
use agent_features.Common.Floats.{Floats}
use agent_features.Ranking.Metrics.{MetricsStore, empty_store}
use agent_features.Ranking.Metrics
use agent_features.Ranking.Metrics.Laws.{
  Outcome, record_all, outcomes_of, tallied, record_all-tally,
}
use agent_features.Composer.{Composite}
use agent_features.AgentDsl.{parse}
use agent_features.Invoker.{
  Invocation, returned, feature_input_error, feature_unavailable, other_error,
}
use agent_features.Gateway.{App, State}
use agent_features.Gateway.Compose.{compose}
use agent_features.Gateway.Compile.{compile_parsed, compile_agent}
use agent_features.Gateway.Serve.{
  Request, post_feature, post_capability, post_compose, post_composite, post_compile, post_chat,
}
use agent_features.Gateway.Concurrent.{Task, invoking, stepping, chatting, begin, resume, call_of}
use agent_features.Gateway.Concurrent.Steps.{
  awaited, outcomes, Move, go, answer, Turn, here, there, Config, Step, arrive, turn, elsewhere,
  Reach, start, next,
}

module _ {fl : Floats} where
  open fl use {Float}

  record_all-append :
      (xs ys : List (Outcome fl)) (store : MetricsStore Float)
      → record_all fl (xs ++ ys) store ≡ record_all fl ys (record_all fl xs store)
  record_all-append [] ys store = refl
  record_all-append (x ∷ xs) ys store = record_all-append xs ys _

module _ {Float W : Type 0} where
  compile_parsed-store :
      (format : Json → Text) (p : Option Composite × List Text) (published : Bool)
      (s : State Float W)
      → (compile_parsed format p published s).1.store ≡ s.store
  compile_parsed-store format (none, es) published s = refl
  compile_parsed-store format (some c, es) false s = refl
  compile_parsed-store format (some c, es) true s = refl

  compile_agent-store :
      (format : Json → Text) (body : Json) (s : State Float W)
      → (compile_agent format body s).1.store ≡ s.store
  unfolding compile_agent
  compile_agent-store format (obj body) s =
      compile_parsed-store format (parse (format (get_or (codes "source") (str []) body)))
        (truthy_json (get_or_null (codes "publish") body)) s
  compile_agent-store format null s = refl
  compile_agent-store format (bool b) s = refl
  compile_agent-store format (int n) s = refl
  compile_agent-store format (neg_int n) s = refl
  compile_agent-store format (float t) s = refl
  compile_agent-store format (str t) s = refl
  compile_agent-store format (arr vs) s = refl

module _ {fl : Floats} {W : Type 0} where
  open fl use {Float}

  module _ (app : App fl W) where
    -- what an answer counts is what its handler records
    resume-store :
        (t : Task Float) (r : Invocation Float) (s : State Float W)
        → is_some (call_of t) ≡ true
        → (resume app t r s).1.store ≡ record_all fl (outcomes fl (awaited t) r) s.store
    unfolding resume
    resume-store (invoking f body) (returned r) s h = refl
    resume-store (invoking f body) (feature_input_error m) s h = refl
    resume-store (invoking f body) (feature_unavailable m) s h = refl
    resume-store (invoking f body) other_error s h = refl
    resume-store (stepping c st later ctx trace f input) (returned r) s h = refl
    resume-store (stepping c st later ctx trace f input) (feature_input_error m) s h = refl
    resume-store (stepping c st later ctx trace f input) (feature_unavailable m) s h = refl
    resume-store (stepping c st later ctx trace f input) other_error s h = refl
    resume-store (chatting sent f payload) (returned r) s h = refl
    resume-store (chatting sent f payload) (feature_input_error m) s h = refl
    resume-store (chatting sent f payload) (feature_unavailable m) s h = refl
    resume-store (chatting sent f payload) other_error s h = refl
    resume-store t r s h = absurd (ground arith)

    Move-store :
        {s : State Float W} {t t' : Task Float} {s' : State Float W} {log : List (Outcome fl)}
        → Move app s t s' t' log
        → s'.store ≡ record_all fl log s.store
    Move-store (go h) = refl
    Move-store (answer {s = s} {t = t} h r w) = resume-store t r (record s { world = w }) h

    Turn-store :
        {s s' : State Float W} {ts ts' : List (Task Float)} {log : List (Outcome fl)}
        → Turn app s ts s' ts' log
        → s'.store ≡ record_all fl log s.store
    Turn-store (here ts m) = Move-store m
    Turn-store (there t m) = Turn-store m

    module _ (loads : Text → Option Json) (format : Json → Text) where
      begin-store :
          (q : Request) (s : State Float W) → (begin app loads format q s).1.store ≡ s.store
      unfolding begin compose
      begin-store (post_feature name body) s = refl
      begin-store (post_capability capability body vendor version) s = refl
      begin-store (post_compose spec) s = refl
      begin-store (post_composite name body) s = refl
      begin-store (post_compile body) s = compile_agent-store format body s
      begin-store (post_chat message) s = refl

      Step-store :
          {c d : Config Float W} {log : List (Outcome fl)}
          → Step app loads format c d log
          → d.0.store ≡ record_all fl log c.0.store
      Step-store (arrive {s = s} q) = begin-store q s
      Step-store (turn m) = Turn-store m
      Step-store (elsewhere w) = refl

      Reach-store :
          {s : State Float W} {c : Config Float W} {log : List (Outcome fl)}
          → Reach app loads format s c log
          → c.0.store ≡ record_all fl log s.store
      Reach-store start = refl
      Reach-store (next {log = log} {more = more} r st) =
          Step-store st
          ∙ (ap (record_all fl more) (Reach-store r) ∙ sym (record_all-append log more _))

      -- However requests overlap, from a state with no metrics: the counters of a feature are the
      -- tally of the answers that requests have had from it, in the order of the answers. Each
      -- answer with a result counts as one success with its latency, each that finds the feature
      -- unavailable as one failure, and any other answer as nothing.
      pub Reach-tally :
          {s : State Float W} {c : Config Float W} {log : List (Outcome fl)}
          → Reach app loads format s c log
          → s.store ≡ empty_store fl
          → (k : Text) → Metrics.get fl k c.0.store ≡ tallied fl none (outcomes_of fl k log)
      Reach-tally {log = log} r fresh k =
          ap (Metrics.get fl k) (Reach-store r ∙ ap (record_all fl log) fresh)
          ∙ record_all-tally fl log k
