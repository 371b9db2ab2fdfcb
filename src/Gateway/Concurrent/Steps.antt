-- ===== src/Gateway/Concurrent/Steps.antt =====
-- The steps of overlapping requests, with the outcomes that they are to count.
use agent_features.Common.{◌≡◌, Option, some, none, List, [], ◌∷◌, ◌++◌, true, false, is_some}
use agent_features.Common.Text.{Text}
use agent_features.Common.Json.{Json}
use agent_features.Common.Floats.{Floats}
use agent_features.Models.{Feature}
use agent_features.Catalog.Rank.{feature_id}
use agent_features.Ranking.Metrics.Laws.{Outcome}
use agent_features.Invoker.{Invocation, returned, feature_unavailable}
use agent_features.Gateway.{App, State}
use agent_features.Gateway.Serve.{Request}
use agent_features.Gateway.Concurrent.{
  Task, invoking, stepping, chatting, begin, proceed, resume, call_of, yielded,
}

-- the feature that a request waits for
abbrev pub awaited : {Float : Type 0} → Task Float → Option Feature
awaited (invoking f body) = some f
awaited (stepping c st later ctx trace f input) = some f
awaited (chatting sent f payload) = some f
awaited t = none

module _ (fl : Floats) where
  open fl use {Float, decimal}

  -- what an answer counts for a feature: a success with its latency, a failure, or nothing
  abbrev pub outcomes : Option Feature → Invocation Float → List (Outcome fl)
  outcomes (some f) (returned r) =
      record { feature_id = feature_id f; success = true; latency_ms = r.latency_ms } ∷ []
  outcomes (some f) (feature_unavailable m) =
      record { feature_id = feature_id f; success = false; latency_ms = decimal 0 1 } ∷ []
  outcomes f r = []

-- the state, and the requests that have arrived
abbrev pub Config : Type 0 → Type 0 → Type 0
Config Float W = State Float W × List (Task Float)

module _ {fl : Floats} {W : Type 0} (app : App fl W) where
  open fl use {Float}

  -- one request goes on, behind a yield, or behind any answer that leaves any world
  pub data Move
      : State Float W → Task Float → State Float W → Task Float → List (Outcome fl) → Type 0 where
    go : {s : State Float W} {t : Task Float} → yielded t ≡ true → Move s t s (proceed app t s) []
    answer :
        {s : State Float W} {t : Task Float}
        → is_some (call_of t) ≡ true
        → (r : Invocation Float) (w : W)
        → Move s t
            (resume app t r (record s { world = w })).1
            (resume app t r (record s { world = w })).0
            (outcomes fl (awaited t) r)

  -- one of the requests goes on
  pub data Turn
      : State Float W
        → List (Task Float)
        → State Float W
        → List (Task Float)
        → List (Outcome fl)
        → Type 0 where
    here :
        {s s' : State Float W} {t t' : Task Float} {log : List (Outcome fl)}
        (ts : List (Task Float))
        → Move s t s' t' log
        → Turn s (t ∷ ts) s' (t' ∷ ts) log
    there :
        {s s' : State Float W} {ts ts' : List (Task Float)} {log : List (Outcome fl)}
        (t : Task Float)
        → Turn s ts s' ts' log
        → Turn s (t ∷ ts) s' (t ∷ ts') log

  module _ (loads : Text → Option Json) (format : Json → Text) where
    pub data Step : Config Float W → Config Float W → List (Outcome fl) → Type 0 where
      arrive :
          {s : State Float W} {ts : List (Task Float)} (q : Request)
          → Step
              (s, ts)
              ((begin app loads format q s).1, ts ++ (begin app loads format q s).0 ∷ [])
              []
      turn :
          {s s' : State Float W} {ts ts' : List (Task Float)} {log : List (Outcome fl)}
          → Turn s ts s' ts' log
          → Step (s, ts) (s', ts') log
      -- something else changes the world
      elsewhere :
          {s : State Float W} {ts : List (Task Float)} (w : W)
          → Step (s, ts) (record s { world = w }, ts) []

    -- what can be reached from a state without requests, and the outcomes on the way
    pub data Reach (s₀ : State Float W) : Config Float W → List (Outcome fl) → Type 0 where
      start : Reach s₀ (s₀, []) []
      next :
          {c d : Config Float W} {log more : List (Outcome fl)}
          → Reach s₀ c log
          → Step c d more
          → Reach s₀ d (log ++ more)
