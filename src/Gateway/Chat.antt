-- ===== src/Gateway/Chat.antt =====
-- gateway/main.py: the chat console. `json.loads` is a parameter, none where it raises ValueError.
-- A stream is the list of its events, for a client that reads it to the end.
pub mod Laws
pub mod Stream
use agent_features.Common.{
  Option, none, some, List, [], ◌∷◌, ◌++◌, map, Bool, true, false, not, ◌||◌, if◌then◌else◌,
}
use agent_features.Common.Text.{
  Text, codes, ◌==◌, truthy, strip, join, starts_with, after, partition,
}
use agent_features.Common.Json.{Json, obj, Fields, end}
use agent_features.Common.Floats.{Floats}
use agent_features.Models.{Feature, default_context}
use agent_features.Invoker.{
  Invocation, returned, feature_input_error, feature_unavailable, other_error,
}
use agent_features.Gateway.{App, State, ranked, input_errors, count}

pub data ChatEvent (Float : Type 0) : Type 0 where
  status : Text → ChatEvent Float
  error : (message : Text) → ChatEvent Float
  result : (feature vendor : Text) → Fields → (latency_ms : Float) → ChatEvent Float
  -- the stream breaks off at an exception that `_chat` does not catch
  broken : ChatEvent Float

abbrev pub help : {Float : Type 0} → List (ChatEvent Float)
help =
    status (codes "Commands:")
    ∷ status (codes "  <feature> {json}         invoke a feature")
    ∷ status (codes "  cap:<capability> {json}  invoke the best-ranked provider")
    ∷ status (codes "  list                     list available features")
    ∷ []

abbrev listed_line : {Float : Type 0} → Feature → ChatEvent Float
listed_line f =
    status (codes "  " ++ f.manifest.name ++ codes " (" ++ f.manifest.capability ++ codes ")")

-- the features, by name and capability
abbrev pub listed : {Float : Type 0} → List Feature → List (ChatEvent Float)
listed fs = status (codes "features:") ∷ map listed_line fs

module _ {fl : Floats} {W : Type 0} (app : App fl W) where
  open fl use {Float, decimal}

  -- what `_chat` does with the end of the invocation
  abbrev pub chat_end :
      Feature → Invocation Float → State Float W → List (ChatEvent Float) × State Float W
  chat_end f (returned r) s = (
    result f.manifest.name f.manifest.vendor r.output r.latency_ms ∷ [],
    count fl f true r.latency_ms s,
  )
  chat_end f (feature_input_error m) s = (error (codes "the feature rejected the input") ∷ [], s)
  chat_end f (feature_unavailable m) s =
      (error (codes "the feature is currently unavailable") ∷ [], count fl f false (decimal 0 1) s)
  chat_end f other_error s = (broken ∷ [], s)

  abbrev pub chat_checked :
      List Text → Feature → Json → State Float W → List (ChatEvent Float) × State Float W
  chat_checked (e ∷ es) f payload s =
      (error (codes "invalid input: " ++ join (codes "; ") (e ∷ es)) ∷ [], s)
  chat_checked [] f payload s =
      let (r, w') = app.invoker f.manifest.name payload default_context s.world in
      chat_end f r (record s { world = w' })

  -- from the line that says which feature is invoked
  unfoldable pub chat_invoke :
      Feature → Json → State Float W → List (ChatEvent Float) × State Float W
  chat_invoke f payload s =
      let (events, s') = chat_checked (input_errors app f payload) f payload s in
      (
        status (codes "invoking " ++ f.manifest.vendor ++ codes "/" ++ f.manifest.name ++ codes "…")
            ∷ events,
        s',
      )

  -- the ranked providers, invoked at the head
  abbrev pub chat_best :
      List Feature → Text → Json → State Float W → List (ChatEvent Float) × State Float W
  chat_best [] capability payload s =
      (error (codes "no provider for capability '" ++ capability ++ codes "'") ∷ [], s)
  chat_best (f ∷ fs) capability payload s = chat_invoke f payload s

  -- cap:<capability> {json}
  unfoldable pub chat_capability :
      Text → Json → State Float W → List (ChatEvent Float) × State Float W
  unfolding ranked chat_invoke
  chat_capability capability payload s =
      let (events, s') = chat_best (ranked app capability none none s) capability payload s in
      (status (codes "resolving capability '" ++ capability ++ codes "'…") ∷ events, s')

  abbrev pub chat_found :
      Option Feature → Text → Json → State Float W → List (ChatEvent Float) × State Float W
  chat_found none head payload s =
      (error (codes "unknown feature '" ++ head ++ codes "' (try 'list')") ∷ [], s)
  chat_found (some f) head payload s = chat_invoke f payload s

  -- <feature> {json}
  unfoldable pub chat_feature : Text → Json → State Float W → List (ChatEvent Float) × State Float W
  unfolding chat_invoke
  chat_feature head payload s = chat_found (app.catalog.get head s.world) head payload s

  -- behind json.loads
  abbrev pub chat_command :
      Text → Option Json → State Float W → List (ChatEvent Float) × State Float W
  chat_command head none s = (error (codes "the text after the command must be valid JSON") ∷ [], s)
  chat_command head (some payload) s =
      if starts_with head (codes "cap:")
      then chat_capability (after (codes "cap:") head) payload s
      else chat_feature head payload s

  module _ (loads : Text → Option Json) where
    abbrev pub chat_line : Text → State Float W → List (ChatEvent Float) × State Float W
    chat_line line s =
        let (head, tail) = partition b' ' line in
        chat_command head (if truthy (strip tail) then loads tail else some (obj end)) s

    abbrev pub chat_listing : Text → State Float W → List (ChatEvent Float) × State Float W
    chat_listing line s =
        if line == codes "list"
        then (listed (app.catalog.list none none s.world), s)
        else chat_line line s

    -- `_chat`
    unfoldable pub chat : Text → State Float W → List (ChatEvent Float) × State Float W
    unfolding strip chat_capability chat_feature
    chat message s =
        let line = strip message in
        if not (truthy line) || line == codes "help" then (help, s) else chat_listing line s
