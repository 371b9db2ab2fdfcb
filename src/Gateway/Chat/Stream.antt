-- ===== src/Gateway/Chat/Stream.antt =====
-- gateway/main.py: the route chat_stream, with the frames of its events. `json.dumps`, and str() of
-- a JSON value, are parameters, and so is a float as a JSON value. The text of the stream is what a
-- client that reads to the end gets.
pub mod Frames
use agent_features.Common.{Option, none, some, List, [], ◌∷◌, ◌++◌}
use agent_features.Common.Text.{Text, codes}
use agent_features.Common.Json.{Json, str, obj, Fields, end, field, get_or}
use agent_features.Common.Floats.{Floats}
use agent_features.Gateway.{App, State, Response, ok, server_error}
use agent_features.Gateway.Chat.{ChatEvent, status, error, result, broken, chat}

module _ {Float : Type 0} (number : Float → Json) where
  -- the dictionary of an event, none where the stream breaks off
  abbrev pub event_fields : ChatEvent Float → Option Fields
  event_fields (status t) =
      some (field (codes "type") (str (codes "status")) (field (codes "text") (str t) end))
  event_fields (error message) =
      some (field (codes "type") (str (codes "error")) (field (codes "message") (str message) end))
  event_fields (result feature vendor output latency_ms) = some (
      field (codes "type") (str (codes "result")) (
        field (codes "feature") (str feature) (
          field (codes "vendor") (str vendor) (
            field (codes "output") (obj output)
              (field (codes "latency_ms") (number latency_ms) end)))))
  event_fields broken = none

  module _ (dumps : Fields → Text) where
    -- f"data: {json.dumps(event)}\n\n"
    abbrev pub frame : Fields → Text
    frame event = codes "data: " ++ dumps event ++ codes "\n\n"

    -- the frames up to where the stream breaks off
    unfoldable pub sse : List (ChatEvent Float) → Text
    sse [] = []
    sse (e ∷ es) = elim (event_fields e) [ none ↦ [] | some event ↦ frame event ++ sse es ]

module _ {fl : Floats} {W : Type 0} (app : App fl W) (loads : Text → Option Json)
    (format : Json → Text) (number : fl.Float → Json) (dumps : Fields → Text) where
  open fl use {Float}

  -- a body that is no dictionary has no `get`
  unfoldable pub chat_stream : Json → State Float W → Response Text × State Float W
  unfolding chat sse
  chat_stream (obj body) s =
      let (events, s') = chat app loads (format (get_or (codes "message") (str []) body)) s in
      (ok (sse number dumps events), s')
  chat_stream body s = (server_error, s)
