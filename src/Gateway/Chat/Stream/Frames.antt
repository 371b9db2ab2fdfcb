-- ===== src/Gateway/Chat/Stream/Frames.antt =====
-- A client of the stream reads the events back.
use agent_features.Common.{
  ◌≡◌, refl, ap, ap₂, ◌∙◌, Option, none, some, List, [], ◌∷◌, ◌++◌, map, true, false, eqb, All,
  keep, Bool, ◌&&◌, if◌then◌else◌,
}
use mathlib.Core.List.{append_assoc}
use agent_features.Common.Text.{Text, codes, split, starts_with, after}
use agent_features.Common.Text.Laws.{split-append}
use agent_features.Common.Json.{Json, obj, Fields}
use agent_features.Gateway.Chat.{ChatEvent, status, error, result, broken}
use agent_features.Gateway.Chat.Stream.{event_fields, frame, sse}

-- the data of the frames: what stands behind `data: ` on a line
abbrev pub frame_data : Text → List Text
frame_data stream =
    map (after (codes "data: "))
      (keep (λ line. starts_with line (codes "data: ")) (split b'\n' stream))

abbrev is_blank : List Text → Bool
is_blank ([] ∷ lines) = true
is_blank lines = false

abbrev ended_lines : List Text → List Text
ended_lines [] = []
ended_lines (line ∷ lines) =
    let rest = ended_lines lines in
    if starts_with line (codes "data: ") && is_blank lines
    then after (codes "data: ") line ∷ rest
    else rest

-- the data of the frames that a blank line ends
abbrev pub ended_data : Text → List Text
ended_data stream = ended_lines (split b'\n' stream)

-- a text on one line
abbrev pub OneLine : Text → Type 0
OneLine t = All (λ c. eqb c b'\n' ≡ false) t

module _ {Float : Type 0} (number : Float → Json) (dumps : Fields → Text) where
  -- the dictionaries of the events up to where the stream breaks off
  abbrev pub sent : List (ChatEvent Float) → List Fields
  sent [] = []
  sent (e ∷ es) = elim (event_fields number e) [ none ↦ [] | some event ↦ event ∷ sent es ]

  module _ (one_line : (d : Fields) → OneLine (dumps d)) where
    -- the lines of a frame in front of a stream
    split-frame :
        (event : Fields) (stream : Text)
        → split b'\n' (frame number dumps event ++ stream)
          ≡ (codes "data: " ++ dumps event) ∷ [] ∷ split b'\n' stream
    unfolding split
    split-frame event stream =
        let line = codes "data: " ++ dumps event in
        ap (split b'\n') (append_assoc line (codes "\n\n") stream)
        ∙ split-append b'\n' line (b'\n' ∷ stream)
            (refl, (refl, (refl, (refl, (refl, (refl, one_line event))))))

    -- a frame in front of a stream is one more line of data, and a blank line ends it
    frame-data :
        (event : Fields) (stream : Text)
        → frame_data (frame number dumps event ++ stream) ≡ dumps event ∷ frame_data stream
    frame-data event stream =
        ap
          (λ lines. map (after (codes "data: ")) (keep (λ l. starts_with l (codes "data: ")) lines))
          (split-frame event stream)

    frame-ended :
        (event : Fields) (stream : Text)
        → ended_data (frame number dumps event ++ stream) ≡ dumps event ∷ ended_data stream
    frame-ended event stream = ap ended_lines (split-frame event stream)

    -- a reader of a stream that takes one frame after another
    module _ (read : Text → List Text) (none_left : read [] ≡ [])
        (read_frame : (event : Fields) (stream : Text)
          → read (frame number dumps event ++ stream) ≡ dumps event ∷ read stream) where
      one_more :
          (event : Fields) (es : List (ChatEvent Float))
          → read (sse number dumps es) ≡ map dumps (sent es)
          → read (frame number dumps event ++ sse number dumps es)
            ≡ dumps event ∷ map dumps (sent es)
      one_more event es h = read_frame event (sse number dumps es) ∙ ap (◌∷◌ (dumps event)) h

      sse-read : (es : List (ChatEvent Float)) → read (sse number dumps es) ≡ map dumps (sent es)
      unfolding sse
      sse-read [] = none_left
      sse-read (status t ∷ es) = one_more _ es (sse-read es)
      sse-read (error m ∷ es) = one_more _ es (sse-read es)
      sse-read (result f v o l ∷ es) = one_more _ es (sse-read es)
      sse-read (broken ∷ es) = none_left

    map-loads :
        (loads : Text → Option Json)
        → ((d : Fields) → loads (dumps d) ≡ some (obj d))
        → (ds : List Fields) → map loads (map dumps ds) ≡ map (λ d. some (obj d)) ds
    map-loads loads reads [] = refl
    map-loads loads reads (d ∷ ds) = ap₂ ◌∷◌ (reads d) (map-loads loads reads ds)

    -- Where json.dumps writes one line, and json.loads reads back what it writes: a client that takes
    -- the lines of the stream that begin with `data: `, and reads what stands behind that, has the
    -- dictionaries of all events up to where the stream breaks off, in order; and so has a client
    -- that takes only those of these lines that a blank line follows.
    pub sse-reads :
        (loads : Text → Option Json)
        → ((d : Fields) → loads (dumps d) ≡ some (obj d))
        → (es : List (ChatEvent Float))
        → (map loads (frame_data (sse number dumps es)) ≡ map (λ d. some (obj d)) (sent es))
          × (map loads (ended_data (sse number dumps es)) ≡ map (λ d. some (obj d)) (sent es))
    unfolding split
    sse-reads loads reads es =
        let loaded = map-loads loads reads (sent es) in
        (
          ap (map loads) (sse-read frame_data refl frame-data es) ∙ loaded,
          ap (map loads) (sse-read ended_data refl frame-ended es) ∙ loaded,
        )
