-- ===== src/Gateway/Serve/Laws.antt =====
-- What holds of the gateway's state behind any requests.
use agent_features.Common.{Bool, Option, none, some, List, [], ◌∷◌, true, false, ◌||◌, not, if-both}
use agent_features.Common.Text.{Text, codes, ◌==◌, truthy, strip, partition, after}
use agent_features.Common.Dict.{get}
use agent_features.Common.Json.{
  Json, null, bool, int, neg_int, float, str, arr, obj, get_or, get_or_null, truthy_json,
}
use agent_features.Composer.{Composite}
use agent_features.AgentDsl.{parse}
use agent_features.Gateway.Compile.{compile_parsed, compile_agent}
use agent_features.Common.Floats.{Floats}
use agent_features.Models.{Feature, default_context}
use agent_features.Invoker.{
  Invocation, returned, feature_input_error, feature_unavailable, other_error,
}
use agent_features.Gateway.{App, State, ranked, input_errors}
use agent_features.Gateway.Features.{invoke_feature}
use agent_features.Gateway.Compose.{compose, invoke_composite}
use agent_features.Gateway.Chat.{
  help, listed, ChatEvent, chat_end, chat_checked, chat_invoke, chat_best, chat_capability,
  chat_found, chat_feature, chat_command, chat,
}
use agent_features.Gateway.Serve.{
  Request, post_feature, post_capability, post_compose, post_composite, post_compile, post_chat,
  serve, serve_all,
}
use agent_features.Gateway.Serve.Sound.{
  IsSound, count-IsSound, world-IsSound, invoke_capability-IsSound, invoke_found-IsSound,
  compose-IsSound, run_found-IsSound,
}

module _ (fl : Floats) {W : Type 0} where
  open fl use {Float, decimal}

  module _ (app : App fl W) where
    pub chat_end-IsSound :
        (f : Feature) (r : Invocation Float) (w : W) (s : State Float W)
        → IsSound fl s
        → IsSound fl (chat_end app f r (record s { world = w })).1
    chat_end-IsSound f (returned r) w s h = count-IsSound fl f true r.latency_ms w s h
    chat_end-IsSound f (feature_input_error m) w s h = world-IsSound fl w s h
    chat_end-IsSound f (feature_unavailable m) w s h = count-IsSound fl f false (decimal 0 1) w s h
    chat_end-IsSound f other_error w s h = world-IsSound fl w s h

    chat_checked-IsSound :
        (es : List Text) (f : Feature) (payload : Json) (s : State Float W)
        → IsSound fl s
        → IsSound fl (chat_checked app es f payload s).1
    chat_checked-IsSound (e ∷ es) f payload s h = h
    chat_checked-IsSound [] f payload s h =
        let (r, w) = app.invoker f.manifest.name payload default_context s.world in
        chat_end-IsSound f r w s h

    chat_best-IsSound :
        (fs : List Feature) (capability : Text) (payload : Json) (s : State Float W)
        → IsSound fl s
        → IsSound fl (chat_best app fs capability payload s).1
    unfolding chat_invoke
    chat_best-IsSound [] capability payload s h = h
    chat_best-IsSound (f ∷ fs) capability payload s h =
        chat_checked-IsSound (input_errors app f payload) f payload s h

    chat_found-IsSound :
        (found : Option Feature) (head : Text) (payload : Json) (s : State Float W)
        → IsSound fl s
        → IsSound fl (chat_found app found head payload s).1
    unfolding chat_invoke
    chat_found-IsSound none head payload s h = h
    chat_found-IsSound (some f) head payload s h =
        chat_checked-IsSound (input_errors app f payload) f payload s h

    chat_command-IsSound :
        (head : Text) (payload : Option Json) (s : State Float W)
        → IsSound fl s
        → IsSound fl (chat_command app head payload s).1
    unfolding chat_capability chat_feature
    chat_command-IsSound head none s h = h
    chat_command-IsSound head (some payload) s h =
        if-both (λ (p : List (ChatEvent Float) × State Float W). IsSound fl p.1) _
          (chat_best-IsSound (ranked app (after (codes "cap:") head) none none s)
            (after (codes "cap:") head) payload s h)
          (chat_found-IsSound (app.catalog.get head s.world) head payload s h)

    module _ (loads : Text → Option Json) where
      chat-IsSound :
          (message : Text) (s : State Float W)
          → IsSound fl s
          → IsSound fl (chat app loads message s).1
      unfolding chat
      chat-IsSound message s h =
          if-both sound (not (truthy line) || line == codes "help") {x = (help, s)} h (
            if-both sound (line == codes "list")
              {x = (listed (app.catalog.list none none s.world), s)} h
              (chat_command-IsSound (partition b' ' line).0 _ s h))
        where
          sound : List (ChatEvent Float) × State Float W → Type 0
          sound p = IsSound fl p.1

          line : Text
          line = strip message

      compile_parsed-IsSound :
          (format : Json → Text) (p : Option Composite × List Text) (published : Bool)
          (s : State Float W)
          → IsSound fl s
          → IsSound fl (compile_parsed format p published s).1
      compile_parsed-IsSound format (none, es) published s h = h
      compile_parsed-IsSound format (some c, es) false s h = h
      compile_parsed-IsSound format (some c, es) true s h =
          unfold compose in compose-IsSound fl app c s h

      pub compile_agent-IsSound :
          (format : Json → Text) (body : Json) (s : State Float W)
          → IsSound fl s
          → IsSound fl (compile_agent format body s).1
      unfolding compile_agent
      compile_agent-IsSound format null s h = h
      compile_agent-IsSound format (bool b) s h = h
      compile_agent-IsSound format (int n) s h = h
      compile_agent-IsSound format (neg_int n) s h = h
      compile_agent-IsSound format (float t) s h = h
      compile_agent-IsSound format (str t) s h = h
      compile_agent-IsSound format (arr vs) s h = h
      compile_agent-IsSound format (obj body) s h =
          compile_parsed-IsSound format (parse (format (get_or (codes "source") (str []) body)))
            (truthy_json (get_or_null (codes "publish") body)) s h

      serve-IsSound :
          (format : Json → Text) (q : Request) (s : State Float W)
          → IsSound fl s
          → IsSound fl (serve app loads format q s)
      unfolding serve invoke_feature invoke_composite
      serve-IsSound format (post_feature name body) s h =
          invoke_found-IsSound fl app (app.catalog.get name s.world) name body s h
      serve-IsSound format (post_capability capability body vendor version) s h =
          invoke_capability-IsSound fl app capability body vendor version s h
      serve-IsSound format (post_compose spec) s h = compose-IsSound fl app spec s h
      serve-IsSound format (post_composite name body) s h =
          run_found-IsSound fl app (get name s.composites) name body.input s h
      serve-IsSound format (post_compile body) s h = compile_agent-IsSound format body s h
      serve-IsSound format (post_chat message) s h = chat-IsSound message s h

      -- Any requests, one after another, whatever they are and whatever the invoker answers, keep
      -- this: no feature has more successes than invocations, the registry of composites has one
      -- entry for a name, and that entry is a composite of the name.
      pub serve_all-IsSound :
          (format : Json → Text) (qs : List Request) (s : State Float W)
          → IsSound fl s
          → IsSound fl (serve_all app loads format qs s)
      unfolding serve_all
      serve_all-IsSound format [] s h = h
      serve_all-IsSound format (q ∷ qs) s h =
          serve_all-IsSound format qs (serve app loads format q s) (serve-IsSound format q s h)
