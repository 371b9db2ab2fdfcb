-- ===== src/Tests/Routes.antt =====
-- The routes at the features of the tests.
use agent_features.Common.{◌≡◌, refl, ◌⊎◌, Option, none, some, List, [], ◌∷◌, map, false, All}
use agent_features.Common.Text.{Text, codes}
use agent_features.Common.Json.{Json, obj, end}
use agent_features.Models.{Feature}
use agent_features.Catalog.Rank.Resolve.{IsCandidate}
use agent_features.Gateway.{ok, Detail, http_error, texts, input_errors}
use agent_features.Gateway.Features.Rankings.{invoke_capability-get_capability}
use agent_features.Gateway.Features.{
  get_capability, capability_ranking, provider_score, invoke, invoke_capability, no_provider,
}
use agent_features.Gateway.Features.Laws.{
  Accounted, invoke-Accounted, IsChosen, invoke_capability-IsChosen,
}
use agent_features.Gateway.Compose.{run_capability}
use agent_features.Gateway.Compose.Laws.{request, Agree, run_capability-Agree}
use agent_features.Gateway.Chat.{chat_capability}
use agent_features.Gateway.Chat.Laws.{Streams, chat_capability-Streams}
use agent_features.Tests.Data.{program, app, start, greeter, polite, feature_of, input, body}

-- a call that is answered, and one that the input's check stops
calls :
    ((invoke app (feature_of greeter) body start).1.world ≡ 1)
    × ((invoke app (feature_of greeter) (request end) start).1.world ≡ 0)
unfolding program
calls = (refl, refl)

invoke-Accounted_example :
    let f = feature_of polite in
    let (r, s') = invoke app f body start in
    Accounted app f r start s'
    × (s'.composites ≡ start.composites)
    × ((input_errors app f (obj input) ≡ [])
        ⊎ ((r ≡ http_error 422 (texts (input_errors app f (obj input)))) × (s' ≡ start)))
invoke-Accounted_example = invoke-Accounted app (feature_of polite) body start

invoke_capability-IsChosen_example :
    ((f : Feature) × IsChosen app (codes "greet") none (some (codes "^2.0")) start f
      × (invoke_capability app (codes "greet") body none (some (codes "^2.0")) start
          ≡ invoke app f body start))
    ⊎ ((invoke_capability app (codes "greet") body none (some (codes "^2.0")) start
          ≡ (http_error 404 (no_provider (codes "greet") none (some (codes "^2.0"))), start))
        × All
            (λ f. ¬ IsCandidate (codes "greet") (some (codes "^2.0")) none f)
            (app.catalog.list none none start.world))
invoke_capability-IsChosen_example =
    invoke_capability-IsChosen app (codes "greet") body none (some (codes "^2.0")) start

invoke_capability-get_capability_example :
    (((d : Detail) × (get_capability app (codes "greet") start ≡ http_error 404 d)
        × (capability_ranking app (codes "greet") start ≡ http_error 404 d))
      × (invoke_capability app (codes "greet") body none none start
          ≡ (http_error 404 (no_provider (codes "greet") none none), start)))
    ⊎ ((f : Feature) × (fs : List Feature) × (get_capability app (codes "greet") start
          ≡ ok (f ∷ fs))
        × (capability_ranking app (codes "greet") start
            ≡ ok (map (provider_score app start) (f ∷ fs)))
        × (invoke_capability app (codes "greet") body none none start ≡ invoke app f body start))
invoke_capability-get_capability_example =
    invoke_capability-get_capability app (codes "greet") body start

run_capability-Agree_example :
    Agree app
      (invoke_capability app (codes "greet") (request input) none none start)
      (run_capability app (codes "greet") input none none (start, false))
run_capability-Agree_example = run_capability-Agree app (codes "greet") input none none start

chat_capability-Streams_example :
    Streams app
      (invoke_capability app (codes "greet") (request input) none none start)
      (chat_capability app (codes "greet") (obj input) start)
chat_capability-Streams_example = chat_capability-Streams app (codes "greet") input start

abbrev pub loads : Text → Option Json
loads line = some (obj input)

abbrev pub written : Json → Text
written v = codes "agent a\nstep s = greet(name: input.name)"
