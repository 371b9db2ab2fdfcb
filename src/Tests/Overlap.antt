-- ===== src/Tests/Overlap.antt =====
-- Two requests that overlap.
use agent_features.Common.{ℕ, ◌+◌, ◌≤◌, ◌≡◌, refl, none, some, List, [], ◌∷◌, ◌++◌, All}
use agent_features.Common.Text.{codes}
use agent_features.Catalog.Rank.{feature_id}
use agent_features.Invoker.{Invocation, returned, feature_unavailable}
use agent_features.Ranking.Metrics.{empty_store}
use agent_features.Ranking.Metrics
use agent_features.Ranking.Metrics.Laws.{Outcome, outcomes_of, tallied}
use agent_features.Ranking.Policy.{rank, metrics_score, trust_prior}
use agent_features.Common.Json.{str, end, field}
use agent_features.Composer.{CompositeResult, fill, resolve_ref}
use agent_features.Composer.Laws.{Records, Ended, caller_context}
use agent_features.Gateway.{App, State, ok}
use agent_features.Gateway.Concurrent.Traces.{Course, stay, move, Course-trace}
use agent_features.Gateway.Serve.{Request, post_feature, post_composite}
use agent_features.Gateway.Serve.Sound.{IsSound}
use agent_features.Gateway.Wiring.{create_app, first_state}
use agent_features.Gateway.Concurrent.{Task, done, ran, advance, begin, resume}
use agent_features.Gateway.Concurrent.Steps.{
  awaited, outcomes, answer, here, there, Config, arrive, turn, Reach, start, next,
}
use agent_features.Gateway.Concurrent.Accounts.{Reach-tally}
use agent_features.Gateway.Concurrent.Sound.{Reach-created}
use agent_features.Gateway.Concurrent.Halting.{IsAnswered, total, Run, stop, turned, Run-total}
use agent_features.Gateway.Concurrent.Progress.{Driven, Run-complete}
use agent_features.Tests.Data.{program, milli, Milli, app, input, body, report}
use agent_features.Tests.Data
use agent_features.Tests.Routes.{loads, written}

-- the feature `greeter`, and a composite that needs it
abbrev by_name : Request
by_name = post_feature (codes "greeter") body

abbrev by_composite : Request
by_composite = post_composite (codes "report") body

-- both wait for the feature
abbrev waiting : List (Task Milli)
waiting =
    (begin app loads written by_name Data.start).0
    ∷ (begin app loads written by_composite Data.start).0
    ∷ []

abbrev greeted : Invocation Milli
greeted = returned (record { output = input; latency_ms = (7000, 0) })

abbrev down : Invocation Milli
down = feature_unavailable (codes "down")

-- the composite's step is answered first
abbrev after_first : Task Milli × State Milli ℕ
after_first =
    resume app (begin app loads written by_composite Data.start).0 greeted
      (record Data.start { world = 1 })

abbrev after_second : Task Milli × State Milli ℕ
after_second =
    resume app (begin app loads written by_name Data.start).0 down
      (record after_first.1 { world = 2 })

abbrev answered : List (Outcome milli)
answered =
    outcomes milli (awaited (begin app loads written by_composite Data.start).0) greeted
    ++ outcomes milli (awaited (begin app loads written by_name Data.start).0) down

overlapping :
    Reach app loads written Data.start
      (after_second.1, after_second.0 ∷ after_first.0 ∷ [])
      answered
unfolding program begin rank metrics_score Metrics.get trust_prior
overlapping =
    next
      (next (next (next start (arrive by_name)) (arrive by_composite))
        (turn (there _ (here [] (answer refl greeted 1)))))
      (turn (here _ (answer refl down 2)))

Reach-tally_example :
    Metrics.get milli (codes "acme/greeter@1.2.0") after_second.1.store
    ≡ tallied milli none (outcomes_of milli (codes "acme/greeter@1.2.0") answered)
Reach-tally_example = Reach-tally app loads written overlapping refl (codes "acme/greeter@1.2.0")

-- the two answers are one success and one failure
counted :
    (Metrics.get milli (codes "acme/greeter@1.2.0") after_second.1.store)
    ≡ some (record { invocations = 2; successes = 1; total_latency_ms = (7000, 0) })
unfolding program begin rank metrics_score Metrics.get trust_prior resume Metrics.record_outcome
    feature_id
counted = refl

-- a gateway of the same parts with the baseline's policy
abbrev built : App milli ℕ
built =
    create_app milli app.iter_errors (some app.catalog) (some app.invoker) none
      (some (codes "baseline")) (app.catalog, app.invoker) (app.catalog, app.invoker)

abbrev first : State Milli ℕ
first = first_state milli 0

abbrev settled : Task Milli × State Milli ℕ
settled =
    resume built (begin built loads written by_name first).0 greeted (record first { world = 1 })

one_answered :
    Reach built loads written first
      (settled.1, settled.0 ∷ [])
      (outcomes milli (awaited (begin built loads written by_name first).0) greeted)
unfolding program begin create_app first_state
one_answered = next (next start (arrive by_name)) (turn (here [] (answer refl greeted 1)))

Reach-created_example : IsSound milli settled.1
Reach-created_example =
    Reach-created milli app.iter_errors (some app.catalog) (some app.invoker) none
      (some (codes "baseline")) (app.catalog, app.invoker) (app.catalog, app.invoker) loads written
      0 one_answered

-- the run in which both get their answers
answers : Run app (Data.start, waiting) (after_second.1, after_second.0 ∷ after_first.0 ∷ []) 2
unfolding program begin rank metrics_score Metrics.get trust_prior
answers =
    turned (there _ (here [] (answer refl greeted 1))) (turned (here _ (answer refl down 2)) stop)

Run-total_example : 2 + total (after_second.0 ∷ after_first.0 ∷ []) ≤ total waiting
Run-total_example = Run-total app answers

-- the run in which only the composite has its answer
one_answer :
    Run app
      (Data.start, waiting)
      (after_first.1, (begin app loads written by_name Data.start).0 ∷ after_first.0 ∷ [])
      1
unfolding program begin rank metrics_score Metrics.get trust_prior
one_answer = turned (there _ (here [] (answer refl greeted 1))) stop

Run-complete_example :
    (e : Config Milli ℕ) × (k : ℕ) × Driven app
      (λ t s. (down, s.world))
      (after_first.1, (begin app loads written by_name Data.start).0 ∷ after_first.0 ∷ [])
      e
      k
    × (1 + k ≤ total waiting)
    × All IsAnswered e.1
Run-complete_example = Run-complete app (λ t s. (down, s.world)) one_answer

-- what the composite returns
abbrev returns : CompositeResult
returns = record {
  composite = codes "report";
  output = field (codes "who") (str (codes "Ada")) end;
  trace = record { step = codes "greeting"; capability = codes "greet"; output = input } ∷ [];
  error = none;
}

course : Course app (begin app loads written by_composite Data.start).0 (done (ran (ok returns)))
unfolding program begin rank metrics_score Metrics.get trust_prior resume advance fill resolve_ref
course = move (answer {s = Data.start} refl greeted 1) stay

Course-trace_example :
    Records report.steps returns.trace
    × Ended report report.steps (caller_context input) returns.trace returns.output returns.error
Course-trace_example =
    Course-trace app loads written (codes "report") body Data.start report returns
      (unfold program in refl) course
