-- ===== src/Tests/Client.antt =====
-- The client of the examples against a gateway that has a calculator, and a client of the chat.
use agent_features.Common.{
  ℕ, ◌+◌, ◌-◌, ◌≡◌, refl, sym, ap, ap₂, ◌∙◌, Option, none, some, List, [], ◌∷◌, map, arith,
}
use agent_features.Common.Text.{Text, codes}
use agent_features.Common.Json.{Json, int, str, obj, Fields, end, field}
use mathlib.Core.Option.{some_inj}
use mathlib.Core.Option
use agent_features.Models.{Manifest, Feature}
use agent_features.Catalog.{Catalog}
use agent_features.Catalog.Memory.{init, list, get, list_capabilities, local_feature}
use agent_features.Gateway.{App}
use agent_features.Gateway.Features.{invoke_feature}
use agent_features.Gateway.Compose.Laws.{request}
use agent_features.Gateway.Chat.{ChatEvent, status, result}
use agent_features.Gateway.Chat.Stream.{sse}
use agent_features.Gateway.Chat.Stream.Frames.{OneLine, frame_data, ended_data, sent, sse-reads}
use agent_features.Examples.AgentClient.{Printed, then_print, main}
use agent_features.Examples.AgentClient.Laws.{expression, tool_line, Shows, endpoint, main-Session}
use agent_features.Tests.Agents.{show_value}
use agent_features.Tests.Codec.{loads, dumps, loads-dumps}
use agent_features.Tests.Data.{program, milli, app, start, greeter}

abbrev counter : Manifest
counter = record greeter { name = codes "calculator"; input_schema = end }

abbrev shelf : Catalog ℕ
shelf = record {
  list = λ query tags w. list (init (counter ∷ [])) query tags;
  get = λ name w. get (init (counter ∷ [])) name;
  list_capabilities = λ w. list_capabilities (init (counter ∷ []));
}

abbrev shop : App milli ℕ
shop = record app { catalog = shelf }

counter_name :
    (f : Feature)
    → shop.catalog.get (codes "calculator") 0 ≡ some f
    → f.manifest.name ≡ codes "calculator"
unfolding program
counter_name f e =
    let e' : some (local_feature counter) ≡ some f = e in
    sym (some_inj.0 (ap (Option.map (λ (g : Feature). g.manifest.name)) e'))

main-Session_example :
    let p = invoke_feature shop (codes "calculator") (request expression) start in
    let q = main dumps show_value (endpoint shop dumps show_value loads) start in
    (q.1 ≡ record start { world = p.1.world })
    × ((last : Printed) × Shows shop dumps show_value loads p.0 last
        × (q.0
            ≡ then_print
                (codes "Available features (as agent tools):"
                  ∷ map (tool_line shop dumps show_value loads) (shop.catalog.list none none 0))
                (then_print
                  (codes "\nCalling calculator with expression '2 * (3 + 4)' ..." ∷ [])
                  last)))
main-Session_example = main-Session shop dumps show_value loads loads-dumps start counter_name

-- the codec of the tests, moved above the line break
abbrev dump_line : Fields → Text
dump_line d = map (λ n. n + 11) (dumps d)

abbrev load_line : Text → Option Json
load_line t = loads (map (λ n. n - 11) t)

moved_back : (t : Text) → map (λ n. n - 11) (map (λ n. n + 11) t) ≡ t
moved_back [] = refl
moved_back (n ∷ t) = ap₂ ◌∷◌ (omega arith) (moved_back t)

reads_line : (d : Fields) → load_line (dump_line d) ≡ some (obj d)
reads_line d = ap loads (moved_back (dumps d)) ∙ loads-dumps d

no_break : (t : Text) → OneLine (map (λ n. n + 11) t)
no_break [] = tt
no_break (n ∷ t) = (ground arith, no_break t)

abbrev events : List (ChatEvent ℕ)
events =
    status (codes "invoking acme/greeter…")
    ∷ result (codes "greeter") (codes "acme") (field (codes "said") (str (codes "hi")) end) 7
    ∷ []

sse-reads_example :
    (map load_line (frame_data (sse int dump_line events))
      ≡ map (λ d. some (obj d)) (sent int dump_line events))
    × (map load_line (ended_data (sse int dump_line events))
        ≡ map (λ d. some (obj d)) (sent int dump_line events))
sse-reads_example = sse-reads int dump_line (λ d. no_break (dumps d)) load_line reads_line events
