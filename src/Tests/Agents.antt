-- ===== src/Tests/Agents.antt =====
-- The MCP adapter at the features of the tests.
use agent_features.Common.{◌≡◌, sym, ap, some, false}
use agent_features.Common.Text.{Text, codes}
use agent_features.Common.Json.{Json, int, str, Fields, end, field, get_or_null, is_text}
use mathlib.Core.Option.{map, some_inj}
use agent_features.Models.{Feature}
use agent_features.Catalog.Memory.{local_feature}
use agent_features.Gateway.Features.{invoke_feature}
use agent_features.Gateway.Compose.Laws.{request}
use agent_features.Mcp.{call, handle}
use agent_features.Mcp.Laws.{Answers, handle-Answers}
use agent_features.Gateway.Agents.{adapter}
use agent_features.Mcp.Agreement.{Mirrors, tool_params, call-Mirrors}
use agent_features.Tests.Data.{program, app, start, greeter, input}

abbrev dumps : Fields → Text
dumps d = codes "{}"

abbrev pub show_value : Json → Text
show_value v = codes "None"

abbrev message : Fields
message = field (codes "method") (str (codes "tools/call")) (
    field (codes "id") (int 7)
      (field (codes "params") (tool_params app dumps show_value (codes "greeter") input) end))

handle-Answers_example :
    let p = handle (adapter app dumps show_value) message 0 in
    Answers (get_or_null (codes "id") message) p.0
    × (is_text (get_or_null (codes "method") message) (codes "tools/call") ≡ false → p.1 ≡ 0)
handle-Answers_example = handle-Answers (adapter app dumps show_value) message 0

greeter_name :
    (f : Feature) → app.catalog.get (codes "greeter") 0 ≡ some f → f.manifest.name ≡ codes "greeter"
unfolding program
greeter_name f e =
    let e' : some (local_feature greeter) ≡ some f = e in
    sym (some_inj.0 (ap (map (λ (g : Feature). g.manifest.name)) e'))

call-Mirrors_example :
    let p = invoke_feature app (codes "greeter") (request input) start in
    let q =
      call
        (adapter app dumps show_value)
        (int 7)
        (tool_params app dumps show_value (codes "greeter") input)
        0 in
    Mirrors app dumps show_value (int 7) p.0 q.0 × (q.1 ≡ p.1.world)
call-Mirrors_example =
    call-Mirrors app dumps show_value (int 7) b'g' (codes "reeter") input start greeter_name
