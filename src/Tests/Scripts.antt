-- ===== src/Tests/Scripts.antt =====
-- The language of agents at a short script.
use agent_features.Gateway.{ok}
use agent_features.Gateway.Compile.{refused, compile_agent}
use agent_features.Gateway.Compile.Laws.{IsCompiled, compile_agent-IsCompiled}
use agent_features.AgentDsl.Patterns.Laws.{present}
use agent_features.AgentDsl.Codegen.Names.{camel, pascal, snake}
use agent_features.Tests.Data.{start}
use agent_features.Common.{All, List, ◌≢◌, ◌⊎◌, true, arith, ◌≡◌, refl, none, some, [], ◌∷◌, ◌++◌}
use agent_features.Common.Text.{Text, codes}
use agent_features.Common.Dict.{get, put}
use agent_features.Common.Json.{
  Json, Fields, bool, truthy_json, get_or_null, str, obj, arr, cons, nil, end, field, put_field,
}
use agent_features.AgentDsl.Agents.{Parsed}
use agent_features.AgentDsl.Patterns.{is_name, find_args}
use agent_features.AgentDsl.{parse, composite_of, empty_draft}
use agent_features.AgentDsl.Printed.{
  Statement, agent, input, step, output, print_all, IsStatement, mean_all,
}
use agent_features.AgentDsl.Printed.Laws.{parse-print}
use agent_features.AgentDsl.Laws.{parse-IsAgent}

abbrev newline : Text
newline = 10 ∷ []

abbrev script : Text
script =
    codes "agent brief  # reads a text"
    ++ newline
    ++ codes "input text: string"
    ++ newline
    ++ codes "step short = summarize@acme(text: input.text, n: x)"
    ++ newline
    ++ codes "output summary = short.summary"

runs : parse script ≡ (
  some record {
    name = codes "brief";
    capability = codes "brief";
    description = [];
    input_schema = field (codes "type") (str (codes "object")) (
        field
          (codes "properties")
          (obj (field (codes "text") (obj (field (codes "type") (str (codes "string")) end)) end))
          (field (codes "required") (arr (cons (str (codes "text")) nil)) end));
    steps =
        record {
          name = codes "short";
          capability = codes "summarize";
          vendor = some (codes "acme");
          version = none;
          inputs = (codes "text", codes "input.text") ∷ (codes "n", codes "x") ∷ [];
        }
        ∷ [];
    output = (codes "summary", codes "short.summary") ∷ [];
  },
  [],
)
unfolding parse get put put_field is_name find_args
runs = refl

parse-IsAgent_example : Parsed (parse script)
parse-IsAgent_example = parse-IsAgent script

abbrev shown : Json → Text
shown (str s) = s
shown v = codes "?"

abbrev request : Fields
request = field (codes "source") (str script) (field (codes "publish") (bool true) end)

compile_agent-IsCompiled_example :
    let (r, s') = compile_agent shown (obj request) start in
    ((errors : List Text) × (errors ≢ []) × (r ≡ ok (refused errors)) × (s' ≡ start))
    ⊎ IsCompiled shown (truthy_json (get_or_null (codes "publish") request)) start r s'
compile_agent-IsCompiled_example = compile_agent-IsCompiled shown request start

abbrev dashed : Text
dashed = codes "to-Go"

names :
    (camel dashed ≡ codes "toGo")
    × (pascal dashed ≡ codes "ToGo")
    × (snake dashed ≡ codes "to_Go")
    × (camel (codes "_-") ≡ codes "_-")
    × (camel (codes "_1x") ≡ codes "1x")
unfolding camel pascal snake
names = (refl, refl, refl, refl, refl)

-- the statements of a document
abbrev statements : List Statement
statements =
    agent (codes "brief")
    ∷ input (record { name = codes "n"; optional = true; typ = codes "int" }) (codes "integer")
    ∷ step (codes "s") (codes "sum") (some (codes "me")) ((codes "a", codes "input.n") ∷ [])
    ∷ output (codes "o") (codes "s.o")
    ∷ []

statements-IsStatement : All IsStatement statements
unfolding get
statements-IsStatement = (
  (refl, (refl, (refl, (refl, (refl, tt))))),
  (
    ((refl, tt), (refl, (refl, (refl, tt))), refl),
    (
      (
        (refl, tt),
        (refl, (refl, (refl, tt))),
        present (refl, (refl, tt)),
        (((refl, tt), (refl, (refl, (refl, (refl, (refl, (refl, (refl, tt)))))))), tt),
      ),
      (((refl, tt), (refl, (refl, (refl, tt)))), tt),
    ),
  ),
)

parse-print_example :
    parse (print_all statements) ≡ (some (composite_of (mean_all statements empty_draft)), [])
parse-print_example = parse-print statements statements-IsStatement refl λ none_there. ground arith
