-- ===== src/Examples/AgentClient.antt =====
-- examples/agent_client.py. Parameters are `json.dumps`, the text that an f-string makes of a JSON
-- value that is no text, and the request over HTTP: urlopen with json.load of what it returns, none
-- where one of them raises.
pub mod Laws
use agent_features.Common.{
  ℕ, Option, none, some, List, [], ◌∷◌, ◌++◌, map, Bool, true, false, ◌>>=◌,
}
use agent_features.Common.Text.{Text, codes}
use agent_features.Common.Json.{
  Json, null, bool, int, neg_int, float, str, arr, obj, Fields, end, field, cons, nil, items,
  entries, elements, shown, get_field, put_field,
}

abbrev pub gateway : Text
gateway = codes "http://127.0.0.1:8000/mcp"

-- v[k]
abbrev pub at_key : Text → Json → Option Json
at_key k (obj d) = get_field k d
at_key k v = none

-- v[0]
abbrev pub at_zero : Json → Option Json
at_zero (arr (cons v vs)) = some v
at_zero (str (c ∷ s)) = some (str (c ∷ []))
at_zero v = none

abbrev pub with_params : Option Fields → Fields → Fields
with_params none payload = payload
with_params (some params) payload = put_field (codes "params") (obj params) payload

-- the lines that are printed, and whether the program ends without an exception
abbrev pub Printed : Type 0
Printed = List Text × Bool

-- a line, and what is printed behind it
abbrev pub then_print : List Text → Printed → Printed
then_print lines (later, ended) = (lines ++ later, ended)

-- {"name": "calculator", "arguments": {"expression": "2 * (3 + 4)"}}
abbrev pub calculation : Fields
calculation = field (codes "name") (str (codes "calculator")) (
    field (codes "arguments") (obj (field (codes "expression") (str (codes "2 * (3 + 4)")) end))
      end)

-- the text in the reply to a call
abbrev pub result_text : Option Json → Option Json
result_text reply = reply >>= λ r. at_key (codes "result") r >>= λ v.
    at_key (codes "content") v >>= λ c. at_zero c >>= λ b. at_key (codes "text") b

module _ {W : Type 0} (dumps : Fields → Text) (show_value : Json → Text)
    (post : (url body : Text) → W → Option Json × W) where
  unfoldable pub rpc :
      (method : Text) → (params : Option Fields) → (msg_id : ℕ) → W → Option Json × W
  unfolding put_field
  rpc method params msg_id w =
      let payload =
        field (codes "jsonrpc") (str (codes "2.0"))
          (field (codes "id") (int msg_id) (field (codes "method") (str method) end)) in
      post gateway (dumps (with_params params payload)) w

  -- the line of a tool, or none where a key is missing
  abbrev pub line_of : (name description : Option Json) → Option Text
  line_of none description = none
  line_of (some name) none = none
  line_of (some name) (some description) =
      some (codes "  - " ++ shown show_value name ++ codes ": " ++ shown show_value description)

  abbrev pub print_tools : List Json → Printed
  print_tools [] = ([], true)
  print_tools (tool ∷ tools) =
      elim (line_of (at_key (codes "name") tool) (at_key (codes "description") tool)) [
        | none ↦ ([], false)
        | some line ↦ then_print (line ∷ []) (print_tools tools)
      ]

  -- the loop over the tools
  abbrev pub print_elements : Option (List Json) → Printed
  print_elements none = ([], false)
  print_elements (some tools) = print_tools tools

  -- the last line
  abbrev pub print_result : Option Json → Printed
  print_result none = ([], false)
  print_result (some t) = ((codes "Result: " ++ shown show_value t) ∷ [], true)

  -- the second half: a call
  unfoldable pub invoke_one : W → Printed × W
  unfolding rpc
  invoke_one w =
      let (reply, w') = rpc (codes "tools/call") (some calculation) 2 w in
      (
        then_print (codes "\nCalling calculator with expression '2 * (3 + 4)' ..." ∷ [])
            (print_result (result_text reply)),
        w',
      )

  -- behind the list
  abbrev pub and_then : Printed → W → Printed × W
  and_then (lines, false) w = ((lines, false), w)
  and_then (lines, true) w = let (p, w') = invoke_one w in (then_print lines p, w')

  abbrev pub main_tools : Option Json → W → Printed × W
  main_tools none w = (([], false), w)
  main_tools (some tools) w =
      and_then
        (then_print (codes "Available features (as agent tools):" ∷ [])
          (print_elements (elements tools)))
        w

  unfoldable pub main : W → Printed × W
  unfolding rpc invoke_one
  main w =
      let (reply, w') = rpc (codes "tools/list") none 1 w in
      main_tools (reply >>= λ r. at_key (codes "result") r >>= λ v. at_key (codes "tools") v) w'
