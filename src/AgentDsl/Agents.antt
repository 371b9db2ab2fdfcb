-- ===== src/AgentDsl/Agents.antt =====
-- What an agent of gateway/agentdsl.py is: the composites that `parse` may return.
use agent_features.Common.{◌≡◌, ◌≢◌, Option, none, some, List, [], true, All, is_some}
use agent_features.Common.Text.{Text, codes}
use agent_features.Common.Dict.{IsDict}
use agent_features.Common.Json.{str, obj, Fields, end, field, get_field}
use agent_features.Composer.{Step, Composite}
use agent_features.AgentDsl.Patterns.{in_name}
use agent_features.AgentDsl.Patterns.Laws.{IsWord, Holds, IsEntry}
use agent_features.AgentDsl.{type_field, with_required}

-- a step: its parts are names, and its inputs are names with references
abbrev pub IsAgentStep : Step → Type 0
IsAgentStep st =
    IsWord in_name st.name
    × IsWord in_name st.capability
    × Holds (IsWord in_name) st.vendor
    × (st.version ≡ none)
    × IsDict st.inputs
    × All IsEntry st.inputs

-- the JSON types of the inputs
pub data IsInputType : Text → Type 0 where
  string : IsInputType (codes "string")
  number : IsInputType (codes "number")
  integer : IsInputType (codes "integer")
  boolean : IsInputType (codes "boolean")

-- the properties of the schema: each key is a name, each value an object with a type
pub data IsProps : Fields → Type 0 where
  no_props : IsProps end
  one_prop :
      {k t : Text} {d : Fields}
      → IsWord in_name k
      → IsInputType t
      → IsProps d
      → IsProps (field k (type_field t) d)

pub record IsSchema (s : Fields) : Type 0 where
  pub props : Fields
  pub required : List Text
  pub schema :
      s
      ≡ with_required required
          (field (codes "type") (str (codes "object")) (field (codes "properties") (obj props) end))
  pub props_named : IsProps props
  pub required_known : All (λ r. is_some (get_field r props) ≡ true) required

pub record IsAgent (c : Composite) : Type 0 where
  pub named : IsWord in_name c.name
  pub capability : c.capability ≡ c.name
  pub some_steps : c.steps ≢ []
  pub steps : All IsAgentStep c.steps
  pub output : IsDict c.output
  pub references : All IsEntry c.output
  pub input_schema : IsSchema c.input_schema

-- an agent and no error, or errors and no agent
abbrev pub Parsed : Option Composite × List Text → Type 0
Parsed (some c, es) = (es ≡ []) × IsAgent c
Parsed (none, es) = es ≢ []
