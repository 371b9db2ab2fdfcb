-- ===== src/AgentDsl/Printed.antt =====
-- Documents as the statements of the language of agents are printed, and what the statements mean.
pub mod Lines
pub mod Laws
use agent_features.Common.{Option, none, List, [], ◌∷◌, ◌++◌, if◌then◌else◌, ◌≡◌, some, All}
use agent_features.Common.Text.{Text, codes}
use agent_features.Common.Dict.{get, put}
use agent_features.Common.Json.{put_field}
use agent_features.AgentDsl.Patterns.{in_name, in_ref, InputMatch}
use agent_features.AgentDsl.Patterns.Laws.{IsWord, IsEntry, Holds}
use agent_features.AgentDsl.Patterns.Forward.{input_text, step_text, output_text, args_text}
use agent_features.AgentDsl.{types, Draft, type_field, dict_of, empty_draft}

pub data Statement : Type 0 where
  agent : (name : Text) → Statement
  -- with the JSON type that the type stands for
  input : InputMatch → (json_type : Text) → Statement
  step : (name capability : Text) → (vendor : Option Text) → List (Text × Text) → Statement
  output : (name ref : Text) → Statement

abbrev pub print : Statement → Text
print (agent name) = codes "agent" ++ b' ' ∷ name
print (input m t) = input_text m
print (step name capability vendor args) =
    step_text
      (record { name = name; capability = capability; vendor = vendor; args = args_text args })
print (output name ref) = output_text name ref

-- the statements, one on each line
abbrev pub print_all : List Statement → Text
print_all [] = []
print_all (st ∷ sts) = print st ++ b'\n' ∷ print_all sts

-- the words of a statement are words of the language
abbrev pub IsStatement : Statement → Type 0
IsStatement (agent name) = IsWord in_name name
IsStatement (input m t) = IsWord in_name m.name × IsWord in_name m.typ × (get m.typ types ≡ some t)
IsStatement (step name capability vendor args) =
    IsWord in_name name
    × IsWord in_name capability
    × Holds (IsWord in_name) vendor
    × All IsEntry args
IsStatement (output name ref) = IsWord in_name name × IsWord in_ref ref

-- what a statement adds to an agent
abbrev pub mean : Statement → Draft → Draft
mean (agent name) d = record d { name = name }
mean (input m t) d = record d {
  props = put_field m.name (type_field t) d.props;
  required = if m.optional then d.required else d.required ++ m.name ∷ [];
}
mean (step name capability vendor args) d = record d {
  steps =
      d.steps
      ++ record {
        name = name;
        capability = capability;
        vendor = vendor;
        version = none;
        inputs = dict_of args [];
      }
        ∷ [];
}
mean (output name ref) d = record d { output = put name ref d.output }

abbrev pub mean_all : List Statement → Draft → Draft
mean_all [] d = d
mean_all (st ∷ sts) d = mean_all sts (mean st d)
