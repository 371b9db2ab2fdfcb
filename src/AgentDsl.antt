-- ===== src/AgentDsl.antt =====
-- gateway/agentdsl.py: the language of *.agent.next files, read into composites.
pub mod Patterns
pub mod Codegen
pub mod Agents
pub mod Invariant
pub mod Printed
pub mod Laws
use agent_features.Common.{
  ℕ, suc, ◌+◌, Option, none, some, List, [], ◌∷◌, ◌++◌, Bool, true, false, not, if◌then◌else◌,
}
use agent_features.Common.Text.{
  Text, codes, ◌==◌, truthy, strip, strip_char, starts_with, after, partition, splitlines, show,
}
use agent_features.Common.Dict.{Dict, get, put}
use agent_features.Common.Json.{
  Json, str, arr, obj, Fields, end, field, put_field, arr_of, truthy_fields,
}
use agent_features.Common.{map}
use agent_features.Composer.{Step, Composite, model_post_init}
use agent_features.AgentDsl.Patterns.{
  is_name, InputMatch, match_input, StepMatch, match_step, find_args, match_output,
}

-- `_TYPES`
abbrev pub types : Dict Text
types =
    (codes "string", codes "string")
    ∷ (codes "str", codes "string")
    ∷ (codes "text", codes "string")
    ∷ (codes "number", codes "number")
    ∷ (codes "float", codes "number")
    ∷ (codes "integer", codes "integer")
    ∷ (codes "int", codes "integer")
    ∷ (codes "bool", codes "boolean")
    ∷ (codes "boolean", codes "boolean")
    ∷ []

-- the variables of the loop
pub record Draft : Type 0 where
  pub name : Text
  pub description : Text
  pub props : Fields
  pub required : List Text
  pub steps : List Step
  pub output : Dict Text
  pub errors : List Text

abbrev pub complain : Draft → ℕ → Text → Draft
complain d i message = record d {
  errors = d.errors ++ (codes "line " ++ show i ++ codes ": " ++ message) ∷ [];
}

abbrev pub quoted : Text → Text
quoted s = codes "'" ++ s ++ codes "'"

-- the name is kept also if it is no name
abbrev pub read_agent : ℕ → Text → Draft → Draft
read_agent i name d =
    let named = record d { name = name } in
    if is_name name then named else complain named i (codes "invalid agent name " ++ quoted name)

abbrev pub type_field : Text → Json
type_field t = obj (field (codes "type") (str t) end)

-- by the entry of the type in the table
abbrev pub add_input : ℕ → InputMatch → Option Text → Draft → Draft
add_input i m none d =
    complain d i (codes "unknown type " ++ quoted m.typ ++ codes " (string|number|integer|boolean)")
add_input i m (some t) d = record d {
  props = put_field m.name (type_field t) d.props;
  required = if m.optional then d.required else d.required ++ m.name ∷ [];
}

abbrev pub read_input : ℕ → Text → Option InputMatch → Draft → Draft
read_input i line none d =
    complain d i (codes "bad input (want `input <name>: <type>`): " ++ quoted line)
read_input i line (some m) d = add_input i m (get m.typ types) d

-- {am.group(1): am.group(2) for am in …}
abbrev pub dict_of : List (Text × Text) → Dict Text → Dict Text
dict_of [] d = d
dict_of ((k, r) ∷ ms) d = dict_of ms (put k r d)

abbrev pub read_step : ℕ → Text → Option StepMatch → Draft → Draft
read_step i line none d =
    complain d i
      (codes "bad step (want `step <name> = <capability>(<k>: <ref>, …)`): " ++ quoted line)
read_step i line (some m) d = record d {
  steps =
      d.steps
      ++ record {
        name = m.name;
        capability = m.capability;
        vendor = m.vendor;
        version = none;
        inputs = dict_of (find_args 0 m.args) [];
      }
        ∷ [];
}

abbrev pub read_output : ℕ → Text → Option (Text × Text) → Draft → Draft
read_output i line none d =
    complain d i (codes "bad output (want `output <name> = <ref>`): " ++ quoted line)
read_output i line (some (k, ref)) d = record d { output = put k ref d.output }

-- what a line begins with
pub data Keyword : Type 0 where
  blank agent_line description_line input_line step_line output_line unrecognized : Keyword

abbrev pub keyword : Text → Keyword
keyword line =
    if not (truthy line)
    then blank
    else if starts_with line (codes "agent ")
    then agent_line
    else if starts_with line (codes "description")
    then description_line
    else if starts_with line (codes "input ")
    then input_line
    else if starts_with line (codes "step ")
    then step_line
    else if starts_with line (codes "output ")
    then output_line
    else unrecognized

abbrev pub read_as : Keyword → ℕ → Text → Draft → Draft
read_as blank i line d = d
read_as agent_line i line d = read_agent i (strip (after (codes "agent ") line)) d
read_as description_line i line d = record d {
  description = strip_char b'"' (strip (after (codes "description") line));
}
read_as input_line i line d = read_input i line (match_input line) d
read_as step_line i line d = read_step i line (match_step line) d
read_as output_line i line d = read_output i line (match_output line) d
read_as unrecognized i line d = complain d i (codes "unrecognized statement: " ++ quoted line)

-- the line without its comment
abbrev pub statement : Text → Text
statement raw = strip (partition b'#' raw).0

-- the body of the loop
abbrev pub read_line : ℕ → Text → Draft → Draft
read_line i raw d = let line = statement raw in read_as (keyword line) i line d

unfoldable pub read_lines : ℕ → List Text → Draft → Draft
unfolding match_input match_step match_output strip strip_char partition show
read_lines i [] d = d
read_lines i (raw ∷ raws) d = read_lines (suc i) raws (read_line i raw d)

abbrev pub empty_draft : Draft
empty_draft = record {
  name = [];
  description = [];
  props = end;
  required = [];
  steps = [];
  output = [];
  errors = [];
}

-- the two checks behind the loop
abbrev pub check_name : Draft → Draft
check_name d =
    if truthy d.name
    then d
    else record d { errors = d.errors ++ codes "missing `agent <name>` declaration" ∷ [] }

abbrev pub check_steps : List Step → List Text → List Text
check_steps (st ∷ sts) es = es
check_steps [] (e ∷ es) = e ∷ es
check_steps [] [] = codes "an agent needs at least one `step`" ∷ []

abbrev pub with_required : List Text → Fields → Fields
with_required [] schema = schema
with_required (r ∷ rs) schema =
    put_field (codes "required") (arr (arr_of (map str (r ∷ rs)))) schema

abbrev pub schema_of : Draft → Fields
schema_of d =
    with_required d.required
      (field (codes "type") (str (codes "object")) (field (codes "properties") (obj d.props) end))

abbrev pub composite_of : Draft → Composite
composite_of d = model_post_init (record {
  name = d.name;
  capability = [];
  description = d.description;
  input_schema = schema_of d;
  steps = d.steps;
  output = d.output;
})

abbrev pub conclude : Draft → List Text → Option Composite × List Text
conclude d [] = (some (composite_of d), [])
conclude d (e ∷ es) = (none, e ∷ es)

unfoldable pub parse : Text → Option Composite × List Text
unfolding read_lines splitlines model_post_init
parse text =
    let d = check_name (read_lines 1 (splitlines text) empty_draft) in
    conclude d (check_steps d.steps d.errors)
