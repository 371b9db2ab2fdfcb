-- ===== src/AgentDsl/Laws.antt =====
-- What `parse` of gateway/agentdsl.py promises of the agents it returns.
use agent_features.Common.{◌≡◌, ◌≢◌, refl, ◌⊎◌, inl, inr, List, [], ◌∷◌, true, Bool-cases, arith}
use agent_features.Common.Text.{Text, truthy, splitlines}
use agent_features.Composer.{Step, model_post_init}
use agent_features.AgentDsl.Patterns.{in_name}
use agent_features.AgentDsl.Patterns.Laws.{IsWord}
use agent_features.AgentDsl.{
  Draft, read_lines, empty_draft, check_name, check_steps, composite_of, conclude, parse,
}
use agent_features.AgentDsl.Agents.{no_props, IsAgent, Parsed}
use agent_features.AgentDsl.Invariant.{IsDraft, append-some, read_lines-IsDraft}

empty-IsDraft : IsDraft empty_draft
empty-IsDraft = record {
  named = inr (inl refl);
  steps = tt;
  output = tt;
  references = tt;
  props_named = no_props;
  required_known = tt;
}

name_there :
    (name : Text) (es : List Text)
    → truthy name ≡ true
    → (es ≢ []) ⊎ ((name ≡ []) ⊎ IsWord in_name name)
    → (es ≢ []) ⊎ IsWord in_name name
name_there [] es e h = absurd (ground arith)
name_there (c ∷ s) es e h = elim h [
  | inl some_error ↦ inl some_error
  | inr (inl empty) ↦ absurd (ground arith)
  | inr (inr name) ↦ inr name
]

-- with no complaint the name is there
check_name-IsDraft :
    (d : Draft)
    → IsDraft d
    → IsDraft (check_name d) × (((check_name d).errors ≢ []) ⊎ IsWord in_name (check_name d).name)
check_name-IsDraft d h = elim (Bool-cases (truthy d.name)) [
  | inl e ↦ rw e (h, name_there d.name d.errors e h.named)
  | inr e ↦ rw e (
    record {
      named = inl (append-some d.errors _);
      steps = h.steps;
      output = h.output;
      references = h.references;
      props_named = h.props_named;
      required_known = h.required_known;
    },
    inl (append-some d.errors _),
  )
]

composite_of-IsAgent :
    (d : Draft) → IsDraft d → IsWord in_name d.name → d.steps ≢ [] → IsAgent (composite_of d)
unfolding model_post_init
composite_of-IsAgent d h name steps = record {
  named = name;
  capability = refl;
  some_steps = steps;
  steps = h.steps;
  output = h.output;
  references = h.references;
  input_schema = record {
    props = d.props;
    required = d.required;
    schema = refl;
    props_named = h.props_named;
    required_known = h.required_known;
  };
}

conclude-Parsed :
    (d : Draft) (sts : List Step) (es : List Text)
    → IsDraft d
    → (es ≢ []) ⊎ IsWord in_name d.name
    → d.steps ≡ sts
    → Parsed (conclude d (check_steps sts es))
conclude-Parsed d [] [] h named e = ground arith
conclude-Parsed d [] (x ∷ es) h named e = ground arith
conclude-Parsed d (st ∷ sts) (x ∷ es) h named e = ground arith
conclude-Parsed d (st ∷ sts) [] h (inl ne) e = absurd (ne refl)
conclude-Parsed d (st ∷ sts) [] h (inr name) e =
    (refl, composite_of-IsAgent d h name λ none_there. absurd (ground arith))

-- For every text: `parse` returns an agent and no error, or no agent and at least one error. The
-- name of the agent is a name of the language and its capability; it has a step; each step's name,
-- capability and vendor are names, its version is open, and its inputs and the agent's outputs are
-- dictionaries from names to references; the schema of its input is an object whose properties are
-- names with one of four types, and the required ones are among them.
pub parse-IsAgent : (text : Text) → Parsed (parse text)
unfolding parse
parse-IsAgent text =
    let read = read_lines-IsDraft 1 (splitlines text) empty_draft empty-IsDraft in
    let checked = check_name-IsDraft (read_lines 1 (splitlines text) empty_draft) read in
    conclude-Parsed _ _ _ checked.0 checked.1 refl
