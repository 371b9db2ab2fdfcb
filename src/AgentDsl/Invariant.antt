-- ===== src/AgentDsl/Invariant.antt =====
-- What holds of the variables of `parse` in gateway/agentdsl.py behind each line.
use agent_features.Common.{
  ℕ, suc, ◌≡◌, ◌≢◌, refl, ◌⊎◌, inl, inr, Option, none, some, List, [], ◌∷◌, ◌++◌, true, All,
  All-append, Bool-cases, is_some, arith, if-both,
}
use agent_features.Common.Text.{Text, codes, ◌==◌, strip, after}
use agent_features.Common.Dict.{Dict, get, put, IsDict, put-IsDict, put-All}
use agent_features.Common.Json.{
  Json, Fields, end, field, get_field, put_field, get_field-put_field, get_field-put_field_self,
}
use agent_features.AgentDsl.Patterns.{
  in_name, is_name, InputMatch, match_input, StepMatch, match_step, find_args, match_output,
}
use agent_features.AgentDsl.Patterns.Laws.{
  IsWord, Holds, missing, present, IsEntry, IsStepMatch, is_name-IsWord, find_args-IsEntry,
  match_step-IsStepMatch, match_output-IsEntry, match_input-IsWord,
}
use agent_features.AgentDsl.{
  types, Draft, complain, read_agent, type_field, add_input, read_input, dict_of, read_step,
  read_output, Keyword, blank, agent_line, description_line, input_line, step_line, output_line,
  unrecognized, keyword, read_as, statement, read_line, read_lines,
}
use agent_features.AgentDsl.Agents.{
  IsAgentStep, IsInputType, string, number, integer, boolean, IsProps, one_prop,
}

pub record IsDraft (d : Draft) : Type 0 where
  pub named : (d.errors ≢ []) ⊎ ((d.name ≡ []) ⊎ IsWord in_name d.name)
  pub steps : All IsAgentStep d.steps
  pub output : IsDict d.output
  pub references : All IsEntry d.output
  pub props_named : IsProps d.props
  pub required_known : All (λ r. is_some (get_field r d.props) ≡ true) d.required

pub append-some : {A : Type 0} (es : List A) (e : A) → es ++ e ∷ [] ≢ []
append-some [] e h = ground arith
append-some (x ∷ es) e h = ground arith

-- a complaint leaves the rest as it is
complain-IsDraft : (d : Draft) (i : ℕ) (m : Text) → IsDraft d → IsDraft (complain d i m)
complain-IsDraft d i m h = record {
  named = inl (append-some d.errors _);
  steps = h.steps;
  output = h.output;
  references = h.references;
  props_named = h.props_named;
  required_known = h.required_known;
}

read_agent-IsDraft : (i : ℕ) (name : Text) (d : Draft) → IsDraft d → IsDraft (read_agent i name d)
read_agent-IsDraft i name d h = elim (Bool-cases (is_name name)) [
  | inl e ↦ rw e record {
    named = inr (inr (is_name-IsWord name e));
    steps = h.steps;
    output = h.output;
    references = h.references;
    props_named = h.props_named;
    required_known = h.required_known;
  }
  | inr e ↦ rw e record {
    named = inl (append-some d.errors _);
    steps = h.steps;
    output = h.output;
    references = h.references;
    props_named = h.props_named;
    required_known = h.required_known;
  }
]

put_field-IsProps :
    (k t : Text) (d : Fields)
    → IsWord in_name k
    → IsInputType t
    → IsProps d
    → IsProps (put_field k (type_field t) d)
unfolding put_field
put_field-IsProps k t end name typ h = one_prop name typ h
put_field-IsProps k t (field j v d) name typ (one_prop old u h) = elim (Bool-cases (j == k)) [
  | inl e ↦ rw e (one_prop old typ h)
  | inr e ↦ rw e (one_prop old u (put_field-IsProps k t d name typ h))
]

put_field-known :
    (k : Text) (v : Json) (d : Fields) (rs : List Text)
    → All (λ r. is_some (get_field r d) ≡ true) rs
    → All (λ r. is_some (get_field r (put_field k v d)) ≡ true) rs
put_field-known k v d [] h = tt
put_field-known k v d (r ∷ rs) h = (
  rw (get_field-put_field k r v d) (if-both (λ o. is_some o ≡ true) (k == r) refl h.0),
  put_field-known k v d rs h.1,
)

get-Holds : (P : Text → Type 0) (k : Text) (d : Dict Text) → All (λ e. P e.1) d → Holds P (get k d)
unfolding get
get-Holds P k [] h = missing
get-Holds P k ((j, v) ∷ d) h = if-both (Holds P) (j == k) (present h.0) (get-Holds P k d h.1)

-- the table knows four types
types-IsInputType : (typ : Text) → Holds IsInputType (get typ types)
types-IsInputType typ =
    get-Holds IsInputType typ types (
      string,
      (string, (string, (number, (number, (integer, (integer, (boolean, (boolean, tt)))))))),
    )

add_input-IsDraft :
    (i : ℕ) (m : InputMatch) (t : Option Text) (d : Draft)
    → IsWord in_name m.name
    → Holds IsInputType t
    → IsDraft d
    → IsDraft (add_input i m t d)
add_input-IsDraft i m none d name typ h = complain-IsDraft d i _ h
add_input-IsDraft i m (some t) d name (present typ) h = record {
  named = h.named;
  steps = h.steps;
  output = h.output;
  references = h.references;
  props_named = put_field-IsProps m.name t d.props name typ h.props_named;
  required_known =
      let known = put_field-known m.name (type_field t) d.props d.required h.required_known in
      if-both (All (λ r. is_some (get_field r (put_field m.name (type_field t) d.props)) ≡ true))
        m.optional known
        (All-append _ d.required (m.name ∷ []) known
          (rw (get_field-put_field_self m.name (type_field t) d.props) refl, tt));
}

read_input-IsDraft :
    (i : ℕ) (line : Text) (m : Option InputMatch) (d : Draft)
    → Holds (λ (m : InputMatch). IsWord in_name m.name × IsWord in_name m.typ) m
    → IsDraft d
    → IsDraft (read_input i line m d)
read_input-IsDraft i line none d hm h = complain-IsDraft d i _ h
read_input-IsDraft i line (some m) d (present p) h =
    add_input-IsDraft i m (get m.typ types) d p.0 (types-IsInputType m.typ) h

dict_of-IsDict : (ms : List (Text × Text)) (d : Dict Text) → IsDict d → IsDict (dict_of ms d)
dict_of-IsDict [] d h = h
dict_of-IsDict ((k, r) ∷ ms) d h = dict_of-IsDict ms (put k r d) (put-IsDict k r d h)

dict_of-IsEntry :
    (ms : List (Text × Text)) (d : Dict Text)
    → All IsEntry ms
    → All IsEntry d
    → All IsEntry (dict_of ms d)
dict_of-IsEntry [] d hm h = h
dict_of-IsEntry ((k, r) ∷ ms) d hm h =
    dict_of-IsEntry ms (put k r d) hm.1 (put-All IsEntry k r d hm.0 h)

read_step-IsDraft :
    (i : ℕ) (line : Text) (m : Option StepMatch) (d : Draft)
    → Holds IsStepMatch m
    → IsDraft d
    → IsDraft (read_step i line m d)
read_step-IsDraft i line none d hm h = complain-IsDraft d i _ h
read_step-IsDraft i line (some m) d (present p) h = record {
  named = h.named;
  steps = All-append IsAgentStep d.steps _ h.steps (
    (
      p.0,
      p.1,
      p.2,
      refl,
      dict_of-IsDict (find_args 0 m.args) [] tt,
      dict_of-IsEntry (find_args 0 m.args) [] (find_args-IsEntry 0 m.args) tt,
    ),
    tt,
  );
  output = h.output;
  references = h.references;
  props_named = h.props_named;
  required_known = h.required_known;
}

read_output-IsDraft :
    (i : ℕ) (line : Text) (m : Option (Text × Text)) (d : Draft)
    → Holds IsEntry m
    → IsDraft d
    → IsDraft (read_output i line m d)
read_output-IsDraft i line none d hm h = complain-IsDraft d i _ h
read_output-IsDraft i line (some (k, ref)) d (present p) h = record {
  named = h.named;
  steps = h.steps;
  output = put-IsDict k ref d.output h.output;
  references = put-All IsEntry k ref d.output p h.references;
  props_named = h.props_named;
  required_known = h.required_known;
}

read_as-IsDraft :
    (k : Keyword) (i : ℕ) (line : Text) (d : Draft) → IsDraft d → IsDraft (read_as k i line d)
read_as-IsDraft blank i line d h = h
read_as-IsDraft agent_line i line d h =
    read_agent-IsDraft i (strip (after (codes "agent ") line)) d h
read_as-IsDraft description_line i line d h = record {
  named = h.named;
  steps = h.steps;
  output = h.output;
  references = h.references;
  props_named = h.props_named;
  required_known = h.required_known;
}
read_as-IsDraft input_line i line d h =
    read_input-IsDraft i line (match_input line) d (match_input-IsWord line) h
read_as-IsDraft step_line i line d h =
    read_step-IsDraft i line (match_step line) d (match_step-IsStepMatch line) h
read_as-IsDraft output_line i line d h =
    read_output-IsDraft i line (match_output line) d (match_output-IsEntry line) h
read_as-IsDraft unrecognized i line d h = complain-IsDraft d i _ h

pub read_lines-IsDraft :
    (i : ℕ) (raws : List Text) (d : Draft) → IsDraft d → IsDraft (read_lines i raws d)
unfolding read_lines
read_lines-IsDraft i [] d h = h
read_lines-IsDraft i (raw ∷ raws) d h =
    read_lines-IsDraft (suc i) raws (read_line i raw d)
      (read_as-IsDraft (keyword (statement raw)) i (statement raw) d h)
