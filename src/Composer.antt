-- ===== src/Composer.antt =====
-- gateway/composer.py. The capability invoker that a Composer is given is a parameter. It may
-- change the state `S` of what is behind it.
pub mod Laws
pub mod Refs
pub mod Calls
pub mod Invariant
use agent_features.Common.{
  Option, none, some, List, [], ◌∷◌, ◌++◌, Bool, true, false, if◌then◌else◌,
}
use agent_features.Common.Text.{Text, codes, split, truthy, truthy?}
use agent_features.Common.Dict.{Dict}
use agent_features.Common.Json.{Json, null, obj, Fields, end, field, get_field, put_field}

pub record Step : Type 0 where
  pub name : Text
  pub capability : Text
  pub vendor : Option Text
  pub version : Option Text
  pub inputs : Dict Text

pub record Composite : Type 0 where
  pub name : Text
  pub capability : Text
  pub description : Text
  pub input_schema : Fields
  pub steps : List Step
  pub output : Dict Text

-- `model_post_init`, which runs when a Composite has been built
unfoldable pub model_post_init : Composite → Composite
model_post_init c = if truthy c.capability then c else record c { capability = c.name }

pub record TraceEntry : Type 0 where
  pub step : Text
  pub capability : Text
  pub output : Fields

pub record CompositeResult : Type 0 where
  pub composite : Text
  pub output : Fields
  pub trace : List TraceEntry
  pub error : Option Text

-- (capability, input, vendor, version) -> (output, error)
abbrev pub CapabilityInvoke : Type 0 → Type 0
CapabilityInvoke S =
    Text → Fields → (vendor version : Option Text) → S → (Option Fields × Option Text) × S

abbrev pub unresolved : Text → Json × Option Text
unresolved ref = (null, some (codes "unresolved reference: '" ++ ref ++ codes "'"))

-- the loop over the parts of a reference
abbrev pub walk : Text → List Text → Json → Json × Option Text
walk ref [] cur = (cur, none)
walk ref (part ∷ parts) (obj d) = elim (get_field part d) [
  | none ↦ unresolved ref
  | some v ↦ walk ref parts v
]
walk ref (part ∷ parts) cur = unresolved ref

unfoldable pub resolve_ref : Text → Fields → Json × Option Text
resolve_ref ref ctx = walk ref (split b'.' ref) (obj ctx)

-- the dictionary that a loop over references fills, or the error that stops it
pub data Filled : Type 0 where
  filled : Fields → Filled
  stopped : Text → Filled

unfoldable pub fill : Dict Text → Fields → Fields → Filled
unfolding resolve_ref
fill [] ctx acc = filled acc
fill ((k, ref) ∷ refs) ctx acc =
    let (val, err) = resolve_ref ref ctx in
    elim err [ none ↦ fill refs ctx (put_field k val acc) | some message ↦ stopped message ]

abbrev pub fail : Composite → List TraceEntry → Text → CompositeResult
fail c trace message = record {
  composite = c.name;
  output = end;
  trace = trace;
  error = some message;
}

abbrev pub step_error : Step → Text → Text
step_error st message = codes "step '" ++ st.name ++ codes "': " ++ message

-- err or 'no output'
abbrev pub or_no_output : Option Text → Text
or_no_output none = codes "no output"
or_no_output (some []) = codes "no output"
or_no_output (some (c ∷ s)) = c ∷ s

-- the loop that fills the result, behind the last step
abbrev pub finish : Composite → List TraceEntry → Filled → CompositeResult
finish c trace (filled result) = record {
  composite = c.name;
  output = result;
  trace = trace;
  error = none;
}
finish c trace (stopped message) = fail c trace message

abbrev pub entry : Step → Fields → TraceEntry
entry st output = record { step = st.name; capability = st.capability; output = output }

module _ {S : Type 0} (invoke : CapabilityInvoke S) where
  -- what a step does with the answer of the invoker; `rest` runs the later steps
  abbrev pub after_invoke :
      Composite
      → Step
      → List TraceEntry
      → Option Fields
      → Option Text
      → S
      → (Fields → S → CompositeResult × S)
      → CompositeResult × S
  after_invoke c st trace none err s rest = (fail c trace (step_error st (or_no_output err)), s)
  after_invoke c st trace (some out) err s rest =
      if truthy? err then (fail c trace (step_error st (or_no_output err)), s) else rest out s

  -- one step, from its inputs on
  abbrev pub make_step :
      Composite
      → Step
      → List TraceEntry
      → Filled
      → S
      → (Fields → S → CompositeResult × S)
      → CompositeResult × S
  make_step c st trace (stopped message) s rest = (fail c trace (step_error st message), s)
  make_step c st trace (filled step_input) s rest =
      let ((output, err), s') = invoke st.capability step_input st.vendor st.version s in
      after_invoke c st trace output err s' rest

  -- The loop over the steps.
  unfoldable pub run_steps :
      Composite → List Step → Fields → List TraceEntry → S → CompositeResult × S
  unfolding fill
  run_steps c [] ctx trace s = (finish c trace (fill c.output ctx end), s)
  run_steps c (st ∷ steps) ctx trace s =
      make_step c st trace (fill st.inputs ctx end) s λ out s'.
        run_steps c steps (put_field st.name (obj out) ctx) (trace ++ entry st out ∷ []) s'

  unfoldable pub run : Composite → Fields → S → CompositeResult × S
  unfolding run_steps
  run composite caller_input s =
      run_steps composite composite.steps (field (codes "input") (obj caller_input) end) [] s
