-- ===== src/Composer/Invariant.antt =====
-- What a run leaves of the state behind its invoker.
use agent_features.Common.{Option, none, some, List, [], ◌∷◌, ◌++◌, Bool-cases, inl, inr}
use agent_features.Common.Text.{Text, truthy?}
use agent_features.Common.Json.{obj, Fields, end, put_field}
use agent_features.Composer.{
  Step, Composite, TraceEntry, CompositeResult, CapabilityInvoke, Filled, filled, stopped, fill,
  entry, after_invoke, make_step, run_steps, run,
}

module _ {S : Type 0} (invoke : CapabilityInvoke S) (P : S → Type 0)
    (step : (capability : Text) (input : Fields) (vendor version : Option Text) (s : S)
      → P s
      → P (invoke capability input vendor version s).1) where
  after_invoke-invariant :
      (c : Composite) (st : Step) (trace : List TraceEntry) (output : Option Fields)
      (err : Option Text) (s : S) (rest : Fields → S → CompositeResult × S)
      → ((out : Fields) (s' : S) → P s' → P (rest out s').1)
      → P s
      → P (after_invoke invoke c st trace output err s rest).1
  after_invoke-invariant c st trace none err s rest k h = h
  after_invoke-invariant c st trace (some out) err s rest k h = elim (Bool-cases (truthy? err)) [
    | inl e ↦ rw e h
    | inr e ↦ rw e (k out s h)
  ]

  make_step-invariant :
      (c : Composite) (st : Step) (trace : List TraceEntry) (f : Filled) (s : S)
      (rest : Fields → S → CompositeResult × S)
      → ((out : Fields) (s' : S) → P s' → P (rest out s').1)
      → P s
      → P (make_step invoke c st trace f s rest).1
  make_step-invariant c st trace (stopped m) s rest k h = h
  make_step-invariant c st trace (filled input) s rest k h =
      let ((output, err), s') = invoke st.capability input st.vendor st.version s in
      after_invoke-invariant c st trace output err s' rest k
        (step st.capability input st.vendor st.version s h)

  run_steps-invariant :
      (c : Composite) (steps : List Step) (ctx : Fields) (trace : List TraceEntry) (s : S)
      → P s
      → P (run_steps invoke c steps ctx trace s).1
  unfolding run_steps
  run_steps-invariant c [] ctx trace s h = h
  run_steps-invariant c (st ∷ steps) ctx trace s h =
      make_step-invariant c st trace (fill st.inputs ctx end) s
        (λ out s'.
          run_steps invoke c steps (put_field st.name (obj out) ctx) (trace ++ entry st out ∷ [])
            s')
        (λ out s' h'.
          run_steps-invariant c steps (put_field st.name (obj out) ctx) (trace ++ entry st out ∷ [])
            s' h')
        h

  -- What every call of the invoker keeps true of the state, a run keeps true of it.
  pub run-invariant : (c : Composite) (input : Fields) (s : S) → P s → P (run invoke c input s).1
  unfolding run
  run-invariant c input s h = run_steps-invariant c c.steps _ [] s h
