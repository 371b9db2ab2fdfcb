-- ===== src/Composer/Laws.antt =====
-- What a run of a composite does: which steps it makes, with what context, and what it returns.
use agent_features.Common.{
  suc, length, ◌≡◌, refl, sym, ap, ◌∙◌, inl, inr, Option, none, some, List, [], ◌∷◌, ◌++◌,
  Bool-cases,
}
use mathlib.Core.List.{append_assoc, append-nil}
use agent_features.Common.Text.{Text, codes, truthy?}
use agent_features.Common.Json.{obj, Fields, end, field, put_field}
use agent_features.Composer.{
  Step, Composite, TraceEntry, CompositeResult, CapabilityInvoke, Filled, filled, stopped, fill,
  fail, finish, entry, step_error, or_no_output, after_invoke, make_step, run_steps, run,
}

-- the context behind the steps of a trace
abbrev pub context : Fields → List TraceEntry → Fields
context ctx [] = ctx
context ctx (e ∷ es) = context (put_field e.step (obj e.output) ctx) es

abbrev pub caller_context : Fields → Fields
caller_context input = field (codes "input") (obj input) end

-- the entries are for the first steps, in order
abbrev pub Records : List Step → List TraceEntry → Type 0
Records sts [] = Unit
Records [] (e ∷ es) = ⊥
Records (st ∷ sts) (e ∷ es) = (e.step ≡ st.name) × (e.capability ≡ st.capability) × Records sts es

-- how a result without an error stands to the steps and the context
abbrev pub Ended : Composite → List Step → Fields → List TraceEntry → Fields → Option Text → Type 0
Ended c steps ctx fresh output (some message) = output ≡ end
Ended c steps ctx fresh output none =
    (length fresh ≡ length steps) × (fill c.output (context ctx fresh) end ≡ filled output)

pub record Ran (c : Composite) (steps : List Step) (ctx : Fields) (trace : List TraceEntry)
    (r : CompositeResult) : Type 0 where
  pub fresh : List TraceEntry
  pub traced : r.trace ≡ trace ++ fresh
  pub recorded : Records steps fresh
  pub ended : Ended c steps ctx fresh r.output r.error

pub fail-Ran :
    (c : Composite) (steps : List Step) (ctx : Fields) (trace : List TraceEntry) (m : Text)
    → Ran c steps ctx trace (fail c trace m)
fail-Ran c steps ctx trace m = record {
  fresh = [];
  traced = sym (append-nil trace);
  recorded = tt;
  ended = refl;
}

pub finish-Ran :
    (c : Composite) (ctx : Fields) (trace : List TraceEntry)
    → Ran c [] ctx trace (finish c trace (fill c.output ctx end))
finish-Ran c ctx trace = split (fill c.output ctx end) refl
  where
    split : (f : Filled) → fill c.output ctx end ≡ f → Ran c [] ctx trace (finish c trace f)
    split (filled result) e = record {
      fresh = [];
      traced = sym (append-nil trace);
      recorded = tt;
      ended = (refl, e);
    }
    split (stopped m) e = fail-Ran c [] ctx trace m

pub Ran-next :
    (c : Composite) (st : Step) (steps : List Step) (ctx out : Fields) (trace : List TraceEntry)
    (r : CompositeResult)
    → Ran c steps (put_field st.name (obj out) ctx) (trace ++ entry st out ∷ []) r
    → Ran c (st ∷ steps) ctx trace r
Ran-next c st steps ctx out trace r n = record {
  fresh = entry st out ∷ n.fresh;
  traced = n.traced ∙ append_assoc trace (entry st out ∷ []) n.fresh;
  recorded = (refl, refl, n.recorded);
  ended = longer r.error n.ended;
}
  where
    longer :
        (e : Option Text)
        → Ended c steps (put_field st.name (obj out) ctx) n.fresh r.output e
        → Ended c (st ∷ steps) ctx (entry st out ∷ n.fresh) r.output e
    longer none (p, q) = (ap suc p, q)
    longer (some m) p = p

module _ {S : Type 0} (invoke : CapabilityInvoke S) (c : Composite) where
  -- a step fails, or the later steps run
  after_invoke_cases :
      (P : CompositeResult → Type 0) (st : Step) (trace : List TraceEntry) (output : Option Fields)
      (err : Option Text) (s : S) (rest : Fields → S → CompositeResult × S)
      → ((m : Text) → P (fail c trace m))
      → ((out : Fields) (s' : S) → P (rest out s').0)
      → P (after_invoke invoke c st trace output err s rest).0
  after_invoke_cases P st trace none err s rest f k = f (step_error st (or_no_output err))
  after_invoke_cases P st trace (some out) err s rest f k = elim (Bool-cases (truthy? err)) [
    | inl h ↦ rw h (f (step_error st (or_no_output err)))
    | inr h ↦ rw h (k out s)
  ]

  make_step_cases :
      (P : CompositeResult → Type 0) (st : Step) (trace : List TraceEntry) (f : Filled) (s : S)
      (rest : Fields → S → CompositeResult × S)
      → ((m : Text) → P (fail c trace m))
      → ((out : Fields) (s' : S) → P (rest out s').0)
      → P (make_step invoke c st trace f s rest).0
  make_step_cases P st trace (stopped m) s rest f k = f (step_error st m)
  make_step_cases P st trace (filled input) s rest f k =
      let ((output, err), s') = invoke st.capability input st.vendor st.version s in
      after_invoke_cases P st trace output err s' rest f k

  run_steps-Ran :
      (steps : List Step) (ctx : Fields) (trace : List TraceEntry) (s : S)
      → Ran c steps ctx trace (run_steps invoke c steps ctx trace s).0
  unfolding run_steps
  run_steps-Ran [] ctx trace s = finish-Ran c ctx trace
  run_steps-Ran (st ∷ steps) ctx trace s =
      make_step_cases (Ran c (st ∷ steps) ctx trace) st trace (fill st.inputs ctx end) s
        (λ out s'.
          run_steps invoke c steps (put_field st.name (obj out) ctx) (trace ++ entry st out ∷ [])
            s')
        (λ m. fail-Ran c (st ∷ steps) ctx trace m)
        (λ out s'.
          Ran-next c st steps ctx out trace _
            (run_steps-Ran steps (put_field st.name (obj out) ctx) (trace ++ entry st out ∷ []) s'))

  -- The trace of a run records the first steps of the composite, each once and in order. A run
  -- with an error returns no output. A run without one has recorded every step, and its output is
  -- what the output references give in the context of the caller's input and the steps' outputs.
  pub run-trace :
      (input : Fields) (s : S)
      → let r = (run invoke c input s).0 in
        Records c.steps r.trace × Ended c c.steps (caller_context input) r.trace r.output r.error
  unfolding run
  run-trace input s =
      let n = run_steps-Ran c.steps (caller_context input) [] s in
      let r = (run_steps invoke c c.steps (caller_context input) [] s).0 in
      rw n.traced (n.recorded, n.ended)
