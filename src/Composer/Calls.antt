-- ===== src/Composer/Calls.antt =====
-- The calls that a run makes of its invoker.
use agent_features.Common.{
  ◌≡◌, refl, sym, subst, ap, ◌∙◌, Option, none, some, List, [], ◌∷◌, ◌++◌, Bool-cases, inl, inr,
}
use mathlib.Core.List.{append_assoc, append-nil}
use agent_features.Common.Text.{Text, truthy?}
use agent_features.Common.Json.{obj, Fields, end, put_field}
use agent_features.Composer.{
  Step, Composite, TraceEntry, CompositeResult, CapabilityInvoke, Filled, filled, stopped, fill,
  finish, entry, after_invoke, make_step, run_steps, run,
}
use agent_features.Composer.Laws.{caller_context}

-- the arguments of a call
pub record Call : Type 0 where
  pub capability : Text
  pub input : Fields
  pub vendor : Option Text
  pub version : Option Text

-- a call for a step: with the step's names and pins, and the inputs that its references give
abbrev pub IsCall : Step → Fields → Call → Type 0
IsCall st ctx call =
    (call.capability ≡ st.capability)
    × (call.vendor ≡ st.vendor)
    × (call.version ≡ st.version)
    × (fill st.inputs ctx end ≡ filled call.input)

-- One call for each recorded step, in order, in the context of the steps before it; behind them at
-- most one more call, for the step that failed.
abbrev pub Made : List Step → Fields → List TraceEntry → List Call → Type 0
Made sts ctx [] [] = Unit
Made [] ctx [] (call ∷ calls) = ⊥
Made (st ∷ sts) ctx [] (call ∷ []) = IsCall st ctx call
Made (st ∷ sts) ctx [] (call ∷ other ∷ calls) = ⊥
Made sts ctx (e ∷ es) [] = ⊥
Made [] ctx (e ∷ es) (call ∷ calls) = ⊥
Made (st ∷ sts) ctx (e ∷ es) (call ∷ calls) =
    IsCall st ctx call × Made sts (put_field e.step (obj e.output) ctx) es calls

module _ {S : Type 0} (invoke : CapabilityInvoke S) where
  -- the invoker, with each of its calls written down
  abbrev pub logged : CapabilityInvoke (S × List Call)
  logged capability input vendor version (s, calls) =
      let (answer, s') = invoke capability input vendor version s in
      let call : Call = record {
        capability = capability;
        input = input;
        vendor = vendor;
        version = version;
      } in
      (answer, (s', calls ++ call ∷ []))

  -- a run with the log, and the run without it
  record Logged (steps : List Step) (ctx : Fields) (trace : List TraceEntry) (calls : List Call)
      (l : CompositeResult × (S × List Call)) (p : CompositeResult × S) : Type 0 where
    same : l.0 ≡ p.0
    state : l.1.0 ≡ p.1
    fresh : List TraceEntry
    made : List Call
    traced : l.0.trace ≡ trace ++ fresh
    called : l.1.1 ≡ calls ++ made
    proper : Made steps ctx fresh made

  module _ (c : Composite) where
    at_once :
        (steps : List Step) (ctx : Fields) (trace : List TraceEntry) (calls made log : List Call)
        (r : CompositeResult) (s : S)
        → r.trace ≡ trace
        → log ≡ calls ++ made
        → Made steps ctx [] made
        → Logged steps ctx trace calls (r, (s, log)) (r, s)
    at_once steps ctx trace calls made log r s e l m = record {
      same = refl;
      state = refl;
      fresh = [];
      made = made;
      traced = e ∙ sym (append-nil trace);
      called = l;
      proper = m;
    }

    finish-Logged :
        (ctx : Fields) (trace : List TraceEntry) (calls : List Call) (s : S) (f : Filled)
        → Logged [] ctx trace calls (finish c trace f, (s, calls)) (finish c trace f, s)
    finish-Logged ctx trace calls s (filled r) =
        at_once [] ctx trace calls [] calls _ s refl (sym (append-nil calls)) tt
    finish-Logged ctx trace calls s (stopped m) =
        at_once [] ctx trace calls [] calls _ s refl (sym (append-nil calls)) tt

    later :
        (st : Step) (steps : List Step) (ctx : Fields) (trace : List TraceEntry) (calls : List Call)
        (call : Call) (out : Fields) (l : CompositeResult × (S × List Call))
        (p : CompositeResult × S)
        → IsCall st ctx call
        → Logged steps
            (put_field st.name (obj out) ctx)
            (trace ++ entry st out ∷ [])
            (calls ++ call ∷ [])
            l
            p
        → Logged (st ∷ steps) ctx trace calls l p
    later st steps ctx trace calls call out l p i n = record {
      same = n.same;
      state = n.state;
      fresh = entry st out ∷ n.fresh;
      made = call ∷ n.made;
      traced = n.traced ∙ append_assoc trace (entry st out ∷ []) n.fresh;
      called = n.called ∙ append_assoc calls (call ∷ []) n.made;
      proper = (i, n.proper);
    }

    module _ (st : Step) (steps : List Step) (ctx : Fields) (trace : List TraceEntry)
        (calls : List Call) (rest_l : Fields → S × List Call → CompositeResult × (S × List Call))
        (rest_p : Fields → S → CompositeResult × S)
        (ih : (out : Fields) (s : S) (log : List Call)
          → Logged steps
              (put_field st.name (obj out) ctx)
              (trace ++ entry st out ∷ [])
              log
              (rest_l out (s, log))
              (rest_p out s)) where
      after_invoke-Logged :
          (call : Call) (output : Option Fields) (err : Option Text) (s : S)
          → IsCall st ctx call
          → Logged
              (st ∷ steps)
              ctx
              trace
              calls
              (after_invoke logged c st trace output err (s, calls ++ call ∷ []) rest_l)
              (after_invoke invoke c st trace output err s rest_p)
      after_invoke-Logged call none err s i =
          at_once (st ∷ steps) ctx trace calls (call ∷ []) _ _ s refl refl i
      after_invoke-Logged call (some out) err s i = elim (Bool-cases (truthy? err)) [
        | inl h ↦ rw h (at_once (st ∷ steps) ctx trace calls (call ∷ []) _ _ s refl refl i)
        | inr h ↦
            rw h (later st steps ctx trace calls call out _ _ i (ih out s (calls ++ call ∷ [])))
      ]

      make_step-Logged :
          (f : Filled) (s : S)
          → fill st.inputs ctx end ≡ f
          → Logged
              (st ∷ steps)
              ctx
              trace
              calls
              (make_step logged c st trace f (s, calls) rest_l)
              (make_step invoke c st trace f s rest_p)
      make_step-Logged (stopped m) s e =
          at_once (st ∷ steps) ctx trace calls [] calls _ s refl (sym (append-nil calls)) tt
      make_step-Logged (filled input) s e =
          let ((output, err), s') = invoke st.capability input st.vendor st.version s in
          after_invoke-Logged
            (record {
              capability = st.capability;
              input = input;
              vendor = st.vendor;
              version = st.version;
            })
            output err s' (refl, refl, refl, e)

    run_steps-Logged :
        (steps : List Step) (ctx : Fields) (trace : List TraceEntry) (calls : List Call) (s : S)
        → Logged steps ctx trace calls
            (run_steps logged c steps ctx trace (s, calls))
            (run_steps invoke c steps ctx trace s)
    unfolding run_steps
    run_steps-Logged [] ctx trace calls s = finish-Logged ctx trace calls s (fill c.output ctx end)
    run_steps-Logged (st ∷ steps) ctx trace calls s =
        make_step-Logged st steps ctx trace calls
          (λ out s'.
            run_steps logged c steps (put_field st.name (obj out) ctx) (trace ++ entry st out ∷ [])
              s')
          (λ out s'.
            run_steps invoke c steps (put_field st.name (obj out) ctx) (trace ++ entry st out ∷ [])
              s')
          (λ out s' log.
            run_steps-Logged steps (put_field st.name (obj out) ctx) (trace ++ entry st out ∷ [])
              log s')
          (fill st.inputs ctx end) s refl

    -- A run calls its invoker once for each step that the trace records, in order, and behind these
    -- at most once more, for the step that fails. Each call has the step's capability and pins, and
    -- as input what the step's references give in the context of the caller's input and the outputs
    -- of the steps before it. Writing the calls down changes neither the result nor the state.
    pub run-calls :
        (input : Fields) (s : S)
        → let l = run logged c input (s, []) in
          let p = run invoke c input s in
          (l.0 ≡ p.0) × (l.1.0 ≡ p.1) × Made c.steps (caller_context input) p.0.trace l.1.1
    unfolding run
    run-calls input s =
        let n = run_steps-Logged c.steps (caller_context input) [] [] s in
        (
          n.same,
          n.state,
          subst
              (λ es.
                Made c.steps (caller_context input) es
                  ((run_steps logged c c.steps (caller_context input) [] (s, [])).1.1))
              (sym n.traced ∙ ap (λ (r : CompositeResult). r.trace) n.same)
              (subst (λ ms. Made c.steps (caller_context input) n.fresh ms) (sym n.called)
                n.proper),
        )
