-- ===== src/AgentDsl/Printed/Laws.antt =====
-- Reading a printed document does what its statements mean.
use agent_features.Common.{
  ℕ, suc, ◌≡◌, ◌≢◌, refl, ap, ◌∙◌, subst, Option, none, some, List, [], ◌∷◌, ◌++◌, Bool, true,
  false, All, arith,
}
use mathlib.Core.List.{append-nil}
use agent_features.Common.Text.{Text, codes, truthy, lstrip, strip, splitlines}
use agent_features.AgentDsl.Patterns.{in_name, is_name, word}
use agent_features.AgentDsl.Patterns.Laws.{IsWord, IsEntry, Holds, present}
use agent_features.AgentDsl.Patterns.Forward.{
  match_input-text, match_step-text, match_output-text, find_args-text, args_text, input_rest,
  vendor_rest, input_text, output_text, word-append,
}
use agent_features.AgentDsl.{
  Draft, read_line, read_lines, read_as, keyword, read_agent, add_input, read_input, read_step,
  read_output, empty_draft, check_name, check_steps, composite_of, conclude, parse,
}
use agent_features.AgentDsl.Printed.{
  Statement, agent, input, step, output, print, print_all, IsStatement, mean, mean_all,
}
use agent_features.AgentDsl.Printed.Lines.{
  Clean, append-Clean, Ends, cons-Ends, append-Ends, ref-Clean, ref-Ends, name-ref, statement-Clean,
  strip-Ends, splitlines-Clean,
}

input_rest-Clean : (o : Bool) (t : Text) → Clean t → Clean (input_rest o t)
input_rest-Clean true t h = h
input_rest-Clean false t h = h

input_rest-Ends : (o : Bool) (t : Text) → Ends t → Ends (input_rest o t)
input_rest-Ends true t h = append-Ends (codes "?: ") t h
input_rest-Ends false t h = append-Ends (codes ": ") t h

vendor_rest-Clean :
    (v : Option Text) (t : Text) → Holds (IsWord in_name) v → Clean t → Clean (vendor_rest v t)
vendor_rest-Clean none t hv h = h
vendor_rest-Clean (some v) t (present hv) h = append-Clean v t (ref-Clean v (name-ref v hv)) h

vendor_rest-Ends : (v : Option Text) (t : Text) → Ends t → Ends (vendor_rest v t)
vendor_rest-Ends none t h = h
vendor_rest-Ends (some v) t h = cons-Ends b'@' (v ++ t) (append-Ends v t h)

args_text-Clean : (es : List (Text × Text)) → All IsEntry es → Clean (args_text es)
unfolding args_text
args_text-Clean [] h = refl
args_text-Clean ((k, r) ∷ []) h =
    append-Clean k _ (ref-Clean k (name-ref k h.0.0)) (ref-Clean r h.0.1)
args_text-Clean ((k, r) ∷ e ∷ es) h =
    append-Clean k _ (ref-Clean k (name-ref k h.0.0))
      (append-Clean r _ (ref-Clean r h.0.1) (args_text-Clean (e ∷ es) h.1))

name-Clean : (s : Text) → IsWord in_name s → Clean s
name-Clean s h = ref-Clean s (name-ref s h)

print-Clean : (st : Statement) → IsStatement st → Clean (print st)
print-Clean (agent n) h = name-Clean n h
print-Clean (input m t) (hn, ht, _) =
    append-Clean m.name _ (name-Clean m.name hn)
      (input_rest-Clean m.optional m.typ (name-Clean m.typ ht))
print-Clean (step n c v es) (hn, hc, hv, he) = append-Clean n _ (name-Clean n hn) (
    append-Clean c _ (name-Clean c hc)
      (vendor_rest-Clean v _ hv (append-Clean (args_text es) _ (args_text-Clean es he) refl)))
print-Clean (output n r) (hn, hr) = append-Clean n _ (name-Clean n hn) (ref-Clean r hr)

print-Ends : (st : Statement) → IsStatement st → Ends (print st)
print-Ends (agent n) h = append-Ends (codes "agent ") n (ref-Ends n (name-ref n h))
print-Ends (input m t) (hn, ht, _) =
    append-Ends (codes "input ") _
      (append-Ends m.name _ (input_rest-Ends m.optional m.typ (ref-Ends m.typ (name-ref m.typ ht))))
print-Ends (step n c v es) (hn, hc, hv, he) = append-Ends (codes "step ") _ (
    append-Ends n _ (
      append-Ends (codes " = ") _ (
        append-Ends c _ (
          vendor_rest-Ends v _
            (cons-Ends b'(' _ (append-Ends (args_text es) (b')' ∷ []) (refl, refl)))))))
print-Ends (output n r) (hn, hr) =
    append-Ends (codes "output ") _ (append-Ends n _ (append-Ends (codes " = ") r (ref-Ends r hr)))

print-front : (st : Statement) → lstrip (print st) ≡ print st
print-front (agent n) = refl
print-front (input m t) = refl
print-front (step n c v es) = refl
print-front (output n r) = refl

word-is_name : (n : Text) → IsWord in_name n → is_name n ≡ true
unfolding is_name
word-is_name n h =
    let whole : word in_name n ≡ some (n, []) =
      subst (λ t. word in_name t ≡ some (n, [])) (append-nil n) (word-append in_name n [] h tt) in
    rw whole refl

strip-word : (n : Text) → IsWord in_name n → strip n ≡ n
strip-word n h = strip-Ends n (ref-Ends n (name-ref n h)) (front n h)
  where
    front : (n : Text) → IsWord in_name n → lstrip n ≡ n
    front [] h = elim h [ ]
    front (c ∷ s) h = ground (arith, h.0)

-- the line of a statement, read by its keyword
read_as-print :
    (st : Statement) (i : ℕ) (d : Draft)
    → IsStatement st
    → read_as (keyword (print st)) i (print st) d ≡ mean st d
read_as-print (agent n) i d h =
    ap (λ s. read_agent i s d) (strip-word n h) ∙ rw (word-is_name n h) refl
read_as-print (input m t) i d (hn, ht, known) =
    ap (λ o. read_input i (input_text m) o d) (match_input-text m hn ht)
    ∙ ap (λ o. add_input i m o d) known
read_as-print (step n c v es) i d (hn, hc, hv, he) =
    ap (λ o. read_step i (print (step n c v es)) o d) (match_step-text _ (hn, hc, hv))
    ∙ rw (find_args-text es he) refl
read_as-print (output n r) i d (hn, hr) =
    ap (λ o. read_output i (output_text n r) o d) (match_output-text n r hn hr)

read_line-print :
    (st : Statement) (i : ℕ) (d : Draft) → IsStatement st → read_line i (print st) d ≡ mean st d
read_line-print st i d h =
    ap (λ line. read_as (keyword line) i line d)
      (statement-Clean (print st) (print-Clean st h) (print-Ends st h) (print-front st))
    ∙ read_as-print st i d h

read_lines-print :
    (sts : List Statement) (i : ℕ) (d : Draft)
    → All IsStatement sts
    → read_lines i (splitlines (print_all sts)) d ≡ mean_all sts d
unfolding read_lines
read_lines-print [] i d h = unfold splitlines in refl
read_lines-print (st ∷ sts) i d h =
    ap (λ ls. read_lines i ls d) (splitlines-Clean (print st) (print_all sts) (print-Clean st h.0))
    ∙ (ap (read_lines (suc i) (splitlines (print_all sts))) (read_line-print st i d h.0)
        ∙ read_lines-print sts (suc i) (mean st d) h.1)

mean-errors : (st : Statement) (d : Draft) → (mean st d).errors ≡ d.errors
mean-errors (agent n) d = refl
mean-errors (input m t) d = refl
mean-errors (step n c v es) d = refl
mean-errors (output n r) d = refl

mean_all-errors : (sts : List Statement) (d : Draft) → (mean_all sts d).errors ≡ d.errors
mean_all-errors [] d = refl
mean_all-errors (st ∷ sts) d = mean_all-errors sts (mean st d) ∙ mean-errors st d

concluded :
    (d : Draft)
    → truthy d.name ≡ true
    → d.steps ≢ []
    → d.errors ≡ []
    → conclude (check_name d) (check_steps (check_name d).steps (check_name d).errors)
      ≡ (some (composite_of d), [])
concluded d named steps e = rw named (rw e (no_error d.steps steps))
  where
    no_error : (sts : _) → sts ≢ [] → conclude d (check_steps sts []) ≡ (some (composite_of d), [])
    no_error [] ne = absurd (ne refl)
    no_error (st ∷ sts) ne = refl

-- For any statements whose words are words of the language, and that name an agent and have a step:
-- `parse` reads their printed form, without an error, as the composite that the statements mean,
-- which is built from each of them in turn.
pub parse-print :
    (sts : List Statement)
    → All IsStatement sts
    → truthy (mean_all sts empty_draft).name ≡ true
    → (mean_all sts empty_draft).steps ≢ []
    → parse (print_all sts) ≡ (some (composite_of (mean_all sts empty_draft)), [])
unfolding parse
parse-print sts h named steps =
    ap (λ d. conclude (check_name d) (check_steps (check_name d).steps (check_name d).errors))
      (read_lines-print sts 1 empty_draft h)
    ∙ concluded (mean_all sts empty_draft) named steps (mean_all-errors sts empty_draft)
