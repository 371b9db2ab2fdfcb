-- ===== src/AgentDsl/Patterns/Forward.antt =====
-- The readers of AgentDsl.Patterns in front of what they read.
use agent_features.Common.{
  ℕ, zero, ◌-◌, ◌≡◌, refl, sym, ap, ◌∙◌, subst, Option, none, some, List, [], ◌∷◌, ◌++◌, Bool, true,
  false, All, length, length-append, arith,
}
use mathlib.Core.List.{append_assoc, append-nil}
use agent_features.Common.Text.{Text, codes, lstrip}
use agent_features.AgentDsl.Patterns.{
  in_name, in_ref, on_taken, span, word, question, InputMatch, match_input, vendor_of, cons_body,
  body, StepMatch, match_step, match_output, match_arg, find_args,
}
use agent_features.AgentDsl.Patterns.Laws.{IsWord, IsEntry, IsStepMatch, Holds, present}

-- a text that a class of characters does not go on into
abbrev pub Stops : (ℕ → Bool) → Text → Type 0
Stops p [] = Unit
Stops p (c ∷ s) = p c ≡ false

span-append :
    (p : ℕ → Bool) (w rest : Text)
    → All (λ c. p c ≡ true) w
    → Stops p rest
    → span p (w ++ rest) ≡ (w, rest)
unfolding span
span-append p [] [] h stop = refl
span-append p [] (c ∷ s) h stop = rw stop refl
span-append p (c ∷ w) rest h stop = rw h.0 (ap (on_taken c) (span-append p w rest h.1 stop))

pub word-append :
    (p : ℕ → Bool) (w rest : Text) → IsWord p w → Stops p rest → word p (w ++ rest) ≡ some (w, rest)
word-append p [] rest h stop = elim h [ ]
word-append p (c ∷ w) rest h stop =
    rw h.0 (ap (λ r. some (on_taken c r)) (span-append p w rest h.1 stop))

-- nothing is stripped in front of a word
lstrip-word : (p : ℕ → Bool) (w rest : Text) → IsWord p w → lstrip (w ++ rest) ≡ w ++ rest
lstrip-word p [] rest h = elim h [ ]
lstrip-word p (c ∷ w) rest h = ground (arith, h.0)

word-lstrip :
    (p : ℕ → Bool) (w rest : Text)
    → IsWord p w
    → Stops p rest
    → word p (lstrip (w ++ rest)) ≡ some (w, rest)
word-lstrip p w rest h stop = ap (word p) (lstrip-word p w rest h) ∙ word-append p w rest h stop

word-whole : (p : ℕ → Bool) (w : Text) → IsWord p w → word p (lstrip w) ≡ some (w, [])
word-whole p w h =
    subst (λ t. word p (lstrip t) ≡ some (w, [])) (append-nil w) (word-lstrip p w [] h tt)

-- output n = r
abbrev pub output_text : (name ref : Text) → Text
output_text n r = codes "output" ++ b' ' ∷ (n ++ b' ' ∷ b'=' ∷ b' ' ∷ r)

pub match_output-text :
    (n r : Text) → IsWord in_name n → IsWord in_ref r → match_output (output_text n r) ≡ some (n, r)
unfolding match_output
match_output-text n r hn hr =
    rw (word-lstrip in_name n (b' ' ∷ b'=' ∷ b' ' ∷ r) hn refl) (rw (word-whole in_ref r hr) refl)

-- what follows the name of an input
abbrev pub input_rest : Bool → Text → Text
input_rest true typ = b'?' ∷ b':' ∷ b' ' ∷ typ
input_rest false typ = b':' ∷ b' ' ∷ typ

-- input n: t
abbrev pub input_text : InputMatch → Text
input_text m = codes "input" ++ b' ' ∷ (m.name ++ input_rest m.optional m.typ)

input_rest-Stops : (o : Bool) (typ : Text) → Stops in_name (input_rest o typ)
input_rest-Stops true typ = refl
input_rest-Stops false typ = refl

question-rest : (o : Bool) (typ : Text) → question (input_rest o typ) ≡ (o, b':' ∷ b' ' ∷ typ)
question-rest true typ = refl
question-rest false typ = refl

pub match_input-text :
    (m : InputMatch)
    → IsWord in_name m.name
    → IsWord in_name m.typ
    → match_input (input_text m) ≡ some m
unfolding match_input
match_input-text m hn ht =
    rw (word-lstrip in_name m.name _ hn (input_rest-Stops m.optional m.typ))
      (rw (question-rest m.optional m.typ) (rw (word-whole in_name m.typ ht) refl))

-- what follows the capability of a step
abbrev pub vendor_rest : Option Text → Text → Text
vendor_rest none rest = rest
vendor_rest (some v) rest = b'@' ∷ (v ++ rest)

abbrev pub step_text : StepMatch → Text
step_text m =
    codes "step"
    ++ b' '
      ∷ (m.name
          ++ b' '
            ∷ b'='
            ∷ b' '
            ∷ (m.capability ++ vendor_rest m.vendor (b'(' ∷ (m.args ++ b')' ∷ []))))

body-append : (args : Text) → body (args ++ b')' ∷ []) ≡ some args
body-append [] = refl
body-append (c ∷ []) = refl
body-append (c ∷ d ∷ s) = ap (cons_body c) (body-append (d ∷ s))

vendor_rest-Stops : (v : Option Text) (rest : Text) → Stops in_name (vendor_rest v (b'(' ∷ rest))
vendor_rest-Stops none rest = refl
vendor_rest-Stops (some v) rest = refl

vendor_of-rest :
    (v : Option Text) (rest : Text)
    → Holds (IsWord in_name) v
    → vendor_of (vendor_rest v (b'(' ∷ rest)) ≡ some (v, b'(' ∷ rest)
vendor_of-rest none rest h = refl
vendor_of-rest (some v) rest (present h) = rw (word-append in_name v (b'(' ∷ rest) h refl) refl

pub match_step-text : (m : StepMatch) → IsStepMatch m → match_step (step_text m) ≡ some m
unfolding match_step
match_step-text m (hn, hc, hv) =
    let args = m.args ++ b')' ∷ [] in
    rw (word-lstrip in_name m.name _ hn refl) (
      rw (word-lstrip in_name m.capability _ hc (vendor_rest-Stops m.vendor args))
        (rw (vendor_of-rest m.vendor args hv) (rw (body-append m.args) refl)))

match_arg-text :
    (k r rest : Text)
    → IsWord in_name k
    → IsWord in_ref r
    → Stops in_ref rest
    → match_arg (k ++ b':' ∷ b' ' ∷ (r ++ rest)) ≡ some ((k, r), rest)
unfolding match_arg
match_arg-text k r rest hk hr stop =
    rw (word-append in_name k (b':' ∷ b' ' ∷ (r ++ rest)) hk refl)
      (rw (word-lstrip in_ref r rest hr stop) refl)

skip-append : (u t : Text) → find_args (length u) (u ++ t) ≡ find_args 0 t
unfolding find_args
skip-append [] t = refl
skip-append (c ∷ u) t = skip-append u t

-- where a match of a text ends, the search goes on
skip-suffix : (s u t : Text) → s ≡ u ++ t → find_args (length s - length t) s ≡ find_args 0 t
skip-suffix s u t e =
    ap (λ n. find_args n s) (omega (arith, ap length e, length-append u t))
    ∙ (ap (find_args (length u)) e ∙ skip-append u t)

some_inj : {A : Type 0} {a b : A} → some a ≡ some b → a ≡ b
some_inj e = ground arith

found :
    (c : ℕ) (s u t : Text) (entry : Text × Text)
    → match_arg (c ∷ s) ≡ some (entry, t)
    → s ≡ u ++ t
    → find_args 0 (c ∷ s) ≡ entry ∷ find_args 0 t
unfolding find_args
found c s u t entry e h =
    (elim (match_arg (c ∷ s))
        as (λ (o : Option ((Text × Text) × Text)).
          o ≡ some (entry, t)
          → elim o [
            | none ↦ find_args zero s
            | some (first, rest) ↦ first ∷ find_args (length s - length rest) s
          ]
            ≡ entry ∷ find_args 0 t) [
              | none ↦ λ e. absurd (ground arith)
              | some (first, rest) ↦ λ e.
                  ap (λ (f : (Text × Text) × Text). f.0 ∷ find_args (length s - length f.1) s)
                    (some_inj e)
                  ∙ ap (λ es. entry ∷ es) (skip-suffix s u t h)
            ])
      e

find_args-entry :
    (k r rest : Text)
    → IsWord in_name k
    → IsWord in_ref r
    → Stops in_ref rest
    → find_args 0 (k ++ b':' ∷ b' ' ∷ (r ++ rest)) ≡ (k, r) ∷ find_args 0 rest
find_args-entry [] r rest hk hr stop = elim hk [ ]
find_args-entry (c ∷ k) r rest hk hr stop =
    found c _ (k ++ b':' ∷ b' ' ∷ r) rest (c ∷ k, r) (match_arg-text (c ∷ k) r rest hk hr stop)
      (sym (append_assoc k (b':' ∷ b' ' ∷ r) rest))

-- k: r, k: r, …
unfoldable pub args_text : List (Text × Text) → Text
args_text [] = []
args_text ((k, r) ∷ []) = k ++ b':' ∷ b' ' ∷ r
args_text ((k, r) ∷ e ∷ es) = k ++ b':' ∷ b' ' ∷ (r ++ b',' ∷ b' ' ∷ args_text (e ∷ es))

nothing : find_args 0 [] ≡ []
unfolding find_args
nothing = refl

comma : (s : Text) → find_args 0 (b',' ∷ b' ' ∷ s) ≡ find_args 0 s
unfolding find_args match_arg
comma s = refl

pub find_args-text : (es : List (Text × Text)) → All IsEntry es → find_args 0 (args_text es) ≡ es
unfolding args_text
find_args-text [] h = nothing
find_args-text ((k, r) ∷ []) h =
    subst (λ s. find_args 0 (k ++ b':' ∷ b' ' ∷ s) ≡ (k, r) ∷ []) (append-nil r)
      (find_args-entry k r [] h.0.0 h.0.1 tt ∙ ap (λ es. (k, r) ∷ es) nothing)
find_args-text ((k, r) ∷ e ∷ es) h =
    find_args-entry k r _ h.0.0 h.0.1 refl
    ∙ ap (λ es. (k, r) ∷ es) (comma (args_text (e ∷ es)) ∙ find_args-text (e ∷ es) h.1)
