-- ===== src/AgentDsl/Patterns/Laws.antt =====
-- What the readers of AgentDsl.Patterns read.
use agent_features.Common.{
  ℕ, zero, suc, ◌≡◌, refl, sym, ap, ◌∙◌, Option, none, some, [], ◌∷◌, ◌++◌, Bool, true, arith, All,
  Bool-cases, inl, inr, if◌then◌else◌, ◌>>=◌, subst, is_some, length, eqb, ◌-◌,
}
use mathlib.Core.List.{append-nil}
use agent_features.Common.Text.{Text, codes, lstrip}
use agent_features.AgentDsl.Patterns.{
  is_start, in_name, in_ref, on_taken, span, word, char, literal, spaces, at_end, is_name, question,
  InputMatch, match_input, vendor_of, body, StepMatch, match_step, match_output, match_arg,
  find_args,
}

-- [A-Za-z_] and then characters of a class
abbrev pub IsWord : (ℕ → Bool) → Text → Type 0
IsWord p [] = ⊥
IsWord p (c ∷ s) = (is_start c ≡ true) × All (λ d. p d ≡ true) s

-- what holds of a value that may be missing
pub data Holds {ℓ} {A : Type 0} (P : A → Type ℓ) : Option A → Type ℓ where
  missing : Holds P none
  present : {a : A} → P a → Holds P (some a)

pub Holds-at {ℓ} :
    {A : Type 0} {P : A → Type ℓ} {o : Option A} {a : A} → Holds P o → o ≡ some a → P a
Holds-at missing e = absurd (ground arith)
Holds-at {P = P} (present {a = b} h) e = subst P (ground arith) h

pub >>=-Holds {ℓ κ} :
    {A : Type 0} {B : Type 0} {Q : A → Type κ} {P : B → Type ℓ} {o : Option A} (k : A → Option B)
    → Holds Q o
    → ((a : A) → Q a → Holds P (k a))
    → Holds P (o >>= k)
>>=-Holds k missing f = missing
>>=-Holds k (present {a = a} h) f = f a h

span-All : (p : ℕ → Bool) (s : Text) → All (λ d. p d ≡ true) (span p s).0
unfolding span
span-All p [] = tt
span-All p (c ∷ s) = elim (Bool-cases (p c)) [
  | inl h ↦
      subst (λ b. All (λ d. p d ≡ true) (if b then on_taken c (span p s) else ([], c ∷ s)).0)
        (sym h) (h, span-All p s)
  | inr h ↦
      subst (λ b. All (λ d. p d ≡ true) (if b then on_taken c (span p s) else ([], c ∷ s)).0)
        (sym h) tt
]

pub word-IsWord : (p : ℕ → Bool) (s : Text) → Holds (λ (r : Text × Text). IsWord p r.0) (word p s)
word-IsWord p [] = missing
word-IsWord p (c ∷ s) = elim (Bool-cases (is_start c)) [
  | inl h ↦ rw h (present (h, span-All p s))
  | inr h ↦ rw h missing
]

Any : {A : Type 0} (o : Option A) → Holds (λ (a : A). Unit {0}) o
Any none = missing
Any (some a) = present tt

-- an entry of the arguments: a name and a reference
abbrev pub IsEntry : Text × Text → Type 0
IsEntry e = IsWord in_name e.0 × IsWord in_ref e.1

at_end-Holds : {A : Type 0} {P : A → Type 0} (a : A) (s : Text) → P a → Holds P (at_end a s)
at_end-Holds a [] h = present h
at_end-Holds a (c ∷ s) h = missing

pub match_output-IsEntry : (line : Text) → Holds IsEntry (match_output line)
unfolding match_output
match_output-IsEntry line = >>=-Holds _ (Any (literal (codes "output") line)) λ a _.
    >>=-Holds _ (Any (spaces a)) λ b _. >>=-Holds _ (word-IsWord in_name b) λ n name.
      >>=-Holds _ (Any (char b'=' (lstrip n.1))) λ d _.
        >>=-Holds _ (word-IsWord in_ref (lstrip d)) λ r ref. at_end-Holds (n.0, r.0) r.1 (name, ref)

pub match_input-IsWord :
    (line : Text)
    → Holds (λ (m : InputMatch). IsWord in_name m.name × IsWord in_name m.typ) (match_input line)
unfolding match_input
match_input-IsWord line = >>=-Holds _ (Any (literal (codes "input") line)) λ a _.
    >>=-Holds _ (Any (spaces a)) λ b _. >>=-Holds _ (word-IsWord in_name b) λ n name.
      >>=-Holds _ (Any (char b':' (lstrip (question n.1).1)))
        λ e _. >>=-Holds _ (word-IsWord in_name (lstrip e)) λ t typ. at_end-Holds _ t.1 (name, typ)

vendor_of-IsWord :
    (s : Text) → Holds (λ (r : Option Text × Text). Holds (IsWord in_name) r.0) (vendor_of s)
vendor_of-IsWord [] = present missing
vendor_of-IsWord (c ∷ s) = elim (Bool-cases (eqb c b'@')) [
  | inl h ↦ rw h (>>=-Holds _ (word-IsWord in_name s) λ v name. present (present name))
  | inr h ↦ rw h (present missing)
]

-- the parts of a step that are names
abbrev pub IsStepMatch : StepMatch → Type 0
IsStepMatch m =
    IsWord in_name m.name × IsWord in_name m.capability × Holds (IsWord in_name) m.vendor

pub match_step-IsStepMatch : (line : Text) → Holds IsStepMatch (match_step line)
unfolding match_step
match_step-IsStepMatch line = >>=-Holds _ (Any (literal (codes "step") line)) λ a _.
    >>=-Holds _ (Any (spaces a)) λ b _. >>=-Holds _ (word-IsWord in_name b) λ n name.
      >>=-Holds _ (Any (char b'=' (lstrip n.1))) λ d _.
        >>=-Holds _ (word-IsWord in_name (lstrip d)) λ c capability.
          >>=-Holds _ (vendor_of-IsWord c.1) λ v vendor.
            >>=-Holds _ (Any (char b'(' (lstrip v.1)))
              λ g _. >>=-Holds _ (Any (body g)) λ args _. present (name, capability, vendor)

match_arg-IsEntry : (s : Text) → Holds (λ (r : (Text × Text) × Text). IsEntry r.0) (match_arg s)
unfolding match_arg
match_arg-IsEntry s = >>=-Holds _ (word-IsWord in_name s) λ k name.
    >>=-Holds _ (Any (char b':' (lstrip k.1)))
      λ b _. >>=-Holds _ (word-IsWord in_ref (lstrip b)) λ r ref. present (name, ref)

pub find_args-IsEntry : (skip : ℕ) (s : Text) → All IsEntry (find_args skip s)
unfolding find_args
find_args-IsEntry skip [] = tt
find_args-IsEntry (suc skip) (c ∷ s) = find_args-IsEntry skip s
find_args-IsEntry zero (c ∷ s) =
    (elim (match_arg (c ∷ s))
        as (λ (o : Option ((Text × Text) × Text)).
          Holds (λ (r : (Text × Text) × Text). IsEntry r.0) o
          → All IsEntry (elim o [
            | none ↦ find_args zero s
            | some (entry, rest) ↦ entry ∷ find_args (length s - length rest) s
          ])) [
            | none ↦ λ h. find_args-IsEntry zero s
            | some (entry, rest) ↦
                λ h. (Holds-at h refl, find_args-IsEntry (length s - length rest) s)
          ])
      (match_arg-IsEntry (c ∷ s))

span-++ : (p : ℕ → Bool) (s : Text) → (span p s).0 ++ (span p s).1 ≡ s
unfolding span
span-++ p [] = refl
span-++ p (c ∷ s) = elim (Bool-cases (p c)) [ inl h ↦ rw (h, span-++ p s) refl | inr h ↦ rw h refl ]

Holds-is_some :
    {A : Type 0} {P : Type 0} {o : Option A} → Holds (λ (a : A). P) o → is_some o ≡ true → P
Holds-is_some missing e = absurd (ground arith)
Holds-is_some (present h) e = h

word-Whole :
    (p : ℕ → Bool) (s : Text)
    → Holds (λ (r : Text × Text). IsWord p r.0 × (r.0 ++ r.1 ≡ s)) (word p s)
word-Whole p [] = missing
word-Whole p (c ∷ s) = elim (Bool-cases (is_start c)) [
  | inl h ↦ rw h (present ((h, span-All p s), ap (λ t. c ∷ t) (span-++ p s)))
  | inr h ↦ rw h missing
]

at_end-Word :
    (p : ℕ → Bool) (s n r : Text)
    → IsWord p n
    → n ++ r ≡ s
    → Holds (λ (m : Text). IsWord p s) (at_end n r)
at_end-Word p s n [] h e = present (subst (IsWord p) (sym (append-nil n) ∙ e) h)
at_end-Word p s n (c ∷ r) h e = missing

-- a name is a word and nothing behind it
pub is_name-IsWord : (s : Text) → is_name s ≡ true → IsWord in_name s
unfolding is_name
is_name-IsWord s =
    Holds-is_some
      (>>=-Holds _ (word-Whole in_name s) λ r whole. at_end-Word in_name s r.0 r.1 whole.0 whole.1)
