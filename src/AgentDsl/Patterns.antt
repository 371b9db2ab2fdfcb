-- ===== src/AgentDsl/Patterns.antt =====
-- The regular expressions of gateway/agentdsl.py as readers. In each of them what follows a
-- repetition begins with a character that cannot be in it, so a repetition takes all that it can,
-- and the expression matches in one way at most.
pub mod Laws
pub mod Forward
use agent_features.Common.{
  is_some, ℕ, zero, suc, ◌-◌, Option, none, some, List, [], ◌∷◌, ◌++◌, Bool, true, false, ◌&&◌,
  ◌||◌, leb, eqb, length, if◌then◌else◌, ◌>>=◌,
}
use agent_features.Common.Text.{Text, codes, lstrip, is_space, is_digit}

abbrev pub is_start : ℕ → Bool
is_start c = (leb b'A' c && leb c b'Z') || ((leb b'a' c && leb c b'z') || eqb c b'_')

-- [A-Za-z0-9_-]
abbrev pub in_name : ℕ → Bool
in_name c = is_start c || (is_digit c || eqb c b'-')

-- [A-Za-z0-9_.-]
abbrev pub in_ref : ℕ → Bool
in_ref c = in_name c || eqb c b'.'

abbrev pub on_taken : ℕ → Text × Text → Text × Text
on_taken c (taken, rest) = (c ∷ taken, rest)

-- the characters of a class in front of a text, and the rest
unfoldable pub span : (ℕ → Bool) → Text → Text × Text
span p [] = ([], [])
span p (c ∷ s) = let more = span p s in if p c then on_taken c more else ([], c ∷ s)

-- [A-Za-z_] and then a class of characters
abbrev pub word : (ℕ → Bool) → Text → Option (Text × Text)
word p [] = none
word p (c ∷ s) = if is_start c then some (on_taken c (span p s)) else none

abbrev pub char : ℕ → Text → Option Text
char k [] = none
char k (c ∷ s) = if eqb c k then some s else none

-- what follows a prefix
abbrev pub literal : Text → Text → Option Text
literal [] s = some s
literal (k ∷ ks) s = do t ← char k s; literal ks t

-- \s+
abbrev pub spaces : Text → Option Text
spaces [] = none
spaces (c ∷ s) = if is_space c then some (lstrip s) else none

-- the end of the text
abbrev pub at_end : {A : Type 0} → A → Text → Option A
at_end a [] = some a
at_end a (c ∷ s) = none

-- re.fullmatch(_NAME, s)
unfoldable pub is_name : Text → Bool
is_name s = is_some (do (n, r) ← word in_name s; at_end n r)

-- (\??)
abbrev pub question : Text → Bool × Text
question [] = (false, [])
question (c ∷ s) = if eqb c b'?' then (true, s) else (false, c ∷ s)

pub record InputMatch : Type 0 where
  pub name : Text
  pub optional : Bool
  pub typ : Text

-- input\s+(NAME)(\??)\s*:\s*(NAME)
unfoldable pub match_input : Text → Option InputMatch
unfolding span
match_input line = do
  a ← literal (codes "input") line
  b ← spaces a
  (name, c) ← word in_name b
  let (optional, d) = question c
  e ← char b':' (lstrip d)
  (typ, f) ← word in_name (lstrip e)
  at_end (record { name = name; optional = optional; typ = typ }) f

-- (?:@(NAME))?, where what follows cannot begin with @
abbrev pub vendor_of : Text → Option (Option Text × Text)
vendor_of [] = some (none, [])
vendor_of (c ∷ s) =
    if eqb c b'@' then (do (v, r) ← word in_name s; some (some v, r)) else some (none, c ∷ s)

abbrev pub cons_body : ℕ → Option Text → Option Text
cons_body c none = none
cons_body c (some s) = some (c ∷ s)

-- (.*)\) up to the end of the text
abbrev pub body : Text → Option Text
body [] = none
body (c ∷ []) = if eqb c b')' then some [] else none
body (c ∷ d ∷ s) = cons_body c (body (d ∷ s))

pub record StepMatch : Type 0 where
  pub name : Text
  pub capability : Text
  pub vendor : Option Text
  pub args : Text

-- step\s+(NAME)\s*=\s*(NAME)(?:@(NAME))?\s*\((.*)\)
unfoldable pub match_step : Text → Option StepMatch
unfolding span
match_step line = do
  a ← literal (codes "step") line
  b ← spaces a
  (name, c) ← word in_name b
  d ← char b'=' (lstrip c)
  (capability, e) ← word in_name (lstrip d)
  (vendor, f) ← vendor_of e
  g ← char b'(' (lstrip f)
  args ← body g
  some (record { name = name; capability = capability; vendor = vendor; args = args })

-- output\s+(NAME)\s*=\s*(REF)
unfoldable pub match_output : Text → Option (Text × Text)
unfolding span
match_output line = do
  a ← literal (codes "output") line
  b ← spaces a
  (name, c) ← word in_name b
  d ← char b'=' (lstrip c)
  (ref, e) ← word in_ref (lstrip d)
  at_end (name, ref) e

-- `_ARG_RE` at the front of a text: (NAME)\s*:\s*(REF), and the rest
unfoldable pub match_arg : Text → Option ((Text × Text) × Text)
unfolding span
match_arg s = do
  (k, a) ← word in_name s
  b ← char b':' (lstrip a)
  (ref, c) ← word in_ref (lstrip b)
  some ((k, ref), c)

-- _ARG_RE.finditer: at every place from left to right, but for those inside a match, of which
-- `skip` counts the ones that are left
unfoldable pub find_args : (skip : ℕ) → Text → List (Text × Text)
unfolding match_arg
find_args skip [] = []
find_args (suc skip) (c ∷ s) = find_args skip s
find_args zero (c ∷ s) = elim (match_arg (c ∷ s)) [
  | none ↦ find_args zero s
  | some (entry, rest) ↦ entry ∷ find_args (length s - length rest) s
]
