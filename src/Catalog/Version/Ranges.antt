-- ===== src/Catalog/Version/Ranges.antt =====
-- What the version specifications mean.
use agent_features.Common.{
  ℕ, ◌<◌, ◌≤◌, ◌≡◌, refl, ◌↔◌, ◌⊎◌, List, [], ◌∷◌, Bool, true, false, not, eqb, length, arith,
  if◌then◌else◌,
}
use agent_features.Common.Text.{Text, codes, mem, split, strip, starts_with}
use agent_features.Catalog.Version.{
  Triple, triple, lt_triple, eq_triple, within, caret_upper, tilde_upper, any_version,
  compare_version, match_spec, match_version,
}

-- `a` is at most `b`, place by place
abbrev pub AtMost : Triple → Triple → Type 0
AtMost a b =
    (a.major < b.major)
    ⊎ ((a.major ≡ b.major) × ((a.minor < b.minor) ⊎ ((a.minor ≡ b.minor) × (a.patch ≤ b.patch))))

-- the same left-most part that is not zero, and zeros before it
abbrev pub SameLeading : Triple → Triple → Type 0
SameLeading base v =
    ((0 < base.major) × (v.major ≡ base.major))
    ⊎ ((base.major ≡ 0)
        × (v.major ≡ 0)
        × (((0 < base.minor) × (v.minor ≡ base.minor))
            ⊎ ((base.minor ≡ 0) × (v.minor ≡ 0) × (v.patch ≡ base.patch))))

-- the same major part, and the same minor part where the specification gives one
abbrev pub SameRelease : ℕ → Triple → Triple → Type 0
SameRelease parts base v =
    (v.major ≡ base.major) × ((parts < 2) ⊎ ((2 ≤ parts) × (v.minor ≡ base.minor)))

pub not-lt_triple_iff : (a b : Triple) → (lt_triple b a ≡ false) ↔ AtMost a b
not-lt_triple_iff a b = (λ h. ground arith, λ h. ground arith)

pub within-caret :
    (base v : Triple)
    → (within base (caret_upper base) v ≡ true) ↔ (AtMost base v × SameLeading base v)
unfolding caret_upper
within-caret base v = (λ h. ground arith, λ h. ground arith)

pub within-tilde :
    (comps : List Text) (base v : Triple)
    → (within base (tilde_upper comps base) v ≡ true)
      ↔ (AtMost base v × SameRelease (length comps) base v)
unfolding tilde_upper
within-tilde comps base v = (λ h. ground arith, λ h. ground arith)

-- A caret specification `^base`, white space around it dropped, is met exactly by the versions
-- that are at least `base` and agree with it up to and with its left-most non-zero part.
pub match_version-caret_iff :
    (version spec rest : Text)
    → strip spec ≡ b'^' ∷ rest
    → (match_version version spec ≡ true)
      ↔ (AtMost (triple rest) (triple version) × SameLeading (triple rest) (triple version))
unfolding match_version
match_version-caret_iff version spec rest h = rw h (within-caret (triple rest) (triple version))

-- A tilde specification `~base` is met exactly by the versions that are at least `base`, with its
-- major part, and with its minor part too where `base` has a second dotted part.
pub match_version-tilde_iff :
    (version spec rest : Text)
    → strip spec ≡ b'~' ∷ rest
    → (match_version version spec ≡ true) ↔ (
        AtMost (triple rest) (triple version)
        × SameRelease (length (split b'.' rest)) (triple rest) (triple version))
unfolding match_version
match_version-tilde_iff version spec rest h =
    rw h (within-tilde (split b'.' rest) (triple rest) (triple version))

-- A test that holds at both ends holds between them. Both branches of an `if` hand that on.
if-convex :
    (t : Bool) {pa pb pc qa qb qc : Bool}
    → (pa ≡ true → pc ≡ true → pb ≡ true)
    → (qa ≡ true → qc ≡ true → qb ≡ true)
    → (if t then pa else qa) ≡ true
    → (if t then pc else qc) ≡ true
    → (if t then pb else qb) ≡ true
if-convex true p q = p
if-convex false p q = q

module _ (base a b c : Triple) (p : AtMost a b) (q : AtMost b c) where
  ge-convex :
      not (lt_triple a base) ≡ true → not (lt_triple c base) ≡ true → not (lt_triple b base) ≡ true
  ge-convex h k = ground arith

  le-convex :
      not (lt_triple base a) ≡ true → not (lt_triple base c) ≡ true → not (lt_triple base b) ≡ true
  le-convex h k = ground arith

  gt-convex : lt_triple base a ≡ true → lt_triple base c ≡ true → lt_triple base b ≡ true
  gt-convex h k = ground arith

  lt-convex : lt_triple a base ≡ true → lt_triple c base ≡ true → lt_triple b base ≡ true
  lt-convex h k = ground arith

  eq-convex : eq_triple a base ≡ true → eq_triple c base ≡ true → eq_triple b base ≡ true
  eq-convex h k = ground arith

compare_version-convex :
    (spec : Text) (a b c : Triple)
    → AtMost a b
    → AtMost b c
    → compare_version a spec ≡ true
    → compare_version c spec ≡ true
    → compare_version b spec ≡ true
unfolding compare_version
compare_version-convex spec a b c p q =
    if-convex (starts_with spec (codes ">=")) (ge-convex _ a b c p q) (
      if-convex (starts_with spec (codes "<=")) (le-convex _ a b c p q) (
        if-convex (starts_with spec (codes ">")) (gt-convex _ a b c p q) (
          if-convex (starts_with spec (codes "<")) (lt-convex _ a b c p q) (
            if-convex (starts_with spec (codes "==")) (eq-convex _ a b c p q)
              (eq-convex _ a b c p q)))))

within-convex :
    (base upper a b c : Triple)
    → AtMost a b
    → AtMost b c
    → within base upper a ≡ true
    → within base upper c ≡ true
    → within base upper b ≡ true
within-convex base upper a b c p q h k = ground arith

match_spec-convex :
    (spec : Text) (a b c : Triple)
    → AtMost a b
    → AtMost b c
    → match_spec a spec ≡ true
    → match_spec c spec ≡ true
    → match_spec b spec ≡ true
unfolding match_spec
match_spec-convex [] a b c p q = λ _ _. refl
match_spec-convex (d ∷ rest) a b c p q =
    if-convex (mem (d ∷ rest) any_version) (λ _ _. refl)
      (if-convex (eqb d b'^') (within-convex (triple rest) (caret_upper (triple rest)) a b c p q) (
        if-convex (eqb d b'~')
          (within-convex (triple rest) (tilde_upper (split b'.' rest) (triple rest)) a b c p q)
          (compare_version-convex (d ∷ rest) a b c p q)))

-- Every specification names an unbroken range: a version between two that meet it meets it too.
pub match_version-convex :
    (spec a b c : Text)
    → AtMost (triple a) (triple b)
    → AtMost (triple b) (triple c)
    → match_version a spec ≡ true
    → match_version c spec ≡ true
    → match_version b spec ≡ true
unfolding match_version
match_version-convex spec a b c = match_spec-convex (strip spec) (triple a) (triple b) (triple c)
