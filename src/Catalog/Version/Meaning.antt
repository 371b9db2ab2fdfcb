-- ===== src/Catalog/Version/Meaning.antt =====
-- The version specifications as a language, with what each form means.
use agent_features.Common.{
  ℕ, ◌<◌, ◌≡◌, refl, ◌↔◌, ◌⊎◌, ◌∷◌, ◌++◌, [], Bool, not, true, false, length, arith,
}
use agent_features.Common.Text.{Text, codes, mem, split, strip, starts_with, is_digit}
use agent_features.Catalog.Version.{
  Triple, triple, lt_triple, any_version, compare_version, match_spec, match_version,
}
use agent_features.Catalog.Version.Ranges.{
  AtMost, SameLeading, SameRelease, not-lt_triple_iff, within-caret, within-tilde,
}
use agent_features.Catalog.Version.Exact.{eq_triple_iff, compare_bare}

pub data Spec : Type 0 where
  any_version_of : (word : Text) → Spec
  caret : (base : Text) → Spec
  tilde : (base : Text) → Spec
  at_least : (base : Text) → Spec
  at_most : (base : Text) → Spec
  above : (base : Text) → Spec
  below : (base : Text) → Spec
  equal_to : (base : Text) → Spec
  bare : (digit : ℕ) → (rest : Text) → Spec

-- the text of a specification
abbrev pub written : Spec → Text
written (any_version_of word) = word
written (caret base) = b'^' ∷ base
written (tilde base) = b'~' ∷ base
written (at_least base) = codes ">=" ++ base
written (at_most base) = codes "<=" ++ base
written (above base) = codes ">" ++ base
written (below base) = codes "<" ++ base
written (equal_to base) = codes "==" ++ base
written (bare digit rest) = digit ∷ rest

-- The word for any version is one of the five, a bare version begins with a digit, and what stands
-- behind a `>` or a `<` does not begin with `=`.
abbrev pub IsSpec : Spec → Type 0
IsSpec (any_version_of word) = mem word any_version ≡ true
IsSpec (above base) = starts_with base (codes "=") ≡ false
IsSpec (below base) = starts_with base (codes "=") ≡ false
IsSpec (bare digit rest) = is_digit digit ≡ true
IsSpec sp = Unit

-- `a` is less than `b`, place by place
abbrev pub Less : Triple → Triple → Type 0
Less a b =
    (a.major < b.major)
    ⊎ ((a.major ≡ b.major) × ((a.minor < b.minor) ⊎ ((a.minor ≡ b.minor) × (a.patch < b.patch))))

-- the versions that a specification stands for
abbrev pub Means : Spec → Triple → Type 0
Means (any_version_of word) v = Unit
Means (caret base) v = AtMost (triple base) v × SameLeading (triple base) v
Means (tilde base) v =
    AtMost (triple base) v × SameRelease (length (split b'.' base)) (triple base) v
Means (at_least base) v = AtMost (triple base) v
Means (at_most base) v = AtMost v (triple base)
Means (above base) v = Less (triple base) v
Means (below base) v = Less v (triple base)
Means (equal_to base) v = v ≡ triple base
Means (bare digit rest) v = v ≡ triple (digit ∷ rest)

lt_triple_iff : (a b : Triple) → (lt_triple a b ≡ true) ↔ Less a b
lt_triple_iff a b = (λ h. ground arith, λ h. ground arith)

not_iff : {b : Bool} {P : Type 0} → (b ≡ false) ↔ P → (not b ≡ true) ↔ P
not_iff {b = b} p = (λ h. p.0 (ground arith), λ h. let e = p.1 h in ground arith)

any_word : (v : Triple) (word : Text) → mem word any_version ≡ true → match_spec v word ≡ true
unfolding match_spec
any_word v [] h = refl
any_word v (c ∷ rest) h = rw h refl

match_spec-Means_iff :
    (v : Triple) (sp : Spec) → IsSpec sp → (match_spec v (written sp) ≡ true) ↔ Means sp v
unfolding match_spec compare_version
match_spec-Means_iff v (any_version_of word) h = (λ _. tt, λ _. any_word v word h)
match_spec-Means_iff v (caret base) h = within-caret (triple base) v
match_spec-Means_iff v (tilde base) h = within-tilde (split b'.' base) (triple base) v
match_spec-Means_iff v (at_least base) h = not_iff (not-lt_triple_iff (triple base) v)
match_spec-Means_iff v (at_most base) h = not_iff (not-lt_triple_iff v (triple base))
match_spec-Means_iff v (above base) h = rw h (lt_triple_iff (triple base) v)
match_spec-Means_iff v (below base) h = rw h (lt_triple_iff v (triple base))
match_spec-Means_iff v (equal_to base) h = eq_triple_iff v (triple base)
match_spec-Means_iff v (bare digit rest) h = rw (compare_bare v digit rest h) (eq_triple_iff _ _)

-- Every specification, in any white space: a version meets it exactly if it is one of the versions
-- that the specification stands for. Those are all versions for the words for any version; for `^`
-- the versions from the base on with the same left-most part that is not zero; for `~` the versions
-- from the base on with its major part, and with its minor part too where it has a second dotted
-- part; for a comparator the versions that compare so, part by part; and for a bare version the
-- versions with the same parts. The text behind `>` and `<` does not begin with `=`, and a bare
-- version begins with a digit.
pub match_version-Means_iff :
    (version spec : Text) (sp : Spec)
    → IsSpec sp
    → strip spec ≡ written sp
    → (match_version version spec ≡ true) ↔ Means sp (triple version)
unfolding match_version
match_version-Means_iff version spec sp h e = rw e (match_spec-Means_iff (triple version) sp h)
