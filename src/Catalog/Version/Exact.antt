-- ===== src/Catalog/Version/Exact.antt =====
-- Bare versions, and what becomes of a specification with a single `=`.
use agent_features.Common.{
  ℕ, ◌≡◌, refl, ap, ◌∙◌, ◌↔◌, List, [], ◌∷◌, ◌++◌, map, true, false, eqb, arith,
}
use agent_features.Common.Text.{Text, codes, split, push_char, strip, starts_with, is_digit}
use agent_features.Catalog.Version.{
  Triple, part_key, semver_key, first_three, triple, eq_triple, compare_version, match_spec,
  match_version,
}

pub eq_triple_iff : (a b : Triple) → (eq_triple a b ≡ true) ↔ (a ≡ b)
eq_triple_iff a b = (λ h. ground arith, λ e. ground arith)

-- the first part of a text that does not begin with the separator begins as the text does
first_split :
    (sep c : ℕ) (s : Text)
    → eqb c sep ≡ false
    → (t : Text) × (ts : List Text) × (split sep (c ∷ s) ≡ (c ∷ t) ∷ ts)
unfolding split
first_split sep c s h = rw h (pushed (split sep s))
  where
    pushed : (ps : List Text) → (t : Text) × (ts : List Text) × (push_char c ps ≡ (c ∷ t) ∷ ts)
    pushed [] = ([], [], refl)
    pushed (p ∷ ps) = (p, ps, refl)

-- a version text that begins with neither digit, dash nor dot has major part 0
triple_major :
    (c : ℕ) (s : Text)
    → eqb c b'-' ≡ false
    → eqb c b'.' ≡ false
    → is_digit c ≡ false
    → (triple (c ∷ s)).major ≡ 0
unfolding triple semver_key
triple_major c s dash dot d =
    let (t, ts, e) = first_split b'-' c s dash in
    let (u, us, f) = first_split b'.' c t dot in rw (e, f) (rw d (leading (map part_key us)))
  where
    leading : (ns : List ℕ) → (first_three (0 ∷ ns ++ 0 ∷ 0 ∷ 0 ∷ [])).major ≡ 0
    leading [] = refl
    leading (n ∷ []) = refl
    leading (n ∷ m ∷ ns) = refl

pub compare_bare :
    (v : Triple) (c : ℕ) (rest : Text)
    → is_digit c ≡ true
    → match_spec v (c ∷ rest) ≡ eq_triple v (triple (c ∷ rest))
unfolding match_spec compare_version
compare_bare v c rest d = ground arith

-- A specification that begins with a digit is met exactly by the versions with the same major,
-- minor and patch parts; missing parts count as 0, and what follows a dash does not count.
pub match_version-bare_iff :
    (version spec rest : Text) (c : ℕ)
    → strip spec ≡ c ∷ rest
    → is_digit c ≡ true
    → (match_version version spec ≡ true) ↔ (triple version ≡ triple (c ∷ rest))
unfolding match_version
match_version-bare_iff version spec rest c h d =
    rw (h, compare_bare (triple version) c rest d) (eq_triple_iff _ _)

compare_equals :
    (v : Triple) (rest : Text)
    → starts_with rest (codes "=") ≡ false
    → match_spec v (b'=' ∷ rest) ≡ eq_triple v (triple (b'=' ∷ rest))
unfolding match_spec compare_version
compare_equals v rest d = rw d

-- A specification with a single `=` in front is met by no version whose major part is not 0,
-- whatever follows the sign, unless that is a second `=`.
pub match_version-equals :
    (version spec rest : Text)
    → strip spec ≡ b'=' ∷ rest
    → starts_with rest (codes "=") ≡ false
    → match_version version spec ≡ true
    → (triple version).major ≡ 0
unfolding match_version
match_version-equals version spec rest h d m =
    let e =
      (eq_triple_iff (triple version) (triple (b'=' ∷ rest))).0
        (rw (h, compare_equals (triple version) rest d) at m) in
    ap (λ (t : Triple). t.major) e ∙ triple_major b'=' rest refl refl refl
