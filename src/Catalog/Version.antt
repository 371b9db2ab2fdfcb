-- ===== src/Catalog/Version.antt =====
-- `_semver_key`, `_triple` and `match_version` of gateway/catalog.py.
pub mod Ranges
pub mod Exact
pub mod Meaning
use agent_features.Common.{
  ℕ, ◌+◌, List, [], ◌∷◌, ◌++◌, map, Bool, true, false, ◌&&◌, not, eqb, ltb, leb, length,
  if◌then◌else◌,
}
use agent_features.Common.Text.{Text, codes, mem, split, strip, isdigit, int_of, starts_with, after}
use agent_features.Common.Order.{WeakOrder, nat_order, pair_order, by}

-- parts[0]; `split` gives at least one part
abbrev pub first : List Text → Text
first [] = []
first (p ∷ ps) = p

abbrev pub part_key : Text → ℕ
part_key p = if isdigit p then int_of p else 0

unfoldable pub semver_key : Text → List ℕ
semver_key version = map part_key (split b'.' (first (split b'-' version)))

pub record Triple : Type 0 where
  pub major : ℕ
  pub minor : ℕ
  pub patch : ℕ

-- key[0], key[1], key[2] of a list that is long enough
abbrev pub first_three : List ℕ → Triple
first_three (a ∷ b ∷ c ∷ rest) = record { major = a; minor = b; patch = c }
first_three _ = record { major = 0; minor = 0; patch = 0 }

unfoldable pub triple : Text → Triple
triple version = first_three (semver_key version ++ 0 ∷ 0 ∷ 0 ∷ [])

-- Python's order on the tuples
abbrev pub triple_order : WeakOrder Triple
triple_order =
    by (λ t. (t.major, (t.minor, t.patch))) (pair_order nat_order (pair_order nat_order nat_order))

abbrev pub lt_triple : Triple → Triple → Bool
lt_triple = triple_order.lt

abbrev pub eq_triple : Triple → Triple → Bool
eq_triple a b = eqb a.major b.major && (eqb a.minor b.minor && eqb a.patch b.patch)

-- base <= v < upper
abbrev pub within : Triple → Triple → Triple → Bool
within base upper v = not (lt_triple v base) && lt_triple v upper

unfoldable pub caret_upper : Triple → Triple
caret_upper base =
    if ltb 0 base.major
    then record { major = base.major + 1; minor = 0; patch = 0 }
    else if ltb 0 base.minor
    then record { major = 0; minor = base.minor + 1; patch = 0 }
    else record { major = 0; minor = 0; patch = base.patch + 1 }

unfoldable pub tilde_upper : List Text → Triple → Triple
tilde_upper comps base =
    if leb 2 (length comps)
    then record { major = base.major; minor = base.minor + 1; patch = 0 }
    else record { major = base.major + 1; minor = 0; patch = 0 }

-- the comparators, in the order in which the loop tries them, and the bare version
unfoldable pub compare_version : Triple → Text → Bool
compare_version v spec =
    if starts_with spec (codes ">=")
    then not (lt_triple v (triple (after (codes ">=") spec)))
    else if starts_with spec (codes "<=")
    then not (lt_triple (triple (after (codes "<=") spec)) v)
    else if starts_with spec (codes ">")
    then lt_triple (triple (after (codes ">") spec)) v
    else if starts_with spec (codes "<")
    then lt_triple v (triple (after (codes "<") spec))
    else if starts_with spec (codes "==")
    then eq_triple v (triple (after (codes "==") spec))
    else eq_triple v (triple spec)

abbrev pub any_version : List Text
any_version = [] ∷ codes "*" ∷ codes "latest" ∷ codes "x" ∷ codes "X" ∷ []

-- `match_version` behind `spec.strip()`
unfoldable pub match_spec : Triple → Text → Bool
match_spec v [] = true
match_spec v (c ∷ rest) =
    if mem (c ∷ rest) any_version
    then true
    else if eqb c b'^'
    then within (triple rest) (caret_upper (triple rest)) v
    else if eqb c b'~'
    then within (triple rest) (tilde_upper (split b'.' rest) (triple rest)) v
    else compare_version v (c ∷ rest)

unfoldable pub match_version : Text → Text → Bool
unfolding match_spec
match_version version spec = match_spec (triple version) (strip spec)
