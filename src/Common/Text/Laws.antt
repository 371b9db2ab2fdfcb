-- ===== src/Common/Text/Laws.antt =====
-- Laws of the text functions.
use agent_features.Common.Text.{Text, ◌==◌, split, starts_with, contains, mem}
use Prim.Native.Nat.{ℕ}
use mathlib.Core.Path.{◌≡◌, refl, sym, ap, ap₂}
use mathlib.Core.Logic.{◌↔◌, ◌≢◌, inl, inr}
use mathlib.Core.Bool.{true, false}
use mathlib.Core.List.{List, [], ◌∷◌, ◌++◌, Memᴰ}
use native.Mathlib.Omega.{arith}
use agent_features.Common.Tests.{eqb, eqb_iff, and-true, Bool-cases}
use agent_features.Common.Lists.{All}

pub eq_refl : (s : Text) → (s == s) ≡ true
eq_refl [] = refl
eq_refl (c ∷ s) = ground (arith, eq_refl s)

pub eq_of_== : (s t : Text) → (s == t) ≡ true → s ≡ t
eq_of_== [] [] h = refl
eq_of_== [] (d ∷ t) h = absurd (ground arith)
eq_of_== (c ∷ s) [] h = absurd (ground arith)
eq_of_== (c ∷ s) (d ∷ t) h = ground (arith, eq_of_== s t)

-- the test decides equality
pub eq_iff : (s t : Text) → ((s == t) ≡ true) ↔ (s ≡ t)
eq_iff s t = (eq_of_== s t, λ e. rw e (eq_refl t))

-- a text without the separator is one part
pub split_atom : (sep : ℕ) (s : Text) → All (λ c. eqb c sep ≡ false) s → split sep s ≡ s ∷ []
unfolding split
split_atom sep [] h = refl
split_atom sep (c ∷ s) h = ground (arith, split_atom sep s h.1)

-- the parts of a text that is cut at a first separator
pub split-append :
    (sep : ℕ) (s t : Text)
    → All (λ c. eqb c sep ≡ false) s
    → split sep (s ++ sep ∷ t) ≡ s ∷ split sep t
unfolding split
split-append sep [] t h = ground arith
split-append sep (c ∷ s) t h = ground (arith, split-append sep s t h.1)

pub split-ne-nil : (sep : ℕ) (s : Text) → split sep s ≢ []
unfolding split
split-ne-nil sep [] = ground arith
split-ne-nil sep (c ∷ s) = ground (arith, split-ne-nil sep s)

-- q stands somewhere in s
abbrev pub IsInfix : Text → Text → Type 0
IsInfix q s = (before : Text) × (behind : Text) × (s ≡ before ++ q ++ behind)

starts_with→append : (s p : Text) → starts_with s p ≡ true → (behind : Text) × (s ≡ p ++ behind)
starts_with→append s [] h = (s, refl)
starts_with→append [] (d ∷ p) h = absurd (ground arith)
starts_with→append (c ∷ s) (d ∷ p) h =
    let (same, more) = and-true (eqb c d) (starts_with s p) h in
    let (behind, e) = starts_with→append s p more in (behind, ap₂ ◌∷◌ ((eqb_iff c d).0 same) e)

pub starts_with-append : (p s : Text) → starts_with (p ++ s) p ≡ true
starts_with-append [] [] = refl
starts_with-append [] (c ∷ s) = refl
starts_with-append (c ∷ p) s = ground (arith, starts_with-append p s)

contains→IsInfix : (q s : Text) → contains q s ≡ true → IsInfix q s
contains→IsInfix q [] h = let (behind, e) = starts_with→append [] q h in ([], behind, e)
contains→IsInfix q (c ∷ s) h = elim (Bool-cases (starts_with (c ∷ s) q)) [
  | inl here ↦ let (behind, e) = starts_with→append (c ∷ s) q here in ([], behind, e)
  | inr no_here ↦
      let (before, behind, e) = contains→IsInfix q s (rw no_here at h) in
      (c ∷ before, behind, ap (◌∷◌ c) e)
]

contains-prefix : (q s : Text) → starts_with s q ≡ true → contains q s ≡ true
contains-prefix q [] h = h
contains-prefix q (c ∷ s) h = rw h

IsInfix→contains : (q before behind : Text) → contains q (before ++ q ++ behind) ≡ true
IsInfix→contains q [] behind = contains-prefix q _ (starts_with-append q behind)
IsInfix→contains q (c ∷ before) behind = ground (arith, IsInfix→contains q before behind)

-- `q in s` looks for the text everywhere
pub contains_iff : (q s : Text) → (contains q s ≡ true) ↔ IsInfix q s
contains_iff q s =
    (contains→IsInfix q s, λ (before, behind, e). rw e (IsInfix→contains q before behind))

pub mem_iff : (t : Text) (ts : List Text) → (mem t ts ≡ true) ↔ Memᴰ t ts
mem_iff t ts = (to ts, from ts)
  where
    to : (ts : List Text) → mem t ts ≡ true → Memᴰ t ts
    to [] h = absurd (ground arith)
    to (x ∷ xs) h = elim (Bool-cases (x == t)) [
      | inl e ↦ Memᴰ.head (sym ((eq_iff x t).0 e))
      | inr e ↦ Memᴰ.tail (to xs (rw e at h))
    ]

    from : (ts : List Text) → Memᴰ t ts → mem t ts ≡ true
    from [] m = elim m [ ]
    from (x ∷ xs) (Memᴰ.head e) = rw (e, eq_refl x)
    from (x ∷ xs) (Memᴰ.tail m) = ground (arith, from xs m)
