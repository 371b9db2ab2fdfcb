-- ===== src/Common/Sort/Best.antt =====
-- The first of a sorted selection: it is selected, and nothing that is selected is less.
use mathlib.Core.Path.{◌≡◌, refl, ap, subst}
use mathlib.Core.Bool.{Bool, true, false}
use mathlib.Core.Logic.{◌↔◌, inl, inr}
use mathlib.Core.Option.{none, some}
use mathlib.Core.List.{List, [], ◌∷◌, Memᴰ}
use native.Mathlib.Omega.{arith}
use agent_features.Common.Tests.{Bool-cases}
use agent_features.Common.Lists.{All, keep, head?, keep-All, All-keep, All-of_keep, All-Memᴰ}
use agent_features.Common.Order.{WeakOrder, lt_irrefl}
use agent_features.Common.Sort.{
  sorted, insert_by, IsSorted, sorted-IsSorted, All-sorted, All-sorted_inv,
}

pub record IsBest {ℓ} {A : Type ℓ} (o : WeakOrder A) (p : A → Bool) (xs : List A) (a : A)
    : Type ℓ where
  pub listed : Memᴰ a xs
  pub selected : p a ≡ true
  pub least : All (λ b. p b ≡ true → o.lt b a ≡ false) xs

module _ {ℓ} {A : Type ℓ} where
  head?-All {κ} : (P : A → Type κ) (l : List A) {a : A} → head? l ≡ some a → All P l → P a
  head?-All P [] {a} e h = absurd (ground arith)
  head?-All P (x ∷ l) {a} e h = let e' : x ≡ a = ground arith in rw (← e') h.0

  insert_by-head : (lt : A → A → Bool) (x : A) (l : List A) → head? (insert_by lt x l) ≡ none → ⊥
  insert_by-head lt x [] e = ground arith
  insert_by-head lt x (y ∷ l) e = ground arith

module _ {ℓ} {A : Type ℓ} (o : WeakOrder A) where
  head_least :
      (l : List A) {a : A} → head? l ≡ some a → IsSorted o.lt l → All (λ b. o.lt b a ≡ false) l
  head_least [] {a} e s = tt
  head_least (x ∷ l) {a} e s =
      let e' : x ≡ a = ground arith in
      subst (λ b. All (λ z. o.lt z b ≡ false) (x ∷ l)) e' (lt_irrefl o x, s.0)

  pub head?-sorted-keep :
      (p : A → Bool) (xs : List A) {a : A}
      → head? (sorted o.lt (keep p xs)) ≡ some a
      → IsBest o p xs a
  head?-sorted-keep p xs e = record {
    listed = head?-All _ _ e (All-sorted o.lt _ _ (All-keep p _ xs (All-Memᴰ xs)));
    selected = head?-All (λ x. p x ≡ true) _ e (All-sorted o.lt _ _ (keep-All p xs));
    least =
        All-of_keep p _ xs
          (All-sorted_inv o.lt _ _ (head_least _ e (sorted-IsSorted o (keep p xs))));
  }

  sorted-none : (l : List A) → (head? (sorted o.lt l) ≡ none) → l ≡ []
  unfolding sorted
  sorted-none [] e = refl
  sorted-none (x ∷ l) e = absurd (insert_by-head o.lt x (sorted o.lt l) e)

  keep-nil_iff : (p : A → Bool) (xs : List A) → (keep p xs ≡ []) ↔ All (λ x. p x ≡ false) xs
  keep-nil_iff p [] = (λ _. tt, λ _. refl)
  keep-nil_iff p (x ∷ xs) = elim (Bool-cases (p x)) [
    | inl q ↦ (λ e. absurd (ground arith), λ h. absurd (ground arith))
    | inr q ↦ rw q (λ e. (refl, (keep-nil_iff p xs).0 e), λ h. (keep-nil_iff p xs).1 h.1)
  ]

  pub head?-sorted-keep-none :
      (p : A → Bool) (xs : List A)
      → (head? (sorted o.lt (keep p xs)) ≡ none) ↔ All (λ x. p x ≡ false) xs
  unfolding sorted
  head?-sorted-keep-none p xs = (
    λ e. (keep-nil_iff p xs).0 (sorted-none (keep p xs) e),
    λ h. let e = (keep-nil_iff p xs).1 h in rw e,
  )

-- the same for a selection that is sorted by two orders in turn
module _ {ℓ} {A : Type ℓ} (o q : WeakOrder A) where
  pub head?-sorted_twice-keep :
      (p : A → Bool) (xs : List A) {a : A}
      → head? (sorted o.lt (sorted q.lt (keep p xs))) ≡ some a
      → IsBest o p xs a
  head?-sorted_twice-keep p xs e =
      let l = sorted q.lt (keep p xs) in
      record {
        listed = head?-All _ _ e (
            All-sorted o.lt _ _
              (All-sorted q.lt (λ x. Memᴰ x xs) _ (All-keep p _ xs (All-Memᴰ xs))));
        selected =
            head?-All (λ x. p x ≡ true) _ e
              (All-sorted o.lt _ _ (All-sorted q.lt (λ x. p x ≡ true) _ (keep-All p xs)));
        least = All-of_keep p _ xs (
            All-sorted_inv q.lt _ _
              (All-sorted_inv o.lt _ _ (head_least o _ e (sorted-IsSorted o l))));
      }

  pub head?-sorted_twice-keep-none :
      (p : A → Bool) (xs : List A)
      → head? (sorted o.lt (sorted q.lt (keep p xs))) ≡ none
      → All (λ x. p x ≡ false) xs
  head?-sorted_twice-keep-none p xs e =
      (head?-sorted-keep-none q p xs).0 (ap head? (sorted-none o (sorted q.lt (keep p xs)) e))
