-- ===== src/Common/Sort/Stable.antt =====
-- A sort keeps ties in order, and a sorted list is determined by its elements.
use mathlib.Core.Path.{◌≡◌, refl, sym, ap, ap₂, ◌∙◌, subst}
use mathlib.Core.Bool.{true, false}
use mathlib.Core.Logic.{◌↔◌, ◌⊎◌, ◌≢◌, inl, inr}
use mathlib.Core.List.{List, [], ◌∷◌, map, Memᴰ}
use agent_features.Common.Tests.{Bool-cases}
use agent_features.Common.Lists.{All, Pairs, All-at, All-zip}
use agent_features.Common.Order.{WeakOrder, ge_trans, lt_irrefl, by}
use agent_features.Common.Sort.{
  sorted, insert_by, IsSorted, sorted-IsSorted, All-sorted, All-insert_by,
}

module _ {ℓ} {A : Type ℓ} where
  Memᴰ-cons : {x y : A} {l : List A} → Memᴰ x (y ∷ l) → (x ≡ y) ⊎ Memᴰ x l
  Memᴰ-cons (Memᴰ.head e) = inl e
  Memᴰ-cons (Memᴰ.tail m) = inr m

module _ {ℓ κ} {A : Type ℓ} (o : WeakOrder A) (Q : A → A → Type κ) where
  -- less, or not more and earlier in the given order
  abbrev pub LessOr : A → A → Type κ
  LessOr x y = (o.lt x y ≡ true) ⊎ ((o.lt y x ≡ false) × Q x y)

  LessOr-insert_by :
      (x : A) (l : List A)
      → All (Q x) l
      → IsSorted o.lt l
      → Pairs LessOr l
      → Pairs LessOr (insert_by o.lt x l)
  LessOr-insert_by x [] q s p = (tt, tt)
  LessOr-insert_by x (y ∷ l) q s p = elim (Bool-cases (o.lt y x)) [
    | inl h ↦ rw h (All-insert_by o.lt (LessOr y) x l (inl h) p.0, LessOr-insert_by x l q.1 s.1 p.1)
    | inr h ↦ rw h ((inr (h, q.0), All-zip (λ z a b. inr (ge_trans o z y x a h, b)) l s.0 q.1), p)
  ]

  -- where the given list is in order by Q, sorting keeps ties in that order
  pub LessOr-sorted : (l : List A) → Pairs Q l → Pairs LessOr (sorted o.lt l)
  unfolding sorted
  LessOr-sorted [] q = tt
  LessOr-sorted (x ∷ l) q =
      LessOr-insert_by x (sorted o.lt l) (All-sorted o.lt (Q x) l q.0) (sorted-IsSorted o l)
        (LessOr-sorted l q.1)

module _ {ℓ} {A : Type ℓ} (o : WeakOrder A) where
  pub IsSorted-unique :
      (l r : List A)
      → IsSorted o.lt l
      → Pairs (λ x y. x ≢ y) l
      → Pairs (λ x y. o.lt x y ≡ true) r
      → ((x : A) → Memᴰ x l ↔ Memᴰ x r)
      → l ≡ r
  IsSorted-unique [] [] s d t m = refl
  IsSorted-unique [] (b ∷ r) s d t m = elim ((m b).1 (Memᴰ.head refl)) [ ]
  IsSorted-unique (a ∷ l) [] s d t m = elim ((m a).0 (Memᴰ.head refl)) [ ]
  IsSorted-unique (a ∷ l) (b ∷ r) s d t m = ap₂ ◌∷◌ heads (IsSorted-unique l r s.1 d.1 t.1 tails)
    where
      heads : a ≡ b
      heads = elim (Memᴰ-cons ((m a).0 (Memᴰ.head refl))) [
        | inl e ↦ e
        | inr in_r ↦ elim (Memᴰ-cons ((m b).1 (Memᴰ.head refl))) [
          | inl e ↦ sym e
          | inr in_l ↦ absurd (contradiction (All-at _ r t.0 in_r) (All-at _ l s.0 in_l))
        ]
      ]
        where
          contradiction : o.lt b a ≡ true → o.lt b a ≡ false → ⊥
          contradiction p q = cc

      tails : (x : A) → Memᴰ x l ↔ Memᴰ x r
      tails x = (
        λ i. elim (Memᴰ-cons ((m x).0 (Memᴰ.tail i))) [
          | inl e ↦ absurd (All-at _ l d.0 i (heads ∙ sym e))
          | inr j ↦ j
        ],
        λ j. elim (Memᴰ-cons ((m x).1 (Memᴰ.tail j))) [
          | inl e ↦ absurd (irrefl (All-at _ r t.0 j) (lt_irrefl o b) (e ∙ heads))
          | inr i ↦ i
        ],
      )
        where
          irrefl : o.lt b x ≡ true → o.lt b b ≡ false → x ≡ b → ⊥
          irrefl p q e = let q' : o.lt b x ≡ false = subst (λ z. o.lt b z ≡ false) (sym e) q in cc

module _ {ℓ κ} {A : Type ℓ} {B : Type κ} (f : A → B) (o : WeakOrder B) where
  map-insert_by :
      (x : A) (l : List A) → map f (insert_by (by f o).lt x l) ≡ insert_by o.lt (f x) (map f l)
  map-insert_by x [] = refl
  map-insert_by x (y ∷ l) = elim (Bool-cases (o.lt (f y) (f x))) [
    | inl h ↦ rw h (ap (◌∷◌ (f y)) (map-insert_by x l))
    | inr h ↦ rw h
  ]

  -- sorting by a key, then taking the keys
  pub map-sorted : (l : List A) → map f (sorted (by f o).lt l) ≡ sorted o.lt (map f l)
  unfolding sorted
  map-sorted [] = refl
  map-sorted (x ∷ l) =
      map-insert_by x (sorted (by f o).lt l) ∙ ap (insert_by o.lt (f x)) (map-sorted l)
