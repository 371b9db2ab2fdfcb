-- ===== src/Common/Sort.antt =====
-- Python's `sorted`: stable, and driven by `<` alone. An element is put before the first of the
-- later ones that is not less than it, so equal elements keep their order.
use Prim.Native.Nat.{suc}
use mathlib.Core.Path.{◌≡◌, refl, ap, ◌∙◌}
pub mod Best
pub mod Stable
use mathlib.Core.Bool.{Bool, true, false}
use mathlib.Core.Logic.{◌↔◌, inl, inr}
use mathlib.Core.List.{List, [], ◌∷◌, Memᴰ, Perm}
use mathlib.Core.List.Perm
use native.Mathlib.Omega.{arith}
use agent_features.Common.Tests.{if◌then◌else◌, Bool-cases}
use agent_features.Common.Lists.{All, All-at, All-Memᴰ, Pairs, keep, length}
use agent_features.Common.Order.{WeakOrder, ge_trans}

module _ {ℓ} {A : Type ℓ} where
  abbrev pub insert_by : (A → A → Bool) → A → List A → List A
  insert_by lt x [] = x ∷ []
  insert_by lt x (y ∷ ys) = if lt y x then y ∷ insert_by lt x ys else x ∷ y ∷ ys

  unfoldable pub sorted : (A → A → Bool) → List A → List A
  sorted lt [] = []
  sorted lt (x ∷ xs) = insert_by lt x (sorted lt xs)

  -- no later element is less than an earlier one
  abbrev pub IsSorted : (A → A → Bool) → List A → Type 0
  IsSorted lt = Pairs (λ x y. lt y x ≡ false)

module _ {ℓ} {A : Type ℓ} (lt : A → A → Bool) where
  insert_by-perm : (x : A) (l : List A) → Perm (insert_by lt x l) (x ∷ l)
  insert_by-perm x [] = Perm.rfl
  insert_by-perm x (y ∷ l) = elim (Bool-cases (lt y x)) [
    | inl h ↦ rw h (Perm.trans (Perm.cons y (insert_by-perm x l)) (Perm.swap x y l))
    | inr h ↦ rw h Perm.rfl
  ]

  -- `sorted` returns a rearrangement of its input
  pub sorted-perm : (l : List A) → Perm (sorted lt l) l
  unfolding sorted
  sorted-perm [] = Perm.rfl
  sorted-perm (x ∷ l) = Perm.trans (insert_by-perm x (sorted lt l)) (Perm.cons x (sorted-perm l))

  -- a property of all elements goes through an insertion both ways
  All-insert_by {κ} :
      (P : A → Type κ) (x : A) (l : List A) → P x → All P l → All P (insert_by lt x l)
  All-insert_by P x [] p h = (p, tt)
  All-insert_by P x (y ∷ l) p h = elim (Bool-cases (lt y x)) [
    | inl q ↦ rw q (h.0, All-insert_by P x l p h.1)
    | inr q ↦ rw q (p, h)
  ]

  pub All-sorted {κ} : (P : A → Type κ) (l : List A) → All P l → All P (sorted lt l)
  unfolding sorted
  All-sorted P [] h = tt
  All-sorted P (x ∷ l) h = All-insert_by P x (sorted lt l) h.0 (All-sorted P l h.1)

  All-insert_by_inv {κ} :
      (P : A → Type κ) (x : A) (l : List A) → All P (insert_by lt x l) → P x × All P l
  All-insert_by_inv P x [] h = h
  All-insert_by_inv P x (y ∷ l) h = elim (Bool-cases (lt y x)) [
    | inl q ↦ let r = All-insert_by_inv P x l (rw q at h).1 in (r.0, ((rw q at h).0, r.1))
    | inr q ↦ rw q at h
  ]

  pub All-sorted_inv {κ} : (P : A → Type κ) (l : List A) → All P (sorted lt l) → All P l
  unfolding sorted
  All-sorted_inv P [] h = tt
  All-sorted_inv P (x ∷ l) h =
      let r = All-insert_by_inv P x (sorted lt l) h in (r.0, All-sorted_inv P l r.1)

  pub Memᴰ-sorted_iff : (x : A) (l : List A) → Memᴰ x (sorted lt l) ↔ Memᴰ x l
  Memᴰ-sorted_iff x l = (
    All-at (λ y. Memᴰ y l) (sorted lt l) (All-sorted _ l (All-Memᴰ l)),
    All-at (λ y. Memᴰ y (sorted lt l)) l (All-sorted_inv _ l (All-Memᴰ (sorted lt l))),
  )

  length-insert_by : (x : A) (l : List A) → length (insert_by lt x l) ≡ suc (length l)
  length-insert_by x [] = refl
  length-insert_by x (y ∷ l) = ground (arith, length-insert_by x l)

  pub length-sorted : (l : List A) → length (sorted lt l) ≡ length l
  unfolding sorted
  length-sorted [] = refl
  length-sorted (x ∷ l) = length-insert_by x (sorted lt l) ∙ ap suc (length-sorted l)

  -- a symmetric relation between all pairs survives sorting
  Pairs-insert_by {κ} :
      (R : A → A → Type κ)
      → ((a b : A) → R a b → R b a)
      → (x : A) (l : List A) → Pairs R (x ∷ l)
      → Pairs R (insert_by lt x l)
  Pairs-insert_by R symm x [] h = h
  Pairs-insert_by R symm x (y ∷ l) ((r, hx), (hy, hl)) = elim (Bool-cases (lt y x)) [
    | inl q ↦ rw q (All-insert_by (R y) x l (symm x y r) hy, Pairs-insert_by R symm x l (hx, hl))
    | inr q ↦ rw q ((r, hx), (hy, hl))
  ]

  pub Pairs-sorted {κ} :
      (R : A → A → Type κ)
      → ((a b : A) → R a b → R b a)
      → (l : List A) → Pairs R l
      → Pairs R (sorted lt l)
  unfolding sorted
  Pairs-sorted R symm [] h = h
  Pairs-sorted R symm (x ∷ l) h =
      Pairs-insert_by R symm x (sorted lt l) (All-sorted (R x) l h.0, Pairs-sorted R symm l h.1)

module _ {ℓ} {A : Type ℓ} (o : WeakOrder A) where
  ge-weaken :
      (x y : A) (l : List A)
      → o.lt y x ≡ false
      → All (λ z. o.lt z y ≡ false) l
      → All (λ z. o.lt z x ≡ false) l
  ge-weaken x y [] q h = tt
  ge-weaken x y (z ∷ l) q h = (ge_trans o z y x h.0 q, ge-weaken x y l q h.1)

  insert_by-IsSorted : (x : A) (l : List A) → IsSorted o.lt l → IsSorted o.lt (insert_by o.lt x l)
  insert_by-IsSorted x [] h = (tt, tt)
  insert_by-IsSorted x (y ∷ l) h = elim (Bool-cases (o.lt y x)) [
    | inl q ↦ rw q (
      All-insert_by o.lt (λ z. o.lt z y ≡ false) x l (o.asymm y x q) h.0,
      insert_by-IsSorted x l h.1,
    )
    | inr q ↦ rw q ((q, ge-weaken x y l q h.0), h)
  ]

  -- `sorted` orders its input
  pub sorted-IsSorted : (l : List A) → IsSorted o.lt (sorted o.lt l)
  unfolding sorted
  sorted-IsSorted [] = tt
  sorted-IsSorted (x ∷ l) = insert_by-IsSorted x (sorted o.lt l) (sorted-IsSorted l)

  -- an insertion does not move x past an element that is not less
  keep-insert_by :
      (p : A → Bool)
      → ((a b : A) → p a ≡ true → p b ≡ true → o.lt a b ≡ false)
      → (x : A) (l : List A) → keep p (insert_by o.lt x l) ≡ keep p (x ∷ l)
  keep-insert_by p same x [] = refl
  keep-insert_by p same x (y ∷ l) = elim (Bool-cases (o.lt y x)) [
    | inl q ↦ rw q (ground (arith, keep-insert_by p same x l, same y x))
    | inr q ↦ rw q
  ]

  -- stability: elements of which none is less than another keep their order
  pub keep-sorted :
      (p : A → Bool)
      → ((a b : A) → p a ≡ true → p b ≡ true → o.lt a b ≡ false)
      → (l : List A) → keep p (sorted o.lt l) ≡ keep p l
  unfolding sorted
  keep-sorted p same [] = refl
  keep-sorted p same (x ∷ l) =
      keep-insert_by p same x (sorted o.lt l) ∙ ground (arith, keep-sorted p same l)
