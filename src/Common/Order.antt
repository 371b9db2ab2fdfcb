-- ===== src/Common/Order.antt =====
-- The orders that Python's `<` gives on numbers, texts and tuples, as strict weak orders with a
-- Boolean test. A tuple is compared at its first place where neither side is less.
use agent_features.Common.Tests.{ltb, if◌then◌else◌, Bool-cases}
use Prim.Native.Nat.{ℕ}
use mathlib.Core.Path.{◌≡◌, refl}
use mathlib.Core.Logic.{◌⊎◌, inl, inr}
use mathlib.Core.Bool.{Bool, true, false}
use mathlib.Core.List.{List, [], ◌∷◌}
use native.Mathlib.Omega.{arith}

pub record WeakOrder {ℓ} (A : Type ℓ) : Type ℓ where
  pub lt : A → A → Bool
  pub asymm : (a b : A) → lt a b ≡ true → lt b a ≡ false
  pub cotrans : (a b c : A) → lt a c ≡ true → (lt a b ≡ true) ⊎ (lt b c ≡ true)

module _ {ℓ} {A : Type ℓ} (o : WeakOrder A) where
  pub lt_irrefl : (a : A) → o.lt a a ≡ false
  lt_irrefl a = elim (Bool-cases (o.lt a a)) [ inl h ↦ o.asymm a a h | inr h ↦ h ]

  pub lt_trans : (a b c : A) → o.lt a b ≡ true → o.lt b c ≡ true → o.lt a c ≡ true
  lt_trans a b c p q = elim (o.cotrans a c b p) [ inl h ↦ h | inr h ↦ ground (arith, o.asymm b c) ]

  -- "not less" is transitive
  pub ge_trans : (a b c : A) → o.lt a b ≡ false → o.lt b c ≡ false → o.lt a c ≡ false
  ge_trans a b c p q = elim (Bool-cases (o.lt a c)) [
    | inl h ↦ elim (o.cotrans a b c h) [ inl x ↦ cc | inr y ↦ cc ]
    | inr h ↦ h
  ]

  pub lt_of_lt_of_ge : (a b c : A) → o.lt a b ≡ true → o.lt c b ≡ false → o.lt a c ≡ true
  lt_of_lt_of_ge a b c p q = elim (o.cotrans a c b p) [ inl h ↦ h | inr h ↦ cc ]

  pub lt_of_ge_of_lt : (a b c : A) → o.lt b a ≡ false → o.lt b c ≡ true → o.lt a c ≡ true
  lt_of_ge_of_lt a b c p q = elim (o.cotrans b a c q) [ inl h ↦ cc | inr h ↦ h ]

pub nat_lt_asymm : (a b : ℕ) → ltb a b ≡ true → ltb b a ≡ false
nat_lt_asymm a b h = ground arith

pub nat_cotrans : (a b c : ℕ) → ltb a c ≡ true → (ltb a b ≡ true) ⊎ (ltb b c ≡ true)
nat_cotrans a b c h = elim (Bool-cases (ltb a b)) [ inl p ↦ inl p | inr p ↦ inr (ground arith) ]

abbrev pub nat_order : WeakOrder ℕ
nat_order = record { lt = ltb; asymm = nat_lt_asymm; cotrans = nat_cotrans }

-- sorted(…, key=f) compares by this
abbrev pub by {ℓ κ} : {A : Type ℓ} {B : Type κ} → (A → B) → WeakOrder B → WeakOrder A
by f o = record {
  lt = λ a b. o.lt (f a) (f b);
  asymm = λ a b. o.asymm (f a) (f b);
  cotrans = λ a b c. o.cotrans (f a) (f b) (f c);
}

-- the order turned round: x < y exactly when -x > -y
abbrev pub dual {ℓ} : {A : Type ℓ} → WeakOrder A → WeakOrder A
dual o = record {
  lt = λ a b. o.lt b a;
  asymm = λ a b. o.asymm b a;
  cotrans = λ a b c h. elim (o.cotrans c b a h) [ inl p ↦ inr p | inr p ↦ inl p ];
}

module _ {ℓ κ} {A : Type ℓ} {B : Type κ} (o : WeakOrder A) (r : WeakOrder B) where
  abbrev pub lt_pair : A × B → A × B → Bool
  lt_pair (a, b) (c, d) = if o.lt a c then true else if o.lt c a then false else r.lt b d

  pub lt_pair_asymm : (p q : A × B) → lt_pair p q ≡ true → lt_pair q p ≡ false
  lt_pair_asymm (a, b) (c, d) h = ground (arith, o.asymm a c, o.asymm c a, r.asymm b d)

  pub lt_pair_cotrans :
      (p q s : A × B) → lt_pair p s ≡ true → (lt_pair p q ≡ true) ⊎ (lt_pair q s ≡ true)
  lt_pair_cotrans (a, b) (c, d) (e, f) h = ground (
    arith,
    o.cotrans a c e,
    o.cotrans c a e,
    o.cotrans e a c,
    o.cotrans e c a,
    o.cotrans a e c,
    o.cotrans c e a,
    o.asymm a e,
    o.asymm a c,
    o.asymm c e,
    r.cotrans b d f,
  )

  abbrev pub pair_order : WeakOrder (A × B)
  pair_order = record { lt = lt_pair; asymm = lt_pair_asymm; cotrans = lt_pair_cotrans }

module _ {ℓ} {A : Type ℓ} (o : WeakOrder A) where
  -- the shorter of two sequences is less where one begins with the other
  abbrev pub lt_list : List A → List A → Bool
  lt_list [] [] = false
  lt_list [] (y ∷ ys) = true
  lt_list (x ∷ xs) [] = false
  lt_list (x ∷ xs) (y ∷ ys) = if o.lt x y then true else if o.lt y x then false else lt_list xs ys

  pub lt_list_asymm : (xs ys : List A) → lt_list xs ys ≡ true → lt_list ys xs ≡ false
  lt_list_asymm [] [] h = refl
  lt_list_asymm [] (y ∷ ys) h = refl
  lt_list_asymm (x ∷ xs) [] h = absurd (ground arith)
  lt_list_asymm (x ∷ xs) (y ∷ ys) h = ground (arith, o.asymm x y, o.asymm y x, lt_list_asymm xs ys)

  pub lt_list_cotrans :
      (xs ys zs : List A) → lt_list xs zs ≡ true → (lt_list xs ys ≡ true) ⊎ (lt_list ys zs ≡ true)
  lt_list_cotrans [] [] (z ∷ zs) h = inr refl
  lt_list_cotrans [] (y ∷ ys) (z ∷ zs) h = inl refl
  lt_list_cotrans (x ∷ xs) [] (z ∷ zs) h = inr refl
  lt_list_cotrans (x ∷ xs) (y ∷ ys) (z ∷ zs) h = ground (
    arith,
    o.cotrans x y z,
    o.cotrans y x z,
    o.cotrans z x y,
    o.cotrans z y x,
    o.cotrans x z y,
    o.cotrans y z x,
    o.asymm x z,
    o.asymm x y,
    o.asymm y z,
    lt_list_cotrans xs ys zs,
  )
  lt_list_cotrans [] ys [] h = absurd (ground arith)
  lt_list_cotrans (x ∷ xs) ys [] h = absurd (ground arith)

  abbrev pub list_order : WeakOrder (List A)
  list_order = record { lt = lt_list; asymm = lt_list_asymm; cotrans = lt_list_cotrans }
