-- ===== src/Common/Lists.antt =====
-- Lists measured by native numbers, filtered by Boolean tests.
use Prim.Native.Nat.{ℕ, suc, ◌+◌}
use mathlib.Core.Path.{◌≡◌, refl, ap, ap₂}
use mathlib.Core.Logic.{◌≢◌, ◌↔◌, ◌⊎◌, inl, inr}
use mathlib.Core.Bool.{Bool, true, false, ◌&&◌, ◌||◌}
use mathlib.Core.List.{List, [], ◌∷◌, ◌++◌, map, Memᴰ}
use mathlib.Core.Option.{Option, none, some}
use native.Mathlib.Omega.{arith}
use agent_features.Common.Tests.{if◌then◌else◌, Bool-cases}

module _ {ℓ} {A : Type ℓ} where
  abbrev pub length : List A → ℕ
  length [] = 0
  length (x ∷ xs) = suc (length xs)

  -- [x for x in xs if p x]
  abbrev pub keep : (A → Bool) → List A → List A
  keep p [] = []
  keep p (x ∷ xs) = if p x then x ∷ keep p xs else keep p xs

  abbrev pub any : (A → Bool) → List A → Bool
  any p [] = false
  any p (x ∷ xs) = p x || any p xs

  abbrev pub all : (A → Bool) → List A → Bool
  all p [] = true
  all p (x ∷ xs) = p x && all p xs

  abbrev pub head? : List A → Option A
  head? [] = none
  head? (x ∷ xs) = some x

  pub length-append : (xs ys : List A) → length (xs ++ ys) ≡ length xs + length ys
  length-append [] ys = omega arith
  length-append (x ∷ xs) ys = omega (arith, length-append xs ys)

  pub keep-append : (p : A → Bool) (xs ys : List A) → keep p (xs ++ ys) ≡ keep p xs ++ keep p ys
  keep-append p [] ys = refl
  keep-append p (x ∷ xs) ys = ground (arith, keep-append p xs ys)

module _ {ℓ κ} {A : Type ℓ} (P : A → Type κ) where
  abbrev pub All : List A → Type κ
  All [] = Unit
  All (x ∷ xs) = P x × All xs

  pub All-append : (xs ys : List A) → All xs → All ys → All (xs ++ ys)
  All-append [] ys hx hy = hy
  All-append (x ∷ xs) ys hx hy = (hx.0, All-append xs ys hx.1 hy)

module _ {ℓ} {A : Type ℓ} (p : A → Bool) where
  -- what is kept passes the test
  pub keep-All : (xs : List A) → All (λ x. p x ≡ true) (keep p xs)
  keep-All [] = tt
  keep-All (x ∷ xs) = elim (Bool-cases (p x)) [
    | inl h ↦ rw h (h, keep-All xs)
    | inr h ↦ rw h (keep-All xs)
  ]

  pub keep_of_All : (xs : List A) → All (λ x. p x ≡ true) xs → keep p xs ≡ xs
  keep_of_All [] h = refl
  keep_of_All (x ∷ xs) h = rw h.0 (ap (◌∷◌ x) (keep_of_All xs h.1))

  -- what holds of all that is kept holds of all that passes the test, and conversely
  pub All-of_keep {κ} :
      (P : A → Type κ) (xs : List A) → All P (keep p xs) → All (λ x. p x ≡ true → P x) xs
  All-of_keep P [] h = tt
  All-of_keep P (x ∷ xs) h = elim (Bool-cases (p x)) [
    | inl q ↦ let r = rw q at h in (λ _. r.0, All-of_keep P xs r.1)
    | inr q ↦ (λ e. absurd (ground arith), All-of_keep P xs (rw q at h))
  ]

  pub All-keep {κ} : (P : A → Type κ) (xs : List A) → All P xs → All P (keep p xs)
  All-keep P [] h = tt
  All-keep P (x ∷ xs) h = elim (Bool-cases (p x)) [
    | inl q ↦ rw q (h.0, All-keep P xs h.1)
    | inr q ↦ rw q (All-keep P xs h.1)
  ]

  -- two filters are one
  pub keep-keep : (q : A → Bool) (xs : List A) → keep q (keep p xs) ≡ keep (λ x. p x && q x) xs
  keep-keep q [] = refl
  keep-keep q (x ∷ xs) = ground (arith, keep-keep q xs)

module _ {ℓ} {A : Type ℓ} where
  pub All-map {κ μ} :
      {P : A → Type κ} {Q : A → Type μ} (f : (x : A) → P x → Q x) (xs : List A)
      → All P xs
      → All Q xs
  All-map f [] h = tt
  All-map f (x ∷ xs) h = (f x h.0, All-map f xs h.1)

  pub All-zip {κ μ ν} :
      {P : A → Type κ} {Q : A → Type μ} {R : A → Type ν} (f : (x : A) → P x → Q x → R x)
      (xs : List A)
      → All P xs
      → All Q xs
      → All R xs
  All-zip f [] h k = tt
  All-zip f (x ∷ xs) h k = (f x h.0 k.0, All-zip f xs h.1 k.1)

  -- every element is an element
  pub All-Memᴰ : (xs : List A) → All (λ x. Memᴰ x xs) xs
  All-Memᴰ [] = tt
  All-Memᴰ (x ∷ xs) = (Memᴰ.head refl, All-map (λ _. Memᴰ.tail) xs (All-Memᴰ xs))

  pub All-at {κ} : (P : A → Type κ) {x : A} (xs : List A) → All P xs → Memᴰ x xs → P x
  All-at P [] h m = elim m [ ]
  All-at P (x ∷ xs) h (Memᴰ.head e) = rw e h.0
  All-at P (x ∷ xs) h (Memᴰ.tail m) = All-at P xs h.1 m

  -- every earlier element is related to every later one
  abbrev pub Pairs {κ} : (A → A → Type κ) → List A → Type κ
  Pairs R [] = Unit
  Pairs R (x ∷ xs) = All (R x) xs × Pairs R xs

  pub Memᴰ-keep_iff :
      (p : A → Bool) (x : A) (xs : List A) → Memᴰ x (keep p xs) ↔ (Memᴰ x xs × (p x ≡ true))
  Memᴰ-keep_iff p x xs = (to, λ (m, h). from xs m h)
    where
      to : Memᴰ x (keep p xs) → Memᴰ x xs × (p x ≡ true)
      to m = (
        All-at (λ y. Memᴰ y xs) _ (All-keep p _ xs (All-Memᴰ xs)) m,
        All-at (λ y. p y ≡ true) _ (keep-All p xs) m,
      )

      from : (ys : List A) → Memᴰ x ys → p x ≡ true → Memᴰ x (keep p ys)
      from [] m h = elim m [ ]
      from (y ∷ ys) (Memᴰ.head e) h = let h' : p y ≡ true = rw (← e) h in rw h' (Memᴰ.head e)
      from (y ∷ ys) (Memᴰ.tail m) h = elim (Bool-cases (p y)) [
        | inl q ↦ rw q (Memᴰ.tail (from ys m h))
        | inr q ↦ rw q (from ys m h)
      ]

  pub keep-ne-nil : (p : A → Bool) {x : A} (xs : List A) → p x ≡ true → Memᴰ x xs → keep p xs ≢ []
  keep-ne-nil p [] h m = elim m [ ]
  keep-ne-nil p {x} (y ∷ ys) h (Memᴰ.head e) = let h' : p y ≡ true = rw (← e) h in ground arith
  keep-ne-nil p (y ∷ ys) h (Memᴰ.tail m) = ground (arith, keep-ne-nil p ys h m)

  pub Pairs-weaken {κ μ} :
      {R : A → A → Type κ} {S : A → A → Type μ} (f : (x y : A) → R x y → S x y) (xs : List A)
      → Pairs R xs
      → Pairs S xs
  Pairs-weaken f [] p = tt
  Pairs-weaken f (x ∷ xs) p = (All-map (λ y r. f x y r) xs p.0, Pairs-weaken f xs p.1)

  pub Pairs-zip {κ μ ν} :
      {P : A → Type κ} {R : A → A → Type μ} {S : A → A → Type ν}
      (f : (x y : A) → P x → P y → R x y → S x y) (xs : List A)
      → All P xs
      → Pairs R xs
      → Pairs S xs
  Pairs-zip f [] h p = tt
  Pairs-zip f (x ∷ xs) h p = (All-zip (λ y q r. f x y h.0 q r) xs h.1 p.0, Pairs-zip f xs h.1 p.1)

module _ {ℓ κ} {A : Type ℓ} {B : Type κ} (f : A → B) where
  pub All-of_map {μ} : (P : B → Type μ) (xs : List A) → All (λ x. P (f x)) xs → All P (map f xs)
  All-of_map P [] h = tt
  All-of_map P (x ∷ xs) h = (h.0, All-of_map P xs h.1)

  pub Pairs-map {μ} :
      (R : B → B → Type μ) (xs : List A) → Pairs (λ x y. R (f x) (f y)) xs → Pairs R (map f xs)
  Pairs-map R [] h = tt
  Pairs-map R (x ∷ xs) h = (All-of_map (R (f x)) xs h.0, Pairs-map R xs h.1)

  -- the image of every element is in the image
  pub All-Memᴰ_map : (xs : List A) → All (λ x. Memᴰ (f x) (map f xs)) xs
  All-Memᴰ_map [] = tt
  All-Memᴰ_map (x ∷ xs) = (Memᴰ.head refl, All-map (λ _. Memᴰ.tail) xs (All-Memᴰ_map xs))

module _ {ℓ κ} {A : Type ℓ} {B : Type κ} where
  -- [f x for x in xs], where a call may raise
  abbrev pub traverse : (A → Option B) → List A → Option (List B)
  traverse f [] = some []
  traverse f (x ∷ xs) = elim (f x) [
    | none ↦ none
    | some y ↦ elim (traverse f xs) [ none ↦ none | some ys ↦ some (y ∷ ys) ]
  ]

  pub traverse-total {μ ν} :
      {K : Type ν} (f : A → Option B) (P : B → Type μ) (before : A → K) (behind : B → K)
      (xs : List A)
      → All (λ x. (y : B) × (f x ≡ some y) × P y × (behind y ≡ before x)) xs
      → (ys : List B) × (traverse f xs ≡ some ys) × All P ys × (map behind ys ≡ map before xs)
  traverse-total f P before behind [] h = ([], refl, tt, refl)
  traverse-total f P before behind (x ∷ xs) ((y, e, p, k), h) =
      let (ys, es, ps, ks) = traverse-total f P before behind xs h in
      (y ∷ ys, ground arith, (p, ps), ap₂ ◌∷◌ k ks)

pub traverse-map {ℓ κ μ} :
    {A : Type ℓ} {B : Type κ} {C : Type μ} (f : B → Option C) (g : A → B) (h : A → C)
    → ((a : A) → f (g a) ≡ some (h a))
    → (xs : List A) → traverse f (map g xs) ≡ some (map h xs)
traverse-map f g h e [] = refl
traverse-map f g h e (x ∷ xs) = ground (arith, e x, traverse-map f g h e xs)

-- To split on a computed list and keep the equation.
pub List-cases {ℓ} : {A : Type ℓ} (l : List A) → (l ≡ []) ⊎ ((x : A) × (xs : List A) × (l ≡ x ∷ xs))
List-cases [] = inl refl
List-cases (x ∷ xs) = inr (x, xs, refl)
