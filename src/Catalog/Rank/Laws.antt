-- ===== src/Catalog/Rank/Laws.antt =====
-- `rank_features` orders its input best-first and loses nothing.
use agent_features.Common.{
  ℕ, ◌<◌, ◌≡◌, refl, ap, ap₂, subst, ◌⊎◌, inl, inr, Bool-cases, ltb, List, [], ◌∷◌, false, arith,
  All-map, Pairs, length,
}
use mathlib.Core.List.{Perm}
use agent_features.Common.Text.{Text, text_order}
use agent_features.Common.Order.{WeakOrder, nat_order, pair_order, lt_pair, lt_irrefl}
use agent_features.Common.Sort.{IsSorted, sorted-perm, sorted-IsSorted, length-sorted}
use agent_features.Models.{Feature, TrustTier, official, verified, community}
use agent_features.Catalog.Version.{semver_key}
use agent_features.Catalog.Rank.{trust_rank, version_order, rank_key, rank_order, rank_features}

-- official before verified before community
abbrev pub IsBetter : TrustTier → TrustTier → Type 0
IsBetter official verified = Unit
IsBetter official community = Unit
IsBetter verified community = Unit
IsBetter a b = ⊥

-- At the first part in which two versions differ the newer one has the greater number. A version
-- that another begins with counts as newer than that.
abbrev pub IsNewer : List ℕ → List ℕ → Type 0
IsNewer [] [] = ⊥
IsNewer [] (y ∷ ys) = Unit
IsNewer (x ∷ xs) [] = ⊥
IsNewer (x ∷ xs) (y ∷ ys) = (y < x) ⊎ ((x ≡ y) × IsNewer xs ys)

-- `a` may stand before `b`: its tier is better; or the tiers are equal and its version is newer;
-- or both are equal and its vendor is not later in the alphabet.
abbrev pub MayPrecede : Feature → Feature → Type 0
MayPrecede f g =
    let a = f.manifest in
    let b = g.manifest in
    IsBetter a.trust b.trust
    ⊎ ((a.trust ≡ b.trust)
        × (IsNewer (semver_key a.version) (semver_key b.version)
            ⊎ ((semver_key a.version ≡ semver_key b.version)
                × (text_order.lt b.vendor a.vendor ≡ false))))

module _ {ℓ κ} {A : Type ℓ} {B : Type κ} (o : WeakOrder A) (r : WeakOrder B) where
  -- a pair that is not less is not so at its first place, nor at its second where the first agree
  not-lt_pair :
      (a c : A) (b d : B)
      → lt_pair o r (c, d) (a, b) ≡ false
      → (o.lt c a ≡ false) × (a ≡ c → r.lt d b ≡ false)
  not-lt_pair a c b d h = (
    ground arith,
    λ e.
        let back : o.lt a c ≡ false = subst (λ x. o.lt a x ≡ false) e (lt_irrefl o a) in
        ground arith,
  )

tier_cases : (a b : TrustTier) → ltb (trust_rank b) (trust_rank a) ≡ false → IsBetter a b ⊎ (a ≡ b)
tier_cases official official h = inr refl
tier_cases official verified h = inl tt
tier_cases official community h = inl tt
tier_cases verified official h = absurd (ground arith)
tier_cases verified verified h = inr refl
tier_cases verified community h = inl tt
tier_cases community official h = absurd (ground arith)
tier_cases community verified h = absurd (ground arith)
tier_cases community community h = inr refl

version_cases : (xs ys : List ℕ) → version_order.lt ys xs ≡ false → IsNewer xs ys ⊎ (xs ≡ ys)
version_cases [] [] h = inr refl
version_cases [] (y ∷ ys) h = inl tt
version_cases (x ∷ xs) [] h = absurd (ground arith)
version_cases (x ∷ xs) (y ∷ ys) h = elim (Bool-cases (ltb y x)) [
  | inl more ↦ inl (inl (ground arith))
  | inr same ↦
      let e : x ≡ y = ground arith in
      let rest : version_order.lt ys xs ≡ false = ground arith in
      elim (version_cases xs ys rest) [
        | inl newer ↦ inl (inr (e, newer))
        | inr equal ↦ inr (ap₂ ◌∷◌ e equal)
      ]
]

MayPrecede-of_not_lt : (f g : Feature) → rank_order.lt g f ≡ false → MayPrecede f g
MayPrecede-of_not_lt f g h =
    let a = f.manifest in
    let b = g.manifest in
    let tier =
      not-lt_pair nat_order (pair_order version_order text_order) _ _ (rank_key f).1 (rank_key g).1
        h in
    elim (tier_cases a.trust b.trust tier.0) [
      | inl better ↦ inl better
      | inr e ↦
          let version =
            not-lt_pair version_order text_order (semver_key a.version) (semver_key b.version)
              a.vendor b.vendor (tier.1 (ap trust_rank e)) in
          elim (version_cases (semver_key a.version) (semver_key b.version) version.0) [
            | inl newer ↦ inr (e, inl newer)
            | inr same ↦ inr (e, inr (same, version.1 same))
          ]
    ]

Pairs-of_IsSorted : (l : List Feature) → IsSorted rank_order.lt l → Pairs MayPrecede l
Pairs-of_IsSorted [] h = tt
Pairs-of_IsSorted (f ∷ l) h =
    (All-map (λ g. MayPrecede-of_not_lt f g) l h.0, Pairs-of_IsSorted l h.1)

-- The ranking holds the features that it is given, each as often, and every earlier one of it may
-- stand before every later one: by trust tier, then by newer version, then by vendor.
pub rank_features-best_first :
    (fs : List Feature) → Perm (rank_features fs) fs × Pairs MayPrecede (rank_features fs)
unfolding rank_features
rank_features-best_first fs =
    (sorted-perm rank_order.lt fs, Pairs-of_IsSorted _ (sorted-IsSorted rank_order fs))

-- the same tier, the same parts of the version, and the same vendor
abbrev pub IsLevel : Feature → Feature → Type 0
IsLevel f g =
    (f.manifest.trust ≡ g.manifest.trust)
    × (semver_key f.manifest.version ≡ semver_key g.manifest.version)
    × (f.manifest.vendor ≡ g.manifest.vendor)

pub length-rank_features : (fs : List Feature) → length (rank_features fs) ≡ length fs
unfolding rank_features
length-rank_features fs = length-sorted rank_order.lt fs
