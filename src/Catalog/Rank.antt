-- ===== src/Catalog/Rank.antt =====
-- `feature_id`, `rank_features` and `resolve_feature` of gateway/catalog.py.
pub mod Laws
pub mod Resolve
use agent_features.Common.{
  ℕ, Option, none, some, List, [], ◌∷◌, ◌++◌, Bool, ◌&&◌, true, keep, head?, if◌then◌else◌,
}
use agent_features.Common.Text.{Text, codes, ◌==◌, text_order}
use agent_features.Common.Order.{WeakOrder, nat_order, pair_order, list_order, dual, by}
use agent_features.Common.Sort.{sorted}
use agent_features.Models.{Feature, TrustTier, official, verified, community}
use agent_features.Catalog.Version.{semver_key, match_version}

unfoldable pub feature_id : Feature → Text
feature_id f = let m = f.manifest in m.vendor ++ codes "/" ++ m.name ++ codes "@" ++ m.version

-- every tier is in the table, so the default 9 of its `get` is never used
abbrev pub trust_rank : TrustTier → ℕ
trust_rank official = 0
trust_rank verified = 1
trust_rank community = 2

-- Trust tier, negated version, vendor. Two versions negated part by part compare as the parts do
-- the other way round; where one begins with the other the shorter is less in either case.
abbrev pub version_order : WeakOrder (List ℕ)
version_order = list_order (dual nat_order)

abbrev pub rank_key : Feature → ℕ × (List ℕ × Text)
rank_key f = (trust_rank f.manifest.trust, (semver_key f.manifest.version, f.manifest.vendor))

abbrev pub rank_order : WeakOrder Feature
rank_order = by rank_key (pair_order nat_order (pair_order version_order text_order))

unfoldable pub rank_features : List Feature → List Feature
rank_features features = sorted rank_order.lt features

-- a filter that is passed over where the pin is None or empty
unfoldable pub honour : Option Text → (Text → Feature → Bool) → List Feature → List Feature
honour none test fs = fs
honour (some []) test fs = fs
honour (some (c ∷ s)) test fs = keep (test (c ∷ s)) fs

unfoldable pub candidates : List Feature → Text → (version vendor : Option Text) → List Feature
unfolding honour
candidates features capability version vendor =
    let of_capability = keep (λ f. f.manifest.capability == capability) features in
    let of_vendor = honour vendor (λ v f. f.manifest.vendor == v) of_capability in
    honour version (λ s f. match_version f.manifest.version s) of_vendor

unfoldable pub resolve_feature :
    List Feature → Text → (version vendor : Option Text) → Option Feature
unfolding candidates rank_features
resolve_feature features capability version vendor =
    head? (rank_features (candidates features capability version vendor))
