-- ===== src/Ranking/Policy.antt =====
-- `BaselinePolicy` and `MetricsPolicy` of gateway/ranking.py.
pub mod Laws
pub mod Best
use agent_features.Common.{
  ℕ, zero, suc, ◌+◌, Option, none, some, List, [], ◌∷◌, map, Bool, true, false, ◌&&◌, eqb, ltb,
  if◌then◌else◌,
}
use agent_features.Common.Text.{Text}
use agent_features.Common.Floats.{Floats}
use agent_features.Common.Order.{WeakOrder, nat_order, pair_order, by}
use agent_features.Common.Sort.{sorted}
use agent_features.Models.{Feature, TrustTier, official, verified, community}
use agent_features.Catalog.Rank.{rank_features, rank_order, feature_id}
use agent_features.Ranking.Metrics.{FeatureMetrics, MetricsStore, success_rate, avg_latency_ms, get}

-- A feature object, with its identity. The lists that are ranked hold each object once.
abbrev pub Object : Type 0
Object = ℕ × Feature

abbrev pub objects : ℕ → List Feature → List Object
objects i [] = []
objects i (f ∷ fs) = (i, f) ∷ objects (suc i) fs

-- {id(f): i for i, f in enumerate(…)} at an identity; ranking loses none, so it is found
abbrev pub position : ℕ → List Object → ℕ
position i [] = 0
position i (o ∷ os) = if eqb o.0 i then 0 else suc (position i os)

-- rank_features, which compares the features alone
abbrev pub rank_objects : List Object → List Object
rank_objects = sorted (by (λ (o : Object). o.1) rank_order).lt

module _ (fl : Floats) where
  open fl use {Float, decimal, add, sub, mul, div, neg, nonzero, less}

  -- every tier is in the table, so the default of its `get` is never used
  unfoldable pub trust_prior : TrustTier → Float
  trust_prior official = decimal 10 2
  trust_prior verified = decimal 5 2
  trust_prior community = decimal 0 1

  pub record MetricsPolicy : Type 0 where
    pub default_prior : Float
    pub latency_weight : Float

  -- MetricsPolicy()
  abbrev pub default_policy : MetricsPolicy
  default_policy = record { default_prior = decimal 7 1; latency_weight = decimal 1 1 }

  -- x or 0.0
  abbrev pub or_zero : Option Float → Float
  or_zero none = decimal 0 1
  or_zero (some x) = if nonzero x then x else decimal 0 1

  abbrev pub measured : MetricsPolicy → FeatureMetrics Float → Float → Option (Float × Float)
  measured p m rate =
      some (rate, mul (div (or_zero (avg_latency_ms fl m)) (decimal 1000 0)) p.latency_weight)

  -- base and latency penalty, where the feature has been invoked
  abbrev pub observed : MetricsPolicy → Option (FeatureMetrics Float) → Option (Float × Float)
  observed p none = none
  observed p (some m) =
      if ltb 0 m.invocations
      then elim (success_rate fl m) [ none ↦ none | some rate ↦ measured p m rate ]
      else none

  abbrev pub base_and_penalty : MetricsPolicy → Option (Float × Float) → Float × Float
  base_and_penalty p none = (p.default_prior, decimal 0 1)
  base_and_penalty p (some b) = b

  unfoldable pub metrics_score : MetricsPolicy → Feature → MetricsStore Float → Float
  metrics_score p f store =
      let b = base_and_penalty p (observed p (get fl (feature_id f) store)) in
      sub (add b.0 (trust_prior f.manifest.trust)) b.1

  -- (-score, baseline position)
  abbrev pub key_order : (Feature → Float) → List Object → WeakOrder Object
  key_order score ranked =
      by (λ o. (neg (score o.1), position o.0 ranked)) (pair_order less nat_order)

  unfoldable pub rank_by : (Feature → Float) → List Feature → List Feature
  rank_by score features =
      let os = objects 0 features in
      map (λ o. o.1) (sorted (key_order score (rank_objects os)).lt os)

  unfoldable pub metrics_rank : MetricsPolicy → List Feature → MetricsStore Float → List Feature
  unfolding rank_by
  metrics_rank p features store = rank_by (λ f. metrics_score p f store) features

  pub data RankingPolicy : Type 0 where
    baseline : RankingPolicy
    metrics : MetricsPolicy → RankingPolicy

  unfoldable pub score : RankingPolicy → Feature → MetricsStore Float → Float
  unfolding trust_prior metrics_score
  score baseline f store = trust_prior f.manifest.trust
  score (metrics p) f store = metrics_score p f store

  unfoldable pub rank : RankingPolicy → List Feature → MetricsStore Float → List Feature
  unfolding rank_features metrics_rank
  rank baseline features store = rank_features features
  rank (metrics p) features store = metrics_rank p features store
