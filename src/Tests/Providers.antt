-- ===== src/Tests/Providers.antt =====
-- The catalogue and the rankings at the features of the tests.
use agent_features.Common.{
  ◌⊎◌, ◌≡◌, ◌↔◌, none, some, List, [], ◌∷◌, map, Bool, true, false, All, ◌&&◌,
}
use mathlib.Core.List.{Memᴰ}
use agent_features.Common.Text.{Text, codes, ◌==◌}
use agent_features.Common.Sort.{sorted, IsSorted}
use agent_features.Models.{TrustTier, community, Feature, CapabilitySummary}
use agent_features.Catalog.Rank.{rank_features, resolve_feature}
use agent_features.Catalog.Rank.Resolve.{IsCandidate, IsPicked, resolve_feature-Resolved}
use agent_features.Catalog.Summary.{summarize_capabilities}
use agent_features.Catalog.Summary.Laws.{IsSummary, IsIndex, summarize_capabilities-IsSummary}
use agent_features.Catalog.Browse.{name_order}
use agent_features.Catalog.Browse.Laws.{HasTags, Mentions}
use agent_features.Catalog.Memory.{init, list, get}
use agent_features.Catalog.Memory.Laws.{last_named, list-get-init}
use agent_features.Ranking.Metrics.{empty_store, record_outcome}
use agent_features.Ranking.Metrics
use agent_features.Ranking.Metrics.Laws.{
  Outcome, record_all, outcomes_of, tallied, record_all-tally,
}
use agent_features.Ranking.Policy.{metrics_rank, metrics_score, default_policy}
use agent_features.Ranking.Policy.Laws.{score_order, metrics_rank-sorted}
use agent_features.Tests.Data.{milli, greeter, polite, greeters}

resolve_feature-Resolved_example :
    ((f : Feature) × (resolve_feature greeters (codes "greet") (some (codes "^2.0")) none ≡ some f)
      × IsPicked greeters (codes "greet") (some (codes "^2.0")) none f)
    ⊎ ((resolve_feature greeters (codes "greet") (some (codes "^2.0")) none ≡ none)
        × All (λ f. ¬ IsCandidate (codes "greet") (some (codes "^2.0")) none f) greeters)
resolve_feature-Resolved_example =
    resolve_feature-Resolved greeters (codes "greet") (some (codes "^2.0")) none

-- the vendor, the version and the tier of the feature `polite`
abbrev community? : TrustTier → Bool
community? community = true
community? tier = false

abbrev level : Feature → Bool
level f =
    community? f.manifest.trust
    && (f.manifest.version == polite.version && f.manifest.vendor == polite.vendor)

summarize_capabilities-IsSummary_example :
    (out : List CapabilitySummary) × (summarize_capabilities greeters ≡ some out)
    × All (IsSummary greeters) out
    × IsIndex greeters (map (λ s. s.capability) out)
summarize_capabilities-IsSummary_example = summarize_capabilities-IsSummary greeters

list-get-init_example :
    let c = init (greeter ∷ polite ∷ []) in
    ((name : Text) → get c name ≡ last_named name none (greeter ∷ polite ∷ []))
    × IsSorted name_order.lt (list c (some (codes "greet")) none)
    × ((f : Feature)
        → Memᴰ f (list c (some (codes "greet")) none)
          ↔ ((get c f.manifest.name ≡ some f) × HasTags none f × Mentions (some (codes "greet")) f))
list-get-init_example = list-get-init (greeter ∷ polite ∷ []) (some (codes "greet")) none

abbrev outcomes : List (Outcome milli)
outcomes =
    record { feature_id = codes "a"; success = true; latency_ms = (7, 0) }
    ∷ record { feature_id = codes "b"; success = false; latency_ms = (0, 0) }
    ∷ record { feature_id = codes "a"; success = false; latency_ms = (0, 0) }
    ∷ []

record_all-tally_example :
    Metrics.get milli (codes "a") (record_all milli outcomes (empty_store milli))
    ≡ tallied milli none (outcomes_of milli (codes "a") outcomes)
record_all-tally_example = record_all-tally milli outcomes (codes "a")

metrics_rank-sorted_example :
    metrics_rank milli (default_policy milli) greeters (empty_store milli)
    ≡ sorted
        (score_order milli
          (λ f. metrics_score milli (default_policy milli) f (empty_store milli))).lt
        (rank_features greeters)
metrics_rank-sorted_example =
    metrics_rank-sorted milli (default_policy milli) greeters (empty_store milli)
