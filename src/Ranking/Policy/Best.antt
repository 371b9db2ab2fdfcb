-- ===== src/Ranking/Policy/Best.antt =====
-- The head of a ranking: what the policies put first among the features that a test selects.
use agent_features.Common.{◌≡◌, none, some, List, Bool, false, keep, head?, All}
use agent_features.Common.Floats.{Floats}
use agent_features.Common.Order.{WeakOrder}
use agent_features.Common.Sort.Best.{
  IsBest, head?-sorted-keep, head?-sorted-keep-none, head?-sorted_twice-keep,
  head?-sorted_twice-keep-none,
}
use agent_features.Models.{Feature}
use agent_features.Catalog.Rank.{rank_features, rank_order}
use agent_features.Ranking.Metrics.{MetricsStore}
use agent_features.Ranking.Policy.{RankingPolicy, baseline, metrics, metrics_score, rank}
use agent_features.Ranking.Policy.Laws.{score_order, metrics_rank-sorted}

module _ (fl : Floats) where
  open fl use {Float}

  -- the order by which a policy prefers a feature: the baseline's, or by falling score
  abbrev pub preference : RankingPolicy fl → MetricsStore Float → WeakOrder Feature
  preference baseline store = rank_order
  preference (metrics p) store = score_order fl (λ f. metrics_score fl p f store)

  pub head?-rank-keep :
      (policy : RankingPolicy fl) (test : Feature → Bool) (fs : List Feature)
      (store : MetricsStore Float) {f : Feature}
      → head? (rank fl policy (keep test fs) store) ≡ some f
      → IsBest (preference policy store) test fs f
  unfolding rank rank_features
  head?-rank-keep baseline test fs store e = head?-sorted-keep rank_order test fs e
  head?-rank-keep (metrics p) test fs store e =
      head?-sorted_twice-keep (preference (metrics p) store) rank_order test fs
        (rw metrics_rank-sorted at e)

  pub head?-rank-keep-none :
      (policy : RankingPolicy fl) (test : Feature → Bool) (fs : List Feature)
      (store : MetricsStore Float)
      → head? (rank fl policy (keep test fs) store) ≡ none
      → All (λ f. test f ≡ false) fs
  unfolding rank rank_features
  head?-rank-keep-none baseline test fs store e = (head?-sorted-keep-none rank_order test fs).0 e
  head?-rank-keep-none (metrics p) test fs store e =
      head?-sorted_twice-keep-none (preference (metrics p) store) rank_order test fs
        (rw metrics_rank-sorted at e)
