-- ===== src/Ranking/Policy/Laws.antt =====
-- `MetricsPolicy.rank` is the baseline ranking, sorted once more by falling score.
use agent_features.Common.{
  ℕ, suc, ◌≤◌, ◌≡◌, ◌≢◌, refl, sym, ap, ◌∙◌, List, [], ◌∷◌, map, true, ltb, arith, All, All-map,
  Pairs, Pairs-weaken, Pairs-zip,
}
use mathlib.Core.List.{Perm}
use mathlib.Core.List.Perm
use agent_features.Common.Floats.{Floats}
use agent_features.Common.Order.{WeakOrder, by, dual}
use agent_features.Common.Sort.{sorted, sorted-IsSorted, sorted-perm, Pairs-sorted, Memᴰ-sorted_iff}
use agent_features.Common.Sort.Stable.{LessOr, LessOr-sorted, IsSorted-unique, map-sorted}
use agent_features.Models.{Feature}
use agent_features.Catalog.Rank.{rank_features, rank_order}
use agent_features.Catalog.Rank.Laws.{rank_features-best_first}
use agent_features.Ranking.Metrics.{MetricsStore}
use agent_features.Ranking.Policy.{
  Object, objects, position, rank_objects, MetricsPolicy, metrics_score, key_order, rank_by,
  metrics_rank, RankingPolicy, baseline, metrics, rank,
}

-- two objects are not the same
abbrev Distinct : Object → Object → Type 0
Distinct x y = x.0 ≢ y.0

map-objects : (i : ℕ) (fs : List Feature) → map (λ o. o.1) (objects i fs) ≡ fs
map-objects i [] = refl
map-objects i (f ∷ fs) = ap (◌∷◌ f) (map-objects (suc i) fs)

objects-from : (i : ℕ) (fs : List Feature) → All (λ o. i ≤ o.0) (objects i fs)
objects-from i [] = tt
objects-from i (f ∷ fs) = (omega arith, All-map (λ o h. omega arith) _ (objects-from (suc i) fs))

objects-Distinct : (i : ℕ) (fs : List Feature) → Pairs Distinct (objects i fs)
objects-Distinct i [] = tt
objects-Distinct i (f ∷ fs) = (
  All-map (λ o h e. absurd (omega arith)) _ (objects-from (suc i) fs),
  objects-Distinct (suc i) fs,
)

-- earlier in the list
abbrev Before : List Object → Object → Object → Type 0
Before l x y = ltb (position x.0 l) (position y.0 l) ≡ true

position-Before : (l : List Object) → Pairs Distinct l → Pairs (Before l) l
position-Before [] d = tt
position-Before (o ∷ os) d = (
  All-map (λ y n. ground arith) os d.0,
  Pairs-zip (λ x y p q r. ground arith) os d.0 (position-Before os d.1),
)

module _ (fl : Floats) where
  open fl use {Float, neg, less, neg-less}

  -- the order by falling score
  abbrev pub score_order : (Feature → Float) → WeakOrder Feature
  score_order score = by score (dual less)

  module _ (score : Feature → Float) where
    -- the baseline list, sorted by falling score, is in the order of the keys
    key-LessOr :
        (ranked : List Object) (x y : Object)
        → LessOr (by (λ (o : Object). o.1) (score_order score)) (Before ranked) x y
        → (key_order fl score ranked).lt x y ≡ true
    key-LessOr ranked x y h = ground (
      arith,
      neg-less (score x.1) (score y.1),
      neg-less (score y.1) (score x.1),
      less.asymm (score x.1) (score y.1),
      less.asymm (score y.1) (score x.1),
    )

    sorted_keys :
        (os : List Object)
        → Pairs Distinct os
        → sorted (key_order fl score (rank_objects os)).lt os
          ≡ sorted (by (λ (o : Object). o.1) (score_order score)).lt (rank_objects os)
    sorted_keys os d =
        let ranked = rank_objects os in
        let key = key_order fl score ranked in
        let falling = by (λ (o : Object). o.1) (score_order score) in
        let ranked_d =
          Pairs-sorted (by (λ (o : Object). o.1) rank_order).lt Distinct (λ a b n e. n (sym e)) os
            d in
        IsSorted-unique key (sorted key.lt os) (sorted falling.lt ranked) (sorted-IsSorted key os)
          (Pairs-weaken (λ x y n e. n (ap (λ (o : Object). o.0) e)) _
            (Pairs-sorted key.lt Distinct (λ a b n e. n (sym e)) os d))
          (Pairs-weaken (key-LessOr ranked) _
            (LessOr-sorted falling (Before ranked) ranked (position-Before ranked ranked_d)))
          (λ x.
            let a = Memᴰ-sorted_iff key.lt x os in
            let b = Memᴰ-sorted_iff falling.lt x ranked in
            let c = Memᴰ-sorted_iff (by (λ (o : Object). o.1) rank_order).lt x os in
            (λ m. b.1 (c.1 (a.0 m)), λ m. a.1 (c.0 (b.0 m))))

    rank_by-sorted :
        (fs : List Feature) → rank_by fl score fs ≡ sorted (score_order score).lt (rank_features fs)
    unfolding rank_by rank_features
    rank_by-sorted fs =
        let os = objects 0 fs in
        let first = λ (o : Object). o.1 in
        ap (map first) (sorted_keys os (objects-Distinct 0 fs))
        ∙ map-sorted first (score_order score) (rank_objects os)
        ∙ ap (sorted (score_order score).lt) (map-sorted first rank_order os)
        ∙ ap (λ l. sorted (score_order score).lt (sorted rank_order.lt l)) (map-objects 0 fs)

  -- `MetricsPolicy.rank` orders by falling score, and leaves features of one score in the order of
  -- `rank_features`: its keys and the dictionary of positions come to a stable sort of that list.
  pub metrics_rank-sorted :
      (p : MetricsPolicy fl) (fs : List Feature) (store : MetricsStore Float)
      → metrics_rank fl p fs store
        ≡ sorted (score_order (λ f. metrics_score fl p f store)).lt (rank_features fs)
  unfolding metrics_rank
  metrics_rank-sorted p fs store = rank_by-sorted (λ f. metrics_score fl p f store) fs

  -- Whatever the policy, ranking loses no feature and adds none.
  pub rank-perm :
      (policy : RankingPolicy fl) (fs : List Feature) (store : MetricsStore Float)
      → Perm (rank fl policy fs store) fs
  unfolding rank
  rank-perm baseline fs store = (rank_features-best_first fs).0
  rank-perm (metrics p) fs store = rw metrics_rank-sorted (
      Perm.trans (sorted-perm (score_order (λ f. metrics_score fl p f store)).lt (rank_features fs))
        (rank_features-best_first fs).0)
