-- ===== src/Ranking/Metrics/Laws.antt =====
-- The store after any sequence of recorded outcomes.
use agent_features.Common.{
  ◌+◌, ◌≤◌, ◌≡◌, refl, sym, subst, ap, ◌∙◌, Option, none, some, List, [], ◌∷◌, Bool, true, false,
  arith, keep, length, if◌then◌else◌, Bool-cases, inl, inr,
}
use agent_features.Common.Text.{Text, ◌==◌}
use agent_features.Common.Text.Laws.{eq_iff}
use agent_features.Common.Dict
use agent_features.Common.Dict.{get-put}
use agent_features.Common.Floats.{Floats}
use agent_features.Ranking.Metrics.{
  FeatureMetrics, MetricsStore, empty_store, get, or_new, bump, record_outcome,
}

module _ (fl : Floats) where
  open fl use {Float, decimal, add}

  -- a call of `record`
  pub record Outcome : Type 0 where
    pub feature_id : Text
    pub success : Bool
    pub latency_ms : Float

  pub get-record_outcome :
      (k j : Text) (success : Bool) (latency : Float) (store : MetricsStore Float)
      → get fl j (record_outcome fl k success latency store) ≡ (
          if k == j
          then some (bump fl success latency (or_new fl (get fl k store)))
          else get fl j store)
  unfolding get record_outcome
  get-record_outcome k j success latency store =
      get-put k j (bump fl success latency (or_new fl (Dict.get k store.m))) store.m

  -- the calls in the order in which they hold the lock
  abbrev pub record_all : List Outcome → MetricsStore Float → MetricsStore Float
  record_all [] store = store
  record_all (o ∷ os) store =
      record_all os (record_outcome fl o.feature_id o.success o.latency_ms store)

  -- the outcomes of one feature
  abbrev pub outcomes_of : Text → List Outcome → List Outcome
  outcomes_of k = keep (λ o. o.feature_id == k)

  abbrev pub sum_latency : Float → List Outcome → Float
  sum_latency total [] = total
  sum_latency total (o ∷ os) = sum_latency (if o.success then add total o.latency_ms else total) os

  -- counters that have taken in more outcomes
  abbrev tally : FeatureMetrics Float → List Outcome → FeatureMetrics Float
  tally m os = record {
    invocations = m.invocations + length os;
    successes = m.successes + length (keep (λ o. o.success) os);
    total_latency_ms = sum_latency m.total_latency_ms os;
  }

  -- what the store holds for a feature after more outcomes of it
  abbrev pub tallied : Option (FeatureMetrics Float) → List Outcome → Option (FeatureMetrics Float)
  tallied o [] = o
  tallied o (x ∷ xs) = some (tally (or_new fl o) (x ∷ xs))

  tally-bump :
      (m : FeatureMetrics Float) (o : Outcome) (os : List Outcome)
      → tally (bump fl o.success o.latency_ms m) os ≡ tally m (o ∷ os)
  tally-bump m o os = elim (Bool-cases o.success) [
    | inl h ↦ rw h (ground (arith, h))
    | inr h ↦ rw h (ground (arith, h))
  ]

  tallied-bump :
      (found : Option (FeatureMetrics Float)) (o : Outcome) (os : List Outcome)
      → tallied (some (bump fl o.success o.latency_ms (or_new fl found))) os
        ≡ tallied found (o ∷ os)
  tallied-bump found o [] = ap some (tally-nil _ ∙ tally-bump (or_new fl found) o [])
    where
      tally-nil : (m : FeatureMetrics Float) → m ≡ tally m []
      tally-nil m = ground arith
  tallied-bump found o (x ∷ xs) = ap some (tally-bump (or_new fl found) o (x ∷ xs))

  tallied_step :
      (k : Text) (o : Outcome) (found : Text → Option (FeatureMetrics Float)) (os : List Outcome)
      → tallied
          (if o.feature_id == k
            then some (bump fl o.success o.latency_ms (or_new fl (found o.feature_id)))
            else found k)
          os
        ≡ tallied (found k) (if o.feature_id == k then o ∷ os else os)
  tallied_step k o found os = elim (Bool-cases (o.feature_id == k)) [
    | inl h ↦
        let e = (eq_iff o.feature_id k).0 h in
        rw h (
          subst
            (λ i.
              tallied (some (bump fl o.success o.latency_ms (or_new fl (found i)))) os
              ≡ tallied (found k) (o ∷ os))
            (sym e) (tallied-bump (found k) o os))
    | inr h ↦ rw h
  ]

  get-record_all :
      (k : Text) (os : List Outcome) (store : MetricsStore Float)
      → get fl k (record_all os store) ≡ tallied (get fl k store) (outcomes_of k os)
  get-record_all k [] store = refl
  get-record_all k (o ∷ os) store =
      get-record_all k os (record_outcome fl o.feature_id o.success o.latency_ms store)
      ∙ ap (λ m. tallied m (outcomes_of k os))
          (get-record_outcome o.feature_id k o.success o.latency_ms store)
      ∙ tallied_step k o (λ i. get fl i store) (outcomes_of k os)

  -- After any calls of `record` on a new store, a feature with no outcome has no counters. Any
  -- other has as many invocations as it has outcomes, as many successes as it has successful
  -- ones, and as total latency the sum of the latencies of these, in their order.
  pub record_all-tally :
      (os : List Outcome) (k : Text)
      → get fl k (record_all os (empty_store fl)) ≡ tallied none (outcomes_of k os)
  record_all-tally os k =
      get-record_all k os (empty_store fl) ∙ ap (λ m. tallied m (outcomes_of k os)) (no_metrics k)
    where
      no_metrics : (k : Text) → get fl k (empty_store fl) ≡ none
      no_metrics k = unfold get Dict.get in refl

  -- no feature has more successes than invocations
  abbrev pub IsCounted : MetricsStore Float → Type 0
  IsCounted store =
      (k : Text) (m : FeatureMetrics Float) → get fl k store ≡ some m → m.successes ≤ m.invocations

  -- One more call of `record` keeps the successes of every feature at most its invocations.
  pub record_outcome-IsCounted :
      (k : Text) (success : Bool) (latency : Float) (store : MetricsStore Float)
      → IsCounted store
      → IsCounted (record_outcome fl k success latency store)
  record_outcome-IsCounted k success latency store h j m e =
      counted (k == j) (get fl k store) (h k) (h j m)
        (sym (get-record_outcome k j success latency store) ∙ e)
    where
      counted :
          (b : Bool) (found : Option (FeatureMetrics Float))
          → ((n : FeatureMetrics Float) → found ≡ some n → n.successes ≤ n.invocations)
          → (get fl j store ≡ some m → m.successes ≤ m.invocations)
          → (if b then some (bump fl success latency (or_new fl found)) else get fl j store)
            ≡ some m
          → m.successes ≤ m.invocations
      counted false found hk hj e' = hj e'
      counted true none hk hj e' = ground arith
      counted true (some n) hk hj e' = ground (arith, hk n refl)
