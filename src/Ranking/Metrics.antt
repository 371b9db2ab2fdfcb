-- ===== src/Ranking/Metrics.antt =====
-- `FeatureMetrics` and `MetricsStore` of gateway/ranking.py. `record` runs under a lock, so calls
-- of several threads are one after another, in some order.
pub mod Laws
use agent_features.Common.{
  ℕ, ◌+◌, Option, none, some, List, [], ◌∷◌, Bool, true, false, eqb, if◌then◌else◌,
}
use agent_features.Common.Text.{Text}
use agent_features.Common.Dict
use agent_features.Common.Dict.{Dict, put}
use agent_features.Common.Floats.{Floats}

pub record FeatureMetrics (Float : Type 0) : Type 0 where
  pub invocations : ℕ
  pub successes : ℕ
  pub total_latency_ms : Float

pub record MetricsStore (Float : Type 0) : Type 0 where
  pub m : Dict (FeatureMetrics Float)

module _ (fl : Floats) where
  open fl use {Float, decimal, add, ratio, div_int}

  -- FeatureMetrics()
  abbrev pub new_metrics : FeatureMetrics Float
  new_metrics = record { invocations = 0; successes = 0; total_latency_ms = decimal 0 1 }

  -- None before the first invocation
  unfoldable pub success_rate : FeatureMetrics Float → Option Float
  success_rate m = if eqb m.invocations 0 then none else some (ratio m.successes m.invocations)

  -- None before the first success
  unfoldable pub avg_latency_ms : FeatureMetrics Float → Option Float
  avg_latency_ms m =
      if eqb m.successes 0 then none else some (div_int m.total_latency_ms m.successes)

  abbrev pub empty_store : MetricsStore Float
  empty_store = record { m = [] }

  unfoldable pub get : Text → MetricsStore Float → Option (FeatureMetrics Float)
  get feature_id store = Dict.get feature_id store.m

  abbrev pub or_new : Option (FeatureMetrics Float) → FeatureMetrics Float
  or_new none = new_metrics
  or_new (some m) = m

  -- one outcome counted in
  abbrev pub bump :
      (success : Bool) → (latency_ms : Float) → FeatureMetrics Float → FeatureMetrics Float
  bump true latency m = record {
    invocations = m.invocations + 1;
    successes = m.successes + 1;
    total_latency_ms = add m.total_latency_ms latency;
  }
  bump false latency m = record m { invocations = m.invocations + 1 }

  unfoldable pub record_outcome :
      Text → (success : Bool) → (latency_ms : Float) → MetricsStore Float → MetricsStore Float
  record_outcome feature_id success latency_ms store = record {
    m = put feature_id (bump success latency_ms (or_new (Dict.get feature_id store.m))) store.m;
  }
