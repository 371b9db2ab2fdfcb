-- ===== src/Tests/Dev.antt =====
-- The development gateway from end to end.
use agent_features.Common.{ℕ, ◌+◌, ◌*◌, ◌≡◌, refl, none, some}
use agent_features.Common.Text.{Text, codes}
use agent_features.Common.Json.{Json, str, int, end, field}
use agent_features.Models.{InvokeRequest, default_context}
use agent_features.Catalog.Memory.{InMemoryCatalog}
use agent_features.Ranking.Metrics
use agent_features.Ranking.Policy.{rank, metrics_score, trust_prior}
use agent_features.Invoker.{Invoke}
use agent_features.Samples.{Time, build_dev_catalog_and_invoker}
use agent_features.Composer.{CompositeResult}
use agent_features.Gateway.{App, ok}
use agent_features.Gateway.Compose.{invoke_composite}
use agent_features.Gateway.Wiring.{as_catalog, create_app, first_state}
use agent_features.Tests.Handlers.{naturals}
use agent_features.Tests.Data.{program, milli, Milli, iter_errors}

abbrev noon : Time ℕ
noon = record {
  Number = ℕ;
  Zone = ℕ;
  float_of = λ v. some 0;
  timezone = λ n. some n;
  now = λ z w. (codes "2024-01-01T12:00:00+00:00", w);
  to_json = int;
}

abbrev as_text : Json → Text
as_text (str s) = s
as_text v = codes "?"

-- each reading of the clock is a second later
abbrev tick : ℕ → Milli × ℕ
tick w = ((w * 1000, 0), w + 1)

abbrev pair : InMemoryCatalog × Invoke Milli ℕ
pair = build_dev_catalog_and_invoker milli tick naturals noon as_text

abbrev dev_app : App milli ℕ
dev_app =
    create_app milli iter_errors none none none none (as_catalog pair.0, pair.1)
      (as_catalog pair.0, pair.1)

abbrev ada : InvokeRequest
ada = record { input = field (codes "name") (str (codes "Ada")) end; context = default_context }

-- the composite greets with the vendor of the higher tier, and counts the greeting
reports :
    (r : CompositeResult) × ((invoke_composite dev_app
        (codes "greet-report")
        ada
        (first_state milli 0)).0
      ≡ ok r)
    × (r.output
        ≡ field
            (codes "greeting")
            (str (codes "Hello, Ada. — Acme"))
            (field (codes "characters") (int 18) (field (codes "words") (int 4) end)))
unfolding program invoke_composite create_app first_state rank build_dev_catalog_and_invoker
    metrics_score Metrics.get trust_prior
reports = (_, refl, refl)
