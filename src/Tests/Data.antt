-- ===== src/Tests/Data.antt =====
-- The catalogue, the numbers and the invoker of the tests.
use agent_features.Common.Text.{strip, lower}
use agent_features.Common.Text
use agent_features.Common.Sort.{sorted}
use agent_features.Common.Dict
use agent_features.Gateway.Features.{invoke}
use agent_features.Catalog.Version.{
  match_version, triple, semver_key, caret_upper, tilde_upper, compare_version,
}
use agent_features.Catalog.Rank.{resolve_feature}
use agent_features.Catalog.Browse.{browse}
use agent_features.Catalog.Memory.{list, get, list_capabilities}
use agent_features.Common.{
  ℕ, zero, suc, ◌+◌, ◌*◌, ◌-◌, none, some, List, [], ◌∷◌, Bool, true, false, ltb, eqb, not, ◌≡◌,
  ◌⊎◌, inl, inr, arith, Bool-cases,
}
use Prim.Native.Nat.{◌/◌}
use agent_features.Common.Text.{Text, codes, ◌==◌}
use agent_features.Common.Json.{Json, str, obj, Fields, end, field, get_field, put_field}
use agent_features.Common.Floats.{Floats}
use agent_features.Models.{
  Manifest, Feature, TrustTier, official, community, ready, Visibility, FeatureProtocol,
  RequestContext, InvokeRequest, default_context,
}
use agent_features.Validation.{SchemaError, collect_errors}
use agent_features.Catalog.{Catalog}
use agent_features.Catalog.Memory.{init}
use agent_features.Ranking.Metrics.{empty_store}
use agent_features.Ranking.Policy.{metrics, default_policy}
use agent_features.Composer.{Step, Composite, run}
use agent_features.Invoker.{Invocation, returned, feature_input_error, feature_unavailable}
use agent_features.Gateway.{App, State}

-- what the runs open
unfoldable pub program : Unit {0}
unfolding resolve_feature list get init Dict.put match_version strip triple semver_key caret_upper
    tilde_upper compare_version sorted Text.split lower browse run get_field put_field Dict.get
    invoke collect_errors
program = tt

-- numbers as thousandths, (a, b) read as a - b
abbrev pub Milli : Type 0
Milli = ℕ × ℕ

pub milli_asymm :
    (x y : Milli) → ltb (x.0 + y.1) (y.0 + x.1) ≡ true → ltb (y.0 + x.1) (x.0 + y.1) ≡ false
milli_asymm x y h = ground arith

pub milli_cotrans :
    (x y z : Milli)
    → ltb (x.0 + z.1) (z.0 + x.1) ≡ true
    → (ltb (x.0 + y.1) (y.0 + x.1) ≡ true) ⊎ (ltb (y.0 + z.1) (z.0 + y.1) ≡ true)
milli_cotrans x y z h = elim (Bool-cases (ltb (x.0 + y.1) (y.0 + x.1))) [
  | inl p ↦ inl p
  | inr p ↦ inr (ground arith)
]

pub milli_neg : (x y : Milli) → ltb (x.1 + y.0) (y.1 + x.0) ≡ ltb (y.0 + x.1) (x.0 + y.1)
milli_neg x y = ground arith

abbrev thousandths : ℕ → ℕ → ℕ
thousandths m zero = m * 1000
thousandths m (suc zero) = m * 100
thousandths m (suc (suc zero)) = m * 10
thousandths m (suc (suc (suc k))) = m

abbrev pub milli : Floats
milli = record {
  Float = Milli;
  decimal = λ m k. (thousandths m k, 0);
  add = λ x y. (x.0 + y.0, x.1 + y.1);
  sub = λ x y. (x.0 + y.1, x.1 + y.0);
  mul = λ x y. ((x.0 * y.0 + x.1 * y.1) / 1000, (x.0 * y.1 + x.1 * y.0) / 1000);
  div = λ x y. ((x.0 * 1000) / (y.0 - y.1), (x.1 * 1000) / (y.0 - y.1));
  neg = λ x. (x.1, x.0);
  ratio = λ n m. ((n * 1000) / m, 0);
  div_int = λ x n. (x.0 / n, x.1 / n);
  round = λ x k. x;
  nonzero = λ x. not (eqb x.0 x.1);
  less = record {
    lt = λ x y. ltb (x.0 + y.1) (y.0 + x.1);
    asymm = milli_asymm;
    cotrans = milli_cotrans;
  };
  neg-less = milli_neg;
}

-- {"required": "<key>"}: the one schema that the validator of the tests knows
abbrev pub requires : Text → Fields
requires k = field (codes "required") (str k) end

abbrev pub iter_errors : Json → Fields → List SchemaError
iter_errors (obj d) (field r (str k) end) = elim (get_field k d) [
  | some v ↦ []
  | none ↦ record { path = []; message = codes "missing" } ∷ []
]
iter_errors payload schema = []

abbrev manifest_of :
    (name version vendor capability : Text) → TrustTier → (schema : Fields) → Manifest
manifest_of name version vendor capability trust schema = record {
  name = name;
  version = version;
  description = codes "A greeting";
  tags = codes "text" ∷ [];
  input_schema = schema;
  output_schema = end;
  visibility = Visibility.public;
  protocol = FeatureProtocol.grpc;
  vendor = vendor;
  capability = capability;
  trust = trust;
}

abbrev pub greeter : Manifest
greeter =
    manifest_of (codes "greeter") (codes "1.2.0") (codes "acme") (codes "greet") official
      (requires (codes "name"))

abbrev pub polite : Manifest
polite = manifest_of (codes "polite") (codes "2.0.0") (codes "beta") (codes "greet") community end

abbrev pub feature_of : Manifest → Feature
feature_of m = record { manifest = m; phase = ready; endpoint = none }

abbrev pub greeters : List Feature
greeters = feature_of greeter ∷ feature_of polite ∷ []

abbrev pub input : Fields
input = field (codes "name") (str (codes "Ada")) end

abbrev pub body : InvokeRequest
body = record { input = input; context = default_context }

-- The world counts the calls. The feature `polite` is down, and any other answers with its input.
abbrev answer : Bool → Fields → Invocation Milli
answer true payload = feature_unavailable (codes "down")
answer false payload = returned (record { output = payload; latency_ms = (7000, 0) })

abbrev invoker : Text → Json → RequestContext → ℕ → Invocation Milli × ℕ
invoker name (obj payload) context w = (answer (name == codes "polite") payload, w + 1)
invoker name payload context w = (feature_input_error (codes "no object"), w + 1)

abbrev catalog : Catalog ℕ
catalog = record {
  list = λ query tags w. list (init (greeter ∷ polite ∷ [])) query tags;
  get = λ name w. get (init (greeter ∷ polite ∷ [])) name;
  list_capabilities = λ w. list_capabilities (init (greeter ∷ polite ∷ []));
}

abbrev pub app : App milli ℕ
app = record {
  catalog = catalog;
  invoker = invoker;
  policy = metrics (default_policy milli);
  iter_errors = iter_errors;
}

abbrev pub greeting : Step
greeting = record {
  name = codes "greeting";
  capability = codes "greet";
  vendor = none;
  version = some (codes "^1.0");
  inputs = (codes "name", codes "input.name") ∷ [];
}

abbrev pub report : Composite
report = record {
  name = codes "report";
  capability = codes "report";
  description = codes "Greets";
  input_schema = end;
  steps = greeting ∷ [];
  output = (codes "who", codes "greeting.name") ∷ [];
}

abbrev pub start : State Milli ℕ
start = record { store = empty_store milli; composites = (codes "report", report) ∷ []; world = 0 }
