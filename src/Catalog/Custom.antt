-- ===== src/Catalog/Custom.antt =====
-- `feature_from_cr` of gateway/catalog.py: a custom resource, as JSON, read as a Feature. None
-- stands for any exception, those of pydantic's checks included. `json.loads` is a parameter, none
-- where it raises.
pub mod RoundTrip
use agent_features.Common.{
  Option, none, some, List, [], ◌∷◌, Bool, true, false, if◌then◌else◌, ◌>>=◌,
}
use agent_features.Common.Text.{Text, codes, ◌==◌}
use agent_features.Common.Dict.{Dict, get}
use agent_features.Common.Json.{
  Json, str, arr, obj, null, Fields, end, Items, nil, cons, truthy_json, get_or, get_or_null,
}
use agent_features.Models.{
  TrustTier, official, verified, community, Visibility, public, internal, private, FeatureProtocol,
  grpc, http, Phase, pending, provisioning, ready, failed, Manifest, default_capability, Feature,
}

-- a value on which `get` is called, or which a model wants as a dictionary
abbrev pub as_object : Json → Option Fields
as_object (obj d) = some d
as_object v = none

abbrev pub as_text : Json → Option Text
as_text (str s) = some s
as_text v = none

-- str | None
abbrev pub as_text? : Json → Option (Option Text)
as_text? null = some none
as_text? (str s) = some (some s)
as_text? v = none

abbrev pub texts_of : Items → Option (List Text)
texts_of nil = some []
texts_of (cons v vs) = do s ← as_text v; ss ← texts_of vs; some (s ∷ ss)

-- list[str]
abbrev pub as_texts : Json → Option (List Text)
as_texts (arr vs) = texts_of vs
as_texts v = none

abbrev or_default : {A : Type 0} → A → Option A → A
or_default a none = a
or_default a (some b) = b

-- table.get(v, default): a list or a dictionary is no key
unfoldable pub choose : {A : Type 0} → Dict A → A → Json → Option A
unfolding get
choose table a (str s) = some (or_default a (get s table))
choose table a (arr vs) = none
choose table a (obj d) = none
choose table a v = some a

abbrev pub visibilities : Dict Visibility
visibilities =
    (codes "Public", public) ∷ (codes "Internal", internal) ∷ (codes "Private", private) ∷ []

abbrev pub phases : Dict Phase
phases =
    (codes "Pending", pending)
    ∷ (codes "Provisioning", provisioning)
    ∷ (codes "Ready", ready)
    ∷ (codes "Failed", failed)
    ∷ []

abbrev pub tiers : Dict TrustTier
tiers =
    (codes "Official", official)
    ∷ (codes "Verified", verified)
    ∷ (codes "Community", community)
    ∷ []

-- FeatureProtocol(v), which raises on any other value
unfoldable pub protocol_of : Json → Option FeatureProtocol
protocol_of (str s) =
    if s == codes "grpc" then some grpc else if s == codes "http" then some http else none
protocol_of v = none

module _ (loads : Text → Option Json) where
  abbrev pub load : Json → Option Fields
  load v = do s ← as_text v; w ← loads s; as_object w

  -- json.loads(v) if v else {}
  abbrev pub schema_of : Json → Option Fields
  schema_of v = if truthy_json v then load v else some end

  unfoldable pub feature_from_cr : Fields → Option Feature
  unfolding get_or get_or_null default_capability
  feature_from_cr cr = do
    spec ← as_object (get_or (codes "spec") (obj end) cr)
    status ← as_object (get_or (codes "status") (obj end) cr)
    metadata ← as_object (get_or_null (codes "metadata") cr)
    name ← as_text (get_or_null (codes "name") metadata)
    description ← as_text (get_or (codes "description") (str []) spec)
    tags ← as_texts (get_or (codes "tags") (arr nil) spec)
    input_schema ← schema_of (get_or_null (codes "inputSchema") spec)
    output_schema ← schema_of (get_or_null (codes "outputSchema") spec)
    visibility ←
        choose visibilities public (get_or (codes "visibility") (str (codes "Public")) spec)
    protocol ← protocol_of (get_or (codes "protocol") (str (codes "grpc")) spec)
    vendor ← as_text (get_or (codes "vendor") (str (codes "community")) spec)
    capability ← as_text (get_or (codes "capability") (str []) spec)
    trust ← choose tiers community (get_or (codes "trust") (str (codes "Community")) spec)
    phase ← choose phases pending (get_or (codes "phase") (str (codes "Pending")) status)
    endpoint ← as_text? (get_or_null (codes "endpoint") status)
    some (record {
      manifest = default_capability (record {
        name = name;
        version = codes "1.0.0";
        description = description;
        tags = tags;
        input_schema = input_schema;
        output_schema = output_schema;
        visibility = visibility;
        protocol = protocol;
        vendor = vendor;
        capability = capability;
        trust = trust;
      });
      phase = phase;
      endpoint = endpoint;
    })
