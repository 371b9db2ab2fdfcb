-- ===== src/Catalog/Custom/RoundTrip.antt =====
-- A feature that is written as a custom resource, and read again.
use agent_features.Common.{
  ◌≡◌, refl, ap, Option, none, some, List, [], ◌∷◌, map, true, arith, if◌then◌else◌,
}
use agent_features.Common.Text.{Text, codes, truthy}
use agent_features.Common.Json.{
  Json, str, arr, obj, Fields, end, field, arr_of, truthy_fields, get_or_null,
}
use agent_features.Models.{
  TrustTier, official, verified, community, Visibility, public, internal, private, FeatureProtocol,
  grpc, http, Phase, pending, provisioning, ready, failed, Manifest, default_capability, Feature,
}
use agent_features.Catalog.Custom.{
  as_text?, texts_of, choose, visibilities, phases, tiers, protocol_of, schema_of, feature_from_cr,
}

abbrev visibility_text : Visibility → Text
visibility_text public = codes "Public"
visibility_text internal = codes "Internal"
visibility_text private = codes "Private"

abbrev protocol_text : FeatureProtocol → Text
protocol_text grpc = codes "grpc"
protocol_text http = codes "http"

abbrev tier_text : TrustTier → Text
tier_text official = codes "Official"
tier_text verified = codes "Verified"
tier_text community = codes "Community"

abbrev phase_text : Phase → Text
phase_text pending = codes "Pending"
phase_text provisioning = codes "Provisioning"
phase_text ready = codes "Ready"
phase_text failed = codes "Failed"

abbrev endpoint_fields : Option Text → Fields
endpoint_fields none = end
endpoint_fields (some e) = field (codes "endpoint") (str e) end

-- The custom resource of a feature, as operator/api/v1alpha1 lays it out: a schema is JSON in a
-- text, and an empty one is the empty text. There is no place for a version.
module _ (dumps : Fields → Text) where
  abbrev pub schema_text : Fields → Text
  schema_text d = if truthy_fields d then dumps d else []

  abbrev spec_of : Manifest → Fields
  spec_of m = field (codes "description") (str m.description) (
      field (codes "tags") (arr (arr_of (map str m.tags))) (
        field (codes "inputSchema") (str (schema_text m.input_schema)) (
          field (codes "outputSchema") (str (schema_text m.output_schema)) (
            field (codes "visibility") (str (visibility_text m.visibility)) (
              field (codes "protocol") (str (protocol_text m.protocol)) (
                field (codes "vendor") (str m.vendor) (
                  field (codes "capability") (str m.capability)
                    (field (codes "trust") (str (tier_text m.trust)) end))))))))

  abbrev pub cr_of : Feature → Fields
  cr_of f = field (codes "metadata") (obj (field (codes "name") (str f.manifest.name) end)) (
      field (codes "spec") (obj (spec_of f.manifest)) (
        field (codes "status")
          (obj (field (codes "phase") (str (phase_text f.phase)) (endpoint_fields f.endpoint)))
          end))

-- a feature without its version, and with its capability filled in
abbrev pub restored : Feature → Feature
restored f = record f {
  manifest = default_capability (record f.manifest { version = codes "1.0.0" });
}

texts_of-map : (ts : List Text) → texts_of (arr_of (map str ts)) ≡ some ts
texts_of-map [] = refl
texts_of-map (t ∷ ts) = rw (texts_of-map ts) refl

choose-visibility : (v : Visibility) → choose visibilities public (str (visibility_text v)) ≡ some v
unfolding choose
choose-visibility public = refl
choose-visibility internal = refl
choose-visibility private = refl

choose-tier : (t : TrustTier) → choose tiers community (str (tier_text t)) ≡ some t
unfolding choose
choose-tier official = refl
choose-tier verified = refl
choose-tier community = refl

choose-phase : (p : Phase) → choose phases pending (str (phase_text p)) ≡ some p
unfolding choose
choose-phase pending = refl
choose-phase provisioning = refl
choose-phase ready = refl
choose-phase failed = refl

protocol_of-text : (p : FeatureProtocol) → protocol_of (str (protocol_text p)) ≡ some p
unfolding protocol_of
protocol_of-text grpc = refl
protocol_of-text http = refl

as_text?-endpoint :
    (p : Phase) (e : Option Text)
    → as_text? (
        get_or_null
          (codes "endpoint")
          (field (codes "phase") (str (phase_text p)) (endpoint_fields e)))
      ≡ some e
unfolding get_or_null
as_text?-endpoint p none = refl
as_text?-endpoint p (some e) = refl

module _ (loads : Text → Option Json) (dumps : Fields → Text)
    (loads-dumps : (d : Fields) → loads (dumps d) ≡ some (obj d))
    (loads-nil : loads [] ≡ none) where
  truthy-dumps : (d : Fields) → truthy (dumps d) ≡ true
  truthy-dumps d = go (dumps d) refl
    where
      go : (t : Text) → dumps d ≡ t → truthy t ≡ true
      go [] e = absurd (ground (arith, loads-nil, loads-dumps d, ap loads e))
      go (c ∷ t) e = refl

  schema_of-text : (d : Fields) → schema_of loads (str (schema_text dumps d)) ≡ some d
  schema_of-text end = refl
  schema_of-text (field k v d) = rw (truthy-dumps (field k v d), loads-dumps (field k v d)) refl

  -- A feature that is written as a custom resource, in the layout of the operator's API, is read
  -- back with all that it was, but for the version, which is 1.0.0 then, and an empty capability,
  -- which is its name then; if `json.loads` reads back what `json.dumps` writes, and refuses the
  -- empty text.
  pub feature_from_cr-cr_of :
      (f : Feature) → feature_from_cr loads (cr_of dumps f) ≡ some (restored f)
  unfolding feature_from_cr
  feature_from_cr-cr_of f =
      let m = f.manifest in
      rw (texts_of-map m.tags) (
        rw (schema_of-text m.input_schema) (
          rw (schema_of-text m.output_schema) (
            rw (choose-visibility m.visibility) (
              rw (protocol_of-text m.protocol) (
                rw (choose-tier m.trust)
                  (rw (choose-phase f.phase) (rw (as_text?-endpoint f.phase f.endpoint) refl)))))))
