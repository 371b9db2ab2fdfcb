-- ===== src/Gateway/Provenance/Laws.antt =====
-- When the gateway reports a verified signature.
use agent_features.Common.{◌≡◌, ◌↔◌, refl, sym, ◌∙◌, subst, Option, none, some, arith}
use mathlib.Core.List.{Memᴰ}
use agent_features.Common.Text.{Text, codes}
use agent_features.Common.Json.{Json, str, Fields, get_field}
use agent_features.Common.Floats.{Floats}
use agent_features.Models.{Manifest, Feature}
use agent_features.Signing.{Settings, Tools, bundle_path, resolve_bundle, verify}
use agent_features.Signing.Laws.{IsVerified, status, resolve_bundle-some_iff, verify-IsVerified_iff}
use agent_features.Gateway.{App, State, Response, ok, http_error, server_error}
use agent_features.Gateway.Provenance.{known_names, reported, signature_found, feature_signature}

-- the status in a report that a route returns
abbrev pub answered_status : Response Fields → Option Json
answered_status (ok d) = get_field (codes "status") d
answered_status (http_error code detail) = none
answered_status server_error = none

module _ {fl : Floats} {W : Type 0} (app : App fl W) (tools : Tools W) (settings : Settings)
    (model_dump : Manifest → Fields) where
  open fl use {Float}

  -- the feature that the catalogue has, which it lists too, and whose own bundle is verified
  pub record HasProvenance (name : Text) (s : State Float W) : Type 0 where
    pub feature : Feature
    pub known : app.catalog.get name s.world ≡ some feature
    pub listed : Memᴰ feature.manifest.name (known_names (app.catalog.list none none s.world))
    pub verified :
        IsVerified tools settings
          (model_dump feature.manifest)
          (some (bundle_path tools settings feature.manifest.name))
          s.world

  status-reported : (o : Option Fields) → answered_status (reported o) ≡ status tools settings o
  status-reported none = refl
  status-reported (some d) = refl

  -- by the bundle that the name resolves to
  bundle_iff :
      (f : Feature) (bundle : Option Text) (s : State Float W)
      → resolve_bundle tools settings f.manifest.name
          (known_names (app.catalog.list none none s.world))
        ≡ bundle
      → IsVerified tools settings (model_dump f.manifest) bundle s.world
      → Memᴰ f.manifest.name (known_names (app.catalog.list none none s.world))
        × IsVerified tools settings
            (model_dump f.manifest)
            (some (bundle_path tools settings f.manifest.name))
            s.world
  bundle_iff f none s e v = absurd (ground (arith, v.given))
  bundle_iff f (some p) s e v =
      let (listed, path) = (resolve_bundle-some_iff tools settings f.manifest.name _ p).0 e in
      (
        listed,
        subst (λ q. IsVerified tools settings (model_dump f.manifest) (some q) s.world) path v,
      )

  bundle-IsVerified :
      (g f : Feature) (s : State Float W)
      → g ≡ f
      → Memᴰ g.manifest.name (known_names (app.catalog.list none none s.world))
      → IsVerified tools settings
          (model_dump g.manifest)
          (some (bundle_path tools settings g.manifest.name))
          s.world
      → IsVerified tools settings
          (model_dump f.manifest)
          (resolve_bundle tools settings f.manifest.name
            (known_names (app.catalog.list none none s.world)))
          s.world
  bundle-IsVerified g f s e listed v =
      let known = known_names (app.catalog.list none none s.world) in
      subst
        (λ (f : Feature).
          IsVerified tools settings (model_dump f.manifest)
            (resolve_bundle tools settings f.manifest.name known) s.world)
        e
        (subst (λ b. IsVerified tools settings (model_dump g.manifest) b s.world)
          (sym ((resolve_bundle-some_iff tools settings g.manifest.name known _).1 (listed, refl)))
          v)

  found_iff :
      (o : Option Feature) (name : Text) (s : State Float W)
      → app.catalog.get name s.world ≡ o
      → (answered_status (signature_found app tools settings model_dump o name s).0
          ≡ some (str (codes "verified")))
        ↔ HasProvenance name s
  found_iff none name s e = (λ h. absurd (ground arith), λ p. absurd (ground (arith, e, p.known)))
  found_iff (some f) name s e =
      let known = known_names (app.catalog.list none none s.world) in
      let bundle = resolve_bundle tools settings f.manifest.name known in
      let verified_iff =
        verify-IsVerified_iff tools settings f.manifest.name (model_dump f.manifest) bundle
          s.world in
      let report =
        (verify tools settings f.manifest.name (model_dump f.manifest) bundle s.world).0 in
      (
        λ h.
            let (listed, v) =
              bundle_iff f bundle s refl (verified_iff.0 (sym (status-reported report) ∙ h)) in
            record { feature = f; known = e; listed = listed; verified = v },
        λ p.
            let same : p.feature ≡ f = ground (arith, e, p.known) in
            status-reported report
            ∙ verified_iff.1 (bundle-IsVerified p.feature f s same p.listed p.verified),
      )

  -- The route of a name reports a verified signature exactly if the catalogue has a feature for the
  -- name and lists the feature's own name, and the bundle in the directory of signatures under that
  -- name is verified on the feature's manifest.
  pub feature_signature-HasProvenance_iff :
      (name : Text) (s : State Float W)
      → (answered_status (feature_signature app tools settings model_dump name s).0
          ≡ some (str (codes "verified")))
        ↔ HasProvenance name s
  unfolding feature_signature
  feature_signature-HasProvenance_iff name s = found_iff (app.catalog.get name s.world) name s refl
