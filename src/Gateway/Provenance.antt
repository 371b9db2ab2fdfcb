-- ===== src/Gateway/Provenance.antt =====
-- gateway/main.py: the route of a feature's signature. `model_dump` is a manifest as pydantic writes
-- it.
pub mod Laws
use agent_features.Common.{Option, none, some, List, map, ◌++◌}
use agent_features.Common.Text.{Text, codes}
use agent_features.Common.Json.{Fields}
use agent_features.Common.Floats.{Floats}
use agent_features.Models.{Manifest, Feature}
use agent_features.Signing.{Settings, Tools, resolve_bundle, verify}
use agent_features.Gateway.{App, State, Response, ok, http_error, server_error, text}

-- the names that a catalogue lists
abbrev pub known_names : List Feature → List Text
known_names = map (λ f. f.manifest.name)

abbrev pub reported : Option Fields → Response Fields
reported none = server_error
reported (some d) = ok d

module _ {fl : Floats} {W : Type 0} (app : App fl W) (tools : Tools W) (settings : Settings)
    (model_dump : Manifest → Fields) where
  open fl use {Float}

  abbrev pub signature_found :
      Option Feature → Text → State Float W → Response Fields × State Float W
  signature_found none name s = (http_error 404 (text (codes "unknown feature: " ++ name)), s)
  signature_found (some f) name s =
      let known = known_names (app.catalog.list none none s.world) in
      let bundle = resolve_bundle tools settings f.manifest.name known in
      let (report, w') =
        verify tools settings f.manifest.name (model_dump f.manifest) bundle s.world in
      (reported report, record s { world = w' })

  unfoldable pub feature_signature : Text → State Float W → Response Fields × State Float W
  unfolding resolve_bundle verify
  feature_signature name s = signature_found (app.catalog.get name s.world) name s
