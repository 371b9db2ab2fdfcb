-- ===== src/Tests/Signatures.antt =====
-- The checks of signatures with tools of the tests.
use agent_features.Common.{refl, ℕ, ◌+◌, ◌≡◌, ◌↔◌, some, List, [], ◌∷◌, ◌++◌, true}
use mathlib.Core.List.{Memᴰ}
use agent_features.Common.Text.{Text, codes, ◌==◌}
use agent_features.Common.Json.{str, end}
use agent_features.Gateway.Provenance.{feature_signature}
use agent_features.Gateway.Provenance.Laws.{
  answered_status, HasProvenance, feature_signature-HasProvenance_iff,
}
use agent_features.Tests.Data.{program, app, start}
use agent_features.Common.Json.{get_field}
use agent_features.Signing.{Settings, Tools, exited, bundle_path, resolve_bundle, verify}
use agent_features.Signing.Laws.{resolve_bundle-some_iff, IsVerified, status, verify-IsVerified_iff}

abbrev settings : Settings
settings = record {
  signatures_dir = codes "/signatures";
  signing_identity = codes "ci@example.com";
  signing_oidc_issuer = codes "https://issuer.example.com";
}

-- the world counts the processes, and each of them succeeds
abbrev tools : Tools ℕ
tools = record {
  dumps = λ d. codes "{}";
  sha256 = λ s. codes "00";
  join_path = λ a b. a ++ codes "/" ++ b;
  exists = λ p w. p == codes "/signatures/greeter.bundle";
  which = λ name w. some name;
  write_temp = λ s w. (some (codes "/tmp/manifest"), w);
  run = λ argv w. (exited 0, w + 1);
  unlink = λ p w. (true, w);
}

abbrev known : List Text
known = codes "polite" ∷ codes "greeter" ∷ []

resolve_bundle-some_iff_example :
    (resolve_bundle tools settings (codes "greeter") known
      ≡ some (codes "/signatures/greeter.bundle"))
    ↔ (Memᴰ (codes "greeter") known
        × (codes "/signatures/greeter.bundle" ≡ bundle_path tools settings (codes "greeter")))
resolve_bundle-some_iff_example =
    resolve_bundle-some_iff tools settings (codes "greeter") known
      (codes "/signatures/greeter.bundle")

verify-IsVerified_iff_example :
    (status tools settings
        (verify tools settings
          (codes "greeter")
          end
          (some (codes "/signatures/greeter.bundle"))
          0).0
      ≡ some (str (codes "verified")))
    ↔ IsVerified tools settings end (some (codes "/signatures/greeter.bundle")) 0
verify-IsVerified_iff_example =
    verify-IsVerified_iff tools settings (codes "greeter") end
      (some (codes "/signatures/greeter.bundle")) 0

feature_signature-HasProvenance_iff_example :
    (answered_status
        (feature_signature app tools settings (λ m. m.input_schema) (codes "greeter") start).0
      ≡ some (str (codes "verified")))
    ↔ HasProvenance app tools settings (λ m. m.input_schema) (codes "greeter") start
feature_signature-HasProvenance_iff_example =
    feature_signature-HasProvenance_iff app tools settings (λ m. m.input_schema) (codes "greeter")
      start

-- the bundle of the greeter is there, and so it is verified
shows :
    (answered_status
        (feature_signature app tools settings (λ m. m.input_schema) (codes "greeter") start).0
      ≡ some (str (codes "verified")))
    × (answered_status
          (feature_signature app tools settings (λ m. m.input_schema) (codes "polite") start).0
        ≡ some (str (codes "unsigned")))
unfolding feature_signature program get_field
shows = (refl, refl)
