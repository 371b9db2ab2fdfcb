-- ===== src/Signing/Command.antt =====
-- What `cosign` has to be run with to verify a bundle, and that `verify` runs it so.
use agent_features.Common.{◌≡◌, refl, List, [], ◌∷◌, ◌++◌}
use agent_features.Common.Text.{Text, codes}
use agent_features.Signing.{Settings, Tools, identity_args, argv}

module _ {W : Type 0} (tools : Tools W) (settings : Settings) where
  -- `cosign`'s arguments for a bundle and a file, with the expected issuer and, where one is set,
  -- the expected identity
  abbrev pub command : (identity bundle blob : Text) → List Text
  command [] bundle blob =
      codes "cosign"
      ∷ codes "verify-blob"
      ∷ codes "--bundle"
      ∷ bundle
      ∷ codes "--certificate-oidc-issuer"
      ∷ settings.signing_oidc_issuer
      ∷ blob
      ∷ []
  command (c ∷ s) bundle blob =
      codes "cosign"
      ∷ codes "verify-blob"
      ∷ codes "--bundle"
      ∷ bundle
      ∷ codes "--certificate-oidc-issuer"
      ∷ settings.signing_oidc_issuer
      ∷ codes "--certificate-identity"
      ∷ (c ∷ s)
      ∷ blob
      ∷ []

  -- the arguments that `cosign` must be run with
  abbrev pub expected_args : (bundle blob : Text) → List Text
  expected_args = command settings.signing_identity

  pub argv_expected :
      (bundle blob : Text) → argv tools settings bundle blob ≡ expected_args bundle blob
  argv_expected bundle blob = by_identity settings.signing_identity
    where
      by_identity :
          (i : Text)
          → (codes "cosign"
                ∷ codes "verify-blob"
                ∷ codes "--bundle"
                ∷ bundle
                ∷ codes "--certificate-oidc-issuer"
                ∷ settings.signing_oidc_issuer
                ∷ [])
              ++ (identity_args tools settings i ++ blob ∷ [])
            ≡ command i bundle blob
      by_identity [] = refl
      by_identity (c ∷ s) = refl
