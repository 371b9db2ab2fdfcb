-- ===== src/Signing.antt =====
-- gateway/signing.py. JSON, hashing, paths, files and processes are libraries: `Tools` has what is
-- called of them, and `Settings` the values that are read from the environment.
pub mod Command
pub mod Laws
use mathlib.Core.Option
use agent_features.Common.{
  is_some, ℕ, zero, suc, Option, none, some, List, [], ◌∷◌, ◌++◌, Bool, true, false, if◌then◌else◌,
}
use agent_features.Common.Text.{Text, codes, truthy}
use agent_features.Common.Dict.{Dict, get, put}
use agent_features.Common.Json.{bool, str, Fields, end, field}

pub record Settings : Type 0 where
  pub signatures_dir : Text
  pub signing_identity : Text
  pub signing_oidc_issuer : Text

-- How a process ends: with an exit code, by a signal, with an OSError or a SubprocessError, or with
-- another exception.
pub data Ended : Type 0 where
  exited : ℕ → Ended
  signalled : ℕ → Ended
  not_run : Ended
  raised : Ended

pub record Tools (W : Type 0) : Type 0 where
  -- json.dumps(manifest, sort_keys=True, separators=(",", ":")), which is ASCII
  pub dumps : Fields → Text
  pub sha256 : Text → Text
  -- os.path.join
  pub join_path : Text → Text → Text
  pub exists : Text → W → Bool
  -- shutil.which
  pub which : Text → W → Option Text
  -- a new temporary file with this content: its name, or none where that raises
  pub write_temp : Text → W → Option Text × W
  pub run : List Text → W → Ended × W
  -- whether the file could be removed
  pub unlink : Text → W → Bool × W

module _ {W : Type 0} (tools : Tools W) where
  unfoldable pub canonical_bytes : Fields → Text
  canonical_bytes manifest = tools.dumps manifest

  unfoldable pub manifest_digest : Fields → Text
  unfolding canonical_bytes
  manifest_digest manifest = codes "sha256:" ++ tools.sha256 (canonical_bytes manifest)

  unfoldable pub cosign_available : W → Bool
  cosign_available w = is_some (tools.which (codes "cosign") w)

  module _ (settings : Settings) where
    abbrev pub bundle_path : Text → Text
    bundle_path n = tools.join_path settings.signatures_dir (n ++ codes ".bundle")

    -- the dictionary comprehension of `resolve_bundle`
    unfoldable pub allow : Dict Text → List Text → Dict Text
    allow allowed [] = allowed
    allow allowed (n ∷ known) = allow (put n (bundle_path n) allowed) known

    unfoldable pub resolve_bundle : Text → (known_names : List Text) → Option Text
    unfolding allow
    resolve_bundle name known_names = get name (allow [] known_names)

    -- {**base, **rest}
    abbrev pub report : Text → Fields → (command : Text) → (rest : Fields) → Fields
    report feature manifest command rest = field (codes "feature") (str feature) (
        field (codes "digest") (str (manifest_digest manifest)) (
          field (codes "algorithm") (str (codes "sha256")) (
            field (codes "issuer") (str settings.signing_oidc_issuer)
              (field (codes "command") (str command) rest))))

    abbrev pub signed_status : Bool → Text → Fields → Fields
    signed_status signed status rest =
        field (codes "signed") (bool signed) (field (codes "status") (str status) rest)

    abbrev pub reason : Text → Fields
    reason r = field (codes "reason") (str r) end

    abbrev pub or_expected : Text → Text
    or_expected [] = codes "<expected-identity>"
    or_expected (c ∷ s) = c ∷ s

    abbrev pub command_line : Text → Text
    command_line bundle =
        codes "cosign verify-blob --bundle "
        ++ bundle
        ++ codes " --certificate-identity "
        ++ or_expected settings.signing_identity
        ++ codes " --certificate-oidc-issuer "
        ++ settings.signing_oidc_issuer
        ++ codes " <manifest.json>"

    abbrev pub identity_args : Text → List Text
    identity_args [] = []
    identity_args (c ∷ s) = codes "--certificate-identity" ∷ (c ∷ s) ∷ []

    abbrev pub argv : (bundle blob : Text) → List Text
    argv bundle blob =
        (codes "cosign"
          ∷ codes "verify-blob"
          ∷ codes "--bundle"
          ∷ bundle
          ∷ codes "--certificate-oidc-issuer"
          ∷ settings.signing_oidc_issuer
          ∷ [])
        ++ (identity_args settings.signing_identity ++ blob ∷ [])

    -- none where the exception goes through
    abbrev pub ended_rest : Ended → Option Fields
    ended_rest (exited zero) = some (signed_status true (codes "verified") end)
    ended_rest (exited (suc n)) = some (signed_status true (codes "failed") end)
    ended_rest (signalled n) = some (signed_status true (codes "failed") end)
    ended_rest not_run = some (
        signed_status true (codes "unverified")
          (reason (codes "cosign verification could not run")))
    ended_rest raised = none

    -- an error of the removal in `finally` goes through
    abbrev pub removed : Bool → Option Fields → Option Fields
    removed true d = d
    removed false d = none

    -- with the blob written, or none where that raises
    abbrev pub verify_blob : Option Text → Text → Fields → Text → W → Option Fields × W
    verify_blob none feature manifest bundle w = (none, w)
    verify_blob (some blob) feature manifest bundle w =
        let (ended, w₁) = tools.run (argv bundle blob) w in
        let (gone, w₂) = tools.unlink blob w₁ in
        (
          removed gone
              (Option.map (report feature manifest (command_line bundle)) (ended_rest ended)),
          w₂,
        )

    -- by whether the bundle exists, and cosign is there
    abbrev pub verify_present : (there cosign : Bool) → Text → Fields → Text → W → Option Fields × W
    verify_present false cosign feature manifest bundle w = (
      some (
          report feature manifest (command_line bundle)
            (signed_status false (codes "unsigned") end)),
      w,
    )
    verify_present true false feature manifest bundle w = (
      some (
          report feature manifest (command_line bundle) (
            signed_status true (codes "unverified")
              (reason (codes "cosign is not available in this environment")))),
      w,
    )
    verify_present true true feature manifest bundle w =
        let (blob, w') = tools.write_temp (canonical_bytes manifest) w in
        verify_blob blob feature manifest bundle w'

    abbrev unsigned : Text → Fields → W → Option Fields × W
    unsigned feature manifest w =
        (some (report feature manifest [] (signed_status false (codes "unsigned") end)), w)

    -- None where an exception goes through.
    unfoldable pub verify : Text → Fields → (bundle : Option Text) → W → Option Fields × W
    unfolding cosign_available manifest_digest
    verify feature manifest none w = unsigned feature manifest w
    verify feature manifest (some []) w = unsigned feature manifest w
    verify feature manifest (some (c ∷ s)) w =
        verify_present (tools.exists (c ∷ s) w) (cosign_available w) feature manifest (c ∷ s) w
