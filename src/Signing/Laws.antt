-- ===== src/Signing/Laws.antt =====
-- Which bundle a feature has, and when its signature counts as verified.
use mathlib.Core.Option
use agent_features.Common.{
  zero, suc, ◌≡◌, ◌≢◌, ◌↔◌, refl, sym, subst, ap, ap₂, ◌∙◌, inl, inr, Option, none, some, List, [],
  ◌∷◌, Bool, true, false, arith, if◌then◌else◌, Bool-cases,
}
use mathlib.Core.List.{Memᴰ}
use agent_features.Common.Text.{Text, codes, ◌==◌, mem}
use agent_features.Common.Text.Laws.{eq_iff, mem_iff}
use agent_features.Common.Dict.{Dict, get, put, get-put}
use agent_features.Common.Json.{Json, str, Fields, get_field}
use agent_features.Signing.{
  Settings, Tools, Ended, exited, signalled, not_run, raised, canonical_bytes, cosign_available,
  bundle_path, allow, resolve_bundle, argv, ended_rest, removed, verify_blob, verify_present,
  verify, report, command_line,
}
use agent_features.Signing.Command.{expected_args, argv_expected}

module _ {W : Type 0} (tools : Tools W) (settings : Settings) where
  get-allow :
      (name : Text) (allowed : Dict Text) (known : List Text)
      → get name (allow tools settings allowed known)
        ≡ (if mem name known then some (bundle_path tools settings name) else get name allowed)
  unfolding allow
  get-allow name allowed [] = refl
  get-allow name allowed (n ∷ known) =
      get-allow name (put n (bundle_path tools settings n) allowed) known
      ∙ elim (Bool-cases (n == name)) [
        | inl same ↦
            let e = (eq_iff n name).0 same in
            ground (
              arith,
              same,
              ap (bundle_path tools settings) e,
              get-put n name (bundle_path tools settings n) allowed,
            )
        | inr other ↦ ground (arith, other, get-put n name (bundle_path tools settings n) allowed)
      ]

  -- The bundle of a name is found exactly if the name is one of the known names, and then its path
  -- is made of the known name and the directory of the signatures alone.
  pub resolve_bundle-some_iff :
      (name : Text) (known : List Text) (p : Text)
      → (resolve_bundle tools settings name known ≡ some p)
        ↔ (Memᴰ name known × (p ≡ bundle_path tools settings name))
  unfolding resolve_bundle
  resolve_bundle-some_iff name known p =
      let found : get name (allow tools settings [] known)
          ≡ (if mem name known then some (bundle_path tools settings name) else none) =
        get-allow name [] known ∙ no_entry in
      let known_iff = mem_iff name known in
      (
        λ e. by_mem (mem name known) refl (sym found ∙ e),
        λ (m, h).
            found
            ∙ subst (λ b. (if b then some (bundle_path tools settings name) else none) ≡ some p)
                (sym (known_iff.1 m)) (ap some (sym h)),
      )
    where
      no_entry :
          (if mem name known then some (bundle_path tools settings name) else get name [])
          ≡ (if mem name known then some (bundle_path tools settings name) else none)
      no_entry =
          ap (λ o. if mem name known then some (bundle_path tools settings name) else o) nothing
        where
          nothing : get {V = Text} name [] ≡ none
          nothing = unfold get in refl

      by_mem :
          (b : Bool)
          → mem name known ≡ b
          → (if b then some (bundle_path tools settings name) else none) ≡ some p
          → Memᴰ name known × (p ≡ bundle_path tools settings name)
      by_mem true m e = ((mem_iff name known).0 m, ground arith)
      by_mem false m e = absurd (ground arith)

  -- the process has run on the manifest's bytes, and has succeeded
  pub record IsVerified (manifest : Fields) (bundle : Option Text) (w : W) : Type 0 where
    pub path : Text
    pub given : bundle ≡ some path
    pub not_empty : path ≢ []
    pub present : tools.exists path w ≡ true
    pub available : cosign_available tools w ≡ true
    pub blob : Text
    pub written : (tools.write_temp (canonical_bytes tools manifest) w).0 ≡ some blob
    pub accepted :
        (tools.run
          (expected_args tools settings path blob)
          (tools.write_temp (canonical_bytes tools manifest) w).1).0
        ≡ exited 0
    pub cleaned :
        (tools.unlink blob
          (tools.run
            (expected_args tools settings path blob)
            (tools.write_temp (canonical_bytes tools manifest) w).1).1).0
        ≡ true

  -- the status that a report shows
  abbrev pub status : Option Fields → Option Json
  status none = none
  status (some d) = get_field (codes "status") d

  module _ (feature : Text) (manifest : Fields) (path : Text) (w : W) (filled : path ≢ []) where
    accepted_status :
        (e : Ended) (gone : Bool)
        → status (
            removed tools settings gone (
              Option.map
                (report tools settings feature manifest (command_line tools settings path))
                (ended_rest tools settings e)))
          ≡ some (str (codes "verified"))
        → (e ≡ exited 0) × (gone ≡ true)
    unfolding get_field
    accepted_status e false h = absurd (ground arith)
    accepted_status (exited zero) true h = (refl, refl)
    accepted_status (exited (suc n)) true h = absurd (ground arith)
    accepted_status (signalled n) true h = absurd (ground arith)
    accepted_status not_run true h = absurd (ground arith)
    accepted_status raised true h = absurd (ground arith)

    status_accepted :
        (e : Ended) (gone : Bool)
        → e ≡ exited 0
        → gone ≡ true
        → status (
            removed tools settings gone (
              Option.map
                (report tools settings feature manifest (command_line tools settings path))
                (ended_rest tools settings e)))
          ≡ some (str (codes "verified"))
    unfolding get_field
    status_accepted e gone ran cleaned = rw (ran, cleaned) refl

    -- what `verify` does, where everything that is written names this path
    same_path : (v : IsVerified manifest (some path) w) → v.path ≡ path
    same_path v = ground (arith, v.given)

    -- by whether the file could be written
    blob_iff :
        (o : Option Text)
        → (tools.write_temp (canonical_bytes tools manifest) w).0 ≡ o
        → tools.exists path w ≡ true
        → cosign_available tools w ≡ true
        → (status
              (verify_blob tools settings o feature manifest path
                (tools.write_temp (canonical_bytes tools manifest) w).1).0
            ≡ some (str (codes "verified")))
          ↔ IsVerified manifest (some path) w
    blob_iff none e there cosign =
        (λ h. absurd (ground arith), λ v. absurd (ground (arith, e, v.written)))
    blob_iff (some blob) e there cosign = (
      λ h.
          let w₁ = (tools.write_temp (canonical_bytes tools manifest) w).1 in
          let (ran, gone) = accepted_status _ _ h in
          record {
            path = path;
            given = refl;
            not_empty = filled;
            present = there;
            available = cosign;
            blob = blob;
            written = e;
            accepted =
                subst (λ a. (tools.run a w₁).0 ≡ exited 0) (argv_expected tools settings path blob)
                  ran;
            cleaned =
                subst (λ a. (tools.unlink blob (tools.run a w₁).1).0 ≡ true)
                  (argv_expected tools settings path blob) gone;
          },
      λ v.
          let w₁ = (tools.write_temp (canonical_bytes tools manifest) w).1 in
          let blobs : v.blob ≡ blob = ground (arith, e, v.written) in
          let args : expected_args tools settings v.path v.blob ≡ argv tools settings path blob =
            ap₂ (expected_args tools settings) (same_path v) blobs
            ∙ sym (argv_expected tools settings path blob) in
          let ran = subst (λ a. (tools.run a w₁).0 ≡ exited 0) args v.accepted in
          let gone : (tools.unlink blob (tools.run (argv tools settings path blob) w₁).1).0 ≡ true =
            subst (λ b. (tools.unlink b (tools.run (argv tools settings path blob) w₁).1).0 ≡ true)
              blobs
              (subst (λ a. (tools.unlink v.blob (tools.run a w₁).1).0 ≡ true) args v.cleaned) in
          status_accepted _ _ ran gone,
    )

    present_iff :
        (there cosign : Bool)
        → tools.exists path w ≡ there
        → cosign_available tools w ≡ cosign
        → (status (verify_present tools settings there cosign feature manifest path w).0
            ≡ some (str (codes "verified")))
          ↔ IsVerified manifest (some path) w
    unfolding get_field
    present_iff false cosign e c =
        (λ h. absurd (ground arith), λ v. absurd (ground (arith, e, v.present, same_path v)))
    present_iff true false e c =
        (λ h. absurd (ground arith), λ v. absurd (ground (arith, c, v.available)))
    present_iff true true e c =
        blob_iff (tools.write_temp (canonical_bytes tools manifest) w).0 refl e c

  -- A report says `verified` exactly if a bundle is given that is there, `cosign` is there, it has
  -- run on the bundle and on a new file with the manifest's canonical bytes, with the issuer and, if
  -- one is set, the identity of the settings, it has exited with 0, and the file has been removed.
  pub verify-IsVerified_iff :
      (feature : Text) (manifest : Fields) (bundle : Option Text) (w : W)
      → (status (verify tools settings feature manifest bundle w).0 ≡ some (str (codes "verified")))
        ↔ IsVerified manifest bundle w
  unfolding verify get_field
  verify-IsVerified_iff feature manifest none w =
      (λ h. absurd (ground arith), λ v. absurd (ground (arith, v.given)))
  verify-IsVerified_iff feature manifest (some []) w =
      (λ h. absurd (ground arith), λ v. absurd (v.not_empty (ground (arith, v.given))))
  verify-IsVerified_iff feature manifest (some (c ∷ s)) w =
      present_iff feature manifest (c ∷ s) w (λ e. ground arith) (tools.exists (c ∷ s) w)
        (cosign_available tools w) refl refl
