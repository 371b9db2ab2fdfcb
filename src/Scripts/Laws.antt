-- ===== src/Scripts/Laws.antt =====
-- What the exported files hold.
use agent_features.Common.{
  ◌≡◌, ◌≢◌, refl, sym, subst, ap, ◌∙◌, ◌⊎◌, inl, inr, Option, some, List, [], ◌∷◌, ◌++◌, map, Bool,
  true, false, All, Pairs, Bool-cases,
}
use agent_features.Common.Text.{Text, codes}
use agent_features.Common.Json.{Fields}
use agent_features.Models.{Manifest, Feature}
use agent_features.Signing.{Tools, canonical_bytes}
use agent_features.Scripts.{Printed, path_of, wrote, export}

module _ {W : Type 0} (tools : Tools W) (write_file : (path content : Text) → W → Bool × W)
    (model_dump : Manifest → Fields) (read_file : Text → W → Option Text) (out_dir : Text) where
  abbrev path : Feature → Text
  path = path_of tools out_dir

  -- the file of a feature holds the canonical bytes of its manifest
  abbrev pub Holds : W → Feature → Type 0
  Holds w f = read_file (path f) w ≡ some (canonical_bytes tools (model_dump f.manifest))

  -- all files are written, each with its line; or a file could not be written
  abbrev pub Exported : List Feature → Printed × W → Type 0
  Exported fs ((lines, ended), w) =
      ((ended ≡ true) × (lines ≡ map (λ f. codes "wrote " ++ path f) fs) × All (Holds w) fs)
      ⊎ ((ended ≡ false)
          × ((f : Feature) × (w' : W) × ((write_file (path f)
                  (canonical_bytes tools (model_dump f.manifest)) w').0
                ≡ false)))

  one_more :
      (f : Feature) (fs : List Feature) (w : W) (p : Printed × W)
      → Holds p.1 f
      → Exported fs p
      → Exported (f ∷ fs) (wrote true (path f) w p)
  one_more f fs w p holds (inl (ended, lines, files)) =
      inl (ended, ap (λ l. (codes "wrote " ++ path f) ∷ l) lines, (holds, files))
  one_more f fs w p holds (inr failed) = inr failed

  module _
      (writes : (p content : Text) (w : W)
        → (write_file p content w).0 ≡ true
        → read_file p (write_file p content w).1 ≡ some content)
      (keeps : (p q content : Text) (w : W)
        → p ≢ q
        → read_file q (write_file p content w).1 ≡ read_file q w) where
    -- the files that the loop does not write stay as they are
    export-keeps :
        (q : Text) (fs : List Feature) (w : W)
        → All (λ f. path f ≢ q) fs
        → read_file q (export tools write_file model_dump out_dir fs w).1 ≡ read_file q w
    unfolding export
    export-keeps q [] w h = refl
    export-keeps q (f ∷ fs) w h =
        let content = canonical_bytes tools (model_dump f.manifest) in
        let kept = keeps (path f) q content w h.0 in
        elim (Bool-cases (write_file (path f) content w).0) [
          | inl e ↦ rw e (export-keeps q fs (write_file (path f) content w).1 h.1 ∙ kept)
          | inr e ↦ rw e kept
        ]

    -- Where a file that has been written is read as it was written, and the writing of a file changes
    -- no other: the export of features whose files have different paths writes the canonical bytes
    -- of each manifest to the feature's file, prints a line for each, and leaves all those files so;
    -- or it ends with an exception, and a file could not be written.
    pub export-Exported :
        (fs : List Feature) (w : W)
        → Pairs (λ f g. path g ≢ path f) fs
        → Exported fs (export tools write_file model_dump out_dir fs w)
    unfolding export
    export-Exported [] w h = inl (refl, refl, tt)
    export-Exported (f ∷ fs) w h =
        let content = canonical_bytes tools (model_dump f.manifest) in
        let w' = (write_file (path f) content w).1 in
        let rest = export tools write_file model_dump out_dir fs w' in
        let told : Bool → Type 0 = λ b. Exported (f ∷ fs) (wrote b (path f) w' rest) in
        elim (Bool-cases (write_file (path f) content w).0) [
          | inl e ↦ subst told (sym e) (
              one_more f fs w' rest (export-keeps (path f) fs w' h.0 ∙ writes (path f) content w e)
                (export-Exported fs w' h.1))
          | inr e ↦ subst told (sym e) (inr (refl, (f, w, e)))
        ]
