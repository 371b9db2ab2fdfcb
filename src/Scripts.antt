-- ===== src/Scripts.antt =====
-- scripts/export_manifests.py. Folders and files are libraries: whether one could be made or
-- written, with the world behind that.
pub mod Laws
use agent_features.Common.{none, List, [], ◌∷◌, ◌++◌, Bool, true, false}
use agent_features.Common.Text.{Text, codes}
use agent_features.Common.Json.{Json, Fields}
use agent_features.Common.Floats.{Floats}
use agent_features.Models.{Manifest, Feature}
use agent_features.Catalog.Memory.{list}
use agent_features.Signing.{Tools, canonical_bytes}
use agent_features.Samples.Calculator.{Python}
use agent_features.Samples.{Time, build_dev_catalog_and_invoker}

-- the lines that are printed, and whether the program ends without an exception
abbrev pub Printed : Type 0
Printed = List Text × Bool

-- os.path.join(out_dir, f"{feature.manifest.name}.json")
abbrev pub path_of : {W : Type 0} → Tools W → Text → Feature → Text
path_of tools out_dir f = tools.join_path out_dir (f.manifest.name ++ codes ".json")

-- behind the writing of a file; `later` is what the rest of the loop does
abbrev pub wrote : {W : Type 0} → (written : Bool) → Text → W → Printed × W → Printed × W
wrote false path w later = (([], false), w)
wrote true path w ((lines, ended), w') = (((codes "wrote " ++ path) ∷ lines, ended), w')

module _ {W : Type 0} (tools : Tools W) (write_file : (path content : Text) → W → Bool × W)
    (model_dump : Manifest → Fields) where
  -- the loop over the features
  unfoldable pub export : Text → List Feature → W → Printed × W
  unfolding canonical_bytes
  export out_dir [] w = (([], true), w)
  export out_dir (f ∷ fs) w =
      let path = path_of tools out_dir f in
      let (written, w') = write_file path (canonical_bytes tools (model_dump f.manifest)) w in
      wrote written path w' (export out_dir fs w')

  abbrev pub made : Bool → Text → List Feature → W → Printed × W
  made false out_dir fs w = (([], false), w)
  made true out_dir fs w = export out_dir fs w

  unfoldable pub main :
      (makedirs : Text → W → Bool × W) (fl : Floats)
      → (W → fl.Float × W)
      → Python
      → Time W
      → (Json → Text)
      → (out_dir : Text) → W
      → Printed × W
  unfolding export
  main makedirs fl perf_counter py time format out_dir w =
      let (catalog, invoker) = build_dev_catalog_and_invoker fl perf_counter py time format in
      let (there, w') = makedirs out_dir w in made there out_dir (list catalog none none) w'
