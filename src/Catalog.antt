-- ===== src/Catalog.antt =====
-- gateway/catalog.py: versions, ranking, resolution, summaries, and the two catalogs.
pub mod Version
pub mod Rank
pub mod Summary
pub mod Browse
pub mod Memory
pub mod Custom
pub mod Cluster
use agent_features.Common.{Option, List}
use agent_features.Common.Text.{Text}
use agent_features.Models.{Feature, CapabilitySummary}

-- `Catalog`, as the gateway uses it: its operations may read the state of the world. `list` and
-- `get` return here, as those of InMemoryCatalog do. A gateway whose catalogue raises an exception
-- there is left out, also where this comes between two steps of a composite; Cluster has the
-- exceptions of KubernetesCatalog.
pub record Catalog (W : Type 0) : Type 0 where
  pub list : (query : Option Text) → (tags : Option (List Text)) → W → List Feature
  pub get : Text → W → Option Feature
  pub list_capabilities : W → Option (List CapabilitySummary)
