-- ===== src/Catalog/Memory.antt =====
-- `InMemoryCatalog` of gateway/catalog.py.
pub mod Laws
use agent_features.Common.{Option, none, some, List, [], ◌∷◌, ◌++◌}
use agent_features.Common.Text.{Text, codes}
use agent_features.Common.Dict
use agent_features.Common.Dict.{Dict, put, values}
use agent_features.Models.{Manifest, Feature, CapabilitySummary, ready}
use agent_features.Catalog.Rank.{resolve_feature}
use agent_features.Catalog.Summary.{summarize_capabilities}
use agent_features.Catalog.Browse.{browse}

pub record InMemoryCatalog : Type 0 where
  pub features : Dict Feature

-- Feature(manifest=m, endpoint=f"local://{m.name}")
abbrev pub local_feature : Manifest → Feature
local_feature m = record {
  manifest = m;
  phase = ready;
  endpoint = some (codes "local://" ++ m.name);
}

-- the dictionary comprehension of `__init__`
unfoldable pub register : Dict Feature → List Manifest → Dict Feature
register d [] = d
register d (m ∷ ms) = register (put m.name (local_feature m) d) ms

unfoldable pub init : List Manifest → InMemoryCatalog
unfolding register
init manifests = record { features = register [] manifests }

unfoldable pub list : InMemoryCatalog → (query : Option Text) → Option (List Text) → List Feature
unfolding browse
list c query tags = browse (values c.features) query tags

unfoldable pub get : InMemoryCatalog → Text → Option Feature
get c name = Dict.get name c.features

unfoldable pub list_capabilities : InMemoryCatalog → Option (List CapabilitySummary)
list_capabilities c = summarize_capabilities (values c.features)

unfoldable pub resolve : InMemoryCatalog → Text → (version vendor : Option Text) → Option Feature
resolve c capability version vendor = resolve_feature (values c.features) capability version vendor
