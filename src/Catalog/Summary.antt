-- ===== src/Catalog/Summary.antt =====
-- `summarize_capabilities` of gateway/catalog.py.
pub mod Groups
pub mod Laws
use agent_features.Common.{Option, none, some, List, [], ◌∷◌, ◌++◌, map, length, traverse}
use agent_features.Common.Text.{Text, text_order}
use agent_features.Common.Order.{WeakOrder, by}
use agent_features.Common.Dict.{Dict, get, put}
use agent_features.Common.Sort.{sorted}
use agent_features.Models.{Feature, CapabilitySummary}
use agent_features.Catalog.Rank.{rank_features, feature_id}

-- the list that `setdefault(key, [])` gives
abbrev pub or_empty : Option (List Feature) → List Feature
or_empty none = []
or_empty (some g) = g

-- the loop that fills `by_cap`
unfoldable pub group_into : Dict (List Feature) → List Feature → Dict (List Feature)
group_into d [] = d
group_into d (f ∷ fs) =
    let k = f.manifest.capability in group_into (put k (or_empty (get k d) ++ f ∷ []) d) fs

-- `ranked[0]` raises IndexError on an empty list
abbrev pub summary_of : Text → List Feature → Option CapabilitySummary
summary_of capability [] = none
summary_of capability (f ∷ fs) = some (record {
  capability = capability;
  description = f.manifest.description;
  provider_count = length (f ∷ fs);
  vendors = map (λ g. g.manifest.vendor) (f ∷ fs);
  preferred = some (feature_id f);
})

-- No two groups have one name, so the comparison of (name, group) never reaches the groups.
abbrev pub group_order : WeakOrder (Text × List Feature)
group_order = by (λ e. e.0) text_order

unfoldable pub summarize_capabilities : List Feature → Option (List CapabilitySummary)
unfolding group_into
summarize_capabilities features =
    traverse (λ e. summary_of e.0 (rank_features e.1))
      (sorted group_order.lt (group_into [] features))
