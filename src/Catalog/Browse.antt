-- ===== src/Catalog/Browse.antt =====
-- The filters that both catalogs of gateway/catalog.py put on `list`.
pub mod Laws
use agent_features.Common.{
  ◌≡◌, refl, Option, none, some, List, [], ◌∷◌, map, Bool, true, ◌&&◌, ◌||◌, all, any, keep,
  if◌then◌else◌, All, keep-All,
}
use mathlib.Core.List.{Perm}
use agent_features.Common.Text.{Text, ◌==◌, contains, lower, mem, text_order}
use agent_features.Common.Order.{WeakOrder, by}
use agent_features.Common.Sort.{sorted, IsSorted, sorted-perm, sorted-IsSorted}
use agent_features.Models.{Feature}

-- wanted.issubset(set(f.manifest.tags))
abbrev pub has_tags : List Text → Feature → Bool
has_tags wanted f = all (λ t. mem t f.manifest.tags) wanted

-- `q` is the query in lower case
abbrev pub mentions : Text → Feature → Bool
mentions q f =
    contains q (lower f.manifest.name)
    || (contains q (lower f.manifest.description)
        || any (λ t. contains q (lower t)) f.manifest.tags)

-- the tag filter, passed over where there is no tag
abbrev pub by_tags : Option (List Text) → List Feature → List Feature
by_tags none fs = fs
by_tags (some []) fs = fs
by_tags (some (t ∷ ts)) fs = keep (has_tags (t ∷ ts)) fs

-- the text filter, passed over where the query is None or empty
abbrev pub by_query : Option Text → List Feature → List Feature
by_query none fs = fs
by_query (some []) fs = fs
by_query (some (c ∷ s)) fs = keep (mentions (lower (c ∷ s))) fs

abbrev pub name_order : WeakOrder Feature
name_order = by (λ f. f.manifest.name) text_order

unfoldable pub browse : List Feature → (query : Option Text) → Option (List Text) → List Feature
browse results query tags = sorted name_order.lt (by_query query (by_tags tags results))
