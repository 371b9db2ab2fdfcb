-- ===== src/Catalog/Cluster/Laws.antt =====
-- A cluster that holds features, as its catalogue shows them.
use agent_features.Common.{
  ◌≡◌, refl, ap, ◌∙◌, Option, none, some, List, [], ◌∷◌, map, if◌then◌else◌, traverse, traverse-map,
  ◌>>=◌,
}
use mathlib.Core.Option
use agent_features.Common.Text.{Text, codes, ◌==◌}
use agent_features.Common.Json.{Json, arr, obj, Fields, end, field, items, arr_of}
use agent_features.Models.{Feature}
use agent_features.Catalog.Rank.{resolve_feature}
use agent_features.Catalog.Summary.{summarize_capabilities}
use agent_features.Catalog.Browse.{browse}
use agent_features.Catalog.Custom.RoundTrip.{cr_of, restored, feature_from_cr-cr_of}
use agent_features.Catalog.Cluster.{
  Fetched, found, api_exception, Api, KubernetesCatalog, group, version, plural, feature_of, read,
  list, get, list_capabilities, resolve,
}

abbrev pub named : Text → List Feature → Option Feature
named name [] = none
named name (f ∷ fs) = if f.manifest.name == name then some f else named name fs

abbrev pub answer : (Fields → Text) → Option Feature → Fetched
answer dumps none = api_exception 404
answer dumps (some f) = found (cr_of dumps f)

module _ (loads : Text → Option Json) (dumps : Fields → Text)
    (loads-dumps : (d : Fields) → loads (dumps d) ≡ some (obj d)) (loads-nil : loads [] ≡ none)
    {W : Type 0} (api : Api W) (c : KubernetesCatalog) where
  -- the API answers for the resources of these features: with all of them, with the one of a name,
  -- or with status 404
  pub record Holds (fs : List Feature) (w : W) : Type 0 where
    pub listed :
        api.list_namespaced_custom_object group version c.namespace plural w
        ≡ some (field (codes "items") (arr (arr_of (map (λ f. obj (cr_of dumps f)) fs))) end)
    pub fetched :
        (name : Text)
        → api.get_namespaced_custom_object group version c.namespace plural name w
          ≡ answer dumps (named name fs)

  items-arr_of : (vs : List Json) → items (arr_of vs) ≡ vs
  items-arr_of [] = refl
  items-arr_of (v ∷ vs) = ap (λ l. v ∷ l) (items-arr_of vs)

  traverse-cr_of :
      (fs : List Feature)
      → traverse (feature_of loads) (map (λ f. obj (cr_of dumps f)) fs) ≡ some (map restored fs)
  traverse-cr_of =
      traverse-map (feature_of loads) (λ f. obj (cr_of dumps f)) restored
        (feature_from_cr-cr_of loads dumps loads-dumps loads-nil)

  read-answer : (o : Option Feature) → read loads (answer dumps o) ≡ some (Option.map restored o)
  read-answer none = refl
  read-answer (some f) = rw (feature_from_cr-cr_of loads dumps loads-dumps loads-nil f) refl

  list-Holds :
      (fs : List Feature) (w : W) (query : Option Text) (tags : Option (List Text))
      → Holds fs w
      → list loads api c query tags w ≡ some (browse (map restored fs) query tags)
  unfolding list
  list-Holds fs w query tags h =
      rw h.listed
        (rw (items-arr_of (map (λ f. obj (cr_of dumps f)) fs)) (rw (traverse-cr_of fs) refl))

  get-Holds :
      (fs : List Feature) (w : W) (name : Text)
      → Holds fs w
      → get loads api c name w ≡ some (Option.map restored (named name fs))
  unfolding get
  get-Holds fs w name h = ap (read loads) (h.fetched name) ∙ read-answer (named name fs)

  list_capabilities-Holds :
      (fs : List Feature) (w : W)
      → Holds fs w
      → list_capabilities loads api c w
        ≡ summarize_capabilities (browse (map restored fs) none none)
  unfolding list_capabilities
  list_capabilities-Holds fs w h =
      ap (λ o. o >>= summarize_capabilities) (list-Holds fs w none none h)

  resolve-Holds :
      (fs : List Feature) (w : W) (capability : Text) (version vendor : Option Text)
      → Holds fs w
      → resolve loads api c capability version vendor w
        ≡ some (resolve_feature (browse (map restored fs) none none) capability version vendor)
  unfolding resolve
  resolve-Holds fs w capability version vendor h =
      ap (λ o. o >>= λ l. some (resolve_feature l capability version vendor))
        (list-Holds fs w none none h)

  -- The catalogue of a cluster that holds features lists, finds, summarizes and resolves what the
  -- same functions give on these features, but that each is restored: its version is 1.0.0, and an
  -- empty capability is its name. Reading raises nothing then, and a name that no feature has is
  -- not found; if `json.loads` reads back what `json.dumps` writes, and refuses the empty text.
  pub get-list_cluster :
      (fs : List Feature) (w : W)
      → Holds fs w
      → ((query : Option Text) (tags : Option (List Text))
          → list loads api c query tags w ≡ some (browse (map restored fs) query tags))
        × ((name : Text) → get loads api c name w ≡ some (Option.map restored (named name fs)))
        × (list_capabilities loads api c w
            ≡ summarize_capabilities (browse (map restored fs) none none))
        × ((capability : Text) (version vendor : Option Text)
            → resolve loads api c capability version vendor w
              ≡ some
                  (resolve_feature (browse (map restored fs) none none) capability version vendor))
  get-list_cluster fs w h = (
    λ query tags. list-Holds fs w query tags h,
    λ name. get-Holds fs w name h,
    list_capabilities-Holds fs w h,
    λ capability version vendor. resolve-Holds fs w capability version vendor h,
  )
