-- ===== src/Catalog/Cluster.antt =====
-- `KubernetesCatalog` of gateway/catalog.py. The Kubernetes client is a library: its two calls are
-- parameters, which may read the state of the cluster. None stands for an exception.
pub mod Laws
use agent_features.Common.{
  Option, none, some, List, [], ◌∷◌, map, Bool, true, false, eqb, if◌then◌else◌, traverse, ◌>>=◌, ℕ,
}
use agent_features.Common.Text.{Text, codes}
use agent_features.Common.Json.{Json, str, arr, obj, Fields, end, Items, nil, items, get_or}
use agent_features.Models.{Feature, CapabilitySummary}
use agent_features.Catalog.Rank.{resolve_feature}
use agent_features.Catalog.Summary.{summarize_capabilities}
use agent_features.Catalog.Browse.{browse}
use agent_features.Catalog.Custom.{as_object, feature_from_cr}

-- an object, the status of an ApiException, or another exception
pub data Fetched : Type 0 where
  found : Fields → Fetched
  api_exception : (status : ℕ) → Fetched
  unreachable : Fetched

-- the calls of CustomObjectsApi: group, version, namespace and plural, and a name
pub record Api (W : Type 0) : Type 0 where
  pub list_namespaced_custom_object : (group version namespace plural : Text) → W → Option Fields
  pub get_namespaced_custom_object :
      (group version namespace plural : Text) → (name : Text) → W → Fetched

pub record KubernetesCatalog : Type 0 where
  pub namespace : Text

abbrev pub group : Text
group = codes "agentfeatures.io"

abbrev pub version : Text
version = codes "v1alpha1"

abbrev pub plural : Text
plural = codes "features"

-- the values of a loop; that over a non-empty text or dictionary gives texts, which are no resources
abbrev pub elements : Json → Option (List Json)
elements (arr vs) = some (items vs)
elements (obj end) = some []
elements (str []) = some []
elements v = none

module _ (loads : Text → Option Json) where
  abbrev pub feature_of : Json → Option Feature
  feature_of v = do cr ← as_object v; feature_from_cr loads cr

  abbrev pub read : Fetched → Option (Option Feature)
  read (found cr) = do f ← feature_from_cr loads cr; some (some f)
  read (api_exception status) = if eqb status 404 then some none else none
  read unreachable = none

  module _ {W : Type 0} (api : Api W) (c : KubernetesCatalog) where
    unfoldable pub list : (query : Option Text) → Option (List Text) → W → Option (List Feature)
    unfolding browse get_or feature_from_cr
    list query tags w = do
      resp ← api.list_namespaced_custom_object group version c.namespace plural w
      values ← elements (get_or (codes "items") (arr nil) resp)
      features ← traverse feature_of values
      some (browse features query tags)

    unfoldable pub get : Text → W → Option (Option Feature)
    unfolding feature_from_cr
    get name w = read (api.get_namespaced_custom_object group version c.namespace plural name w)

    unfoldable pub list_capabilities : W → Option (List CapabilitySummary)
    unfolding list
    list_capabilities w = do fs ← list none none w; summarize_capabilities fs

    unfoldable pub resolve : Text → (version vendor : Option Text) → W → Option (Option Feature)
    unfolding list
    resolve capability version vendor w = do
      fs ← list none none w
      some (resolve_feature fs capability version vendor)
