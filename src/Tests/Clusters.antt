-- ===== src/Tests/Clusters.antt =====
-- The catalogue of a cluster that holds the greeters of the tests.
use mathlib.Core.Option
use agent_features.Common.{◌≡◌, refl, Option, none, some, List, map}
use agent_features.Common.Text.{Text, codes}
use agent_features.Common.Json.{arr, obj, end, field, arr_of}
use agent_features.Models.{Feature}
use agent_features.Catalog.Rank.{resolve_feature}
use agent_features.Catalog.Summary.{summarize_capabilities}
use agent_features.Catalog.Browse.{browse}
use agent_features.Catalog.Custom.{feature_from_cr}
use agent_features.Catalog.Custom.RoundTrip.{cr_of, restored, feature_from_cr-cr_of}
use agent_features.Catalog.Cluster.{Api, KubernetesCatalog, list, get, list_capabilities, resolve}
use agent_features.Catalog.Cluster.Laws.{named, answer, Holds, get-list_cluster}
use agent_features.Tests.Codec.{loads, dumps, loads-dumps, loads-nil}
use agent_features.Tests.Data.{greeter, feature_of, greeters}

feature_from_cr-cr_of_example :
    feature_from_cr loads (cr_of dumps (feature_of greeter)) ≡ some (restored (feature_of greeter))
feature_from_cr-cr_of_example =
    feature_from_cr-cr_of loads dumps loads-dumps loads-nil (feature_of greeter)

-- the cluster is the list of its features
abbrev api : Api (List Feature)
api = record {
  list_namespaced_custom_object = λ g v n p w.
      some (field (codes "items") (arr (arr_of (map (λ f. obj (cr_of dumps f)) w))) end);
  get_namespaced_custom_object = λ g v n p name w. answer dumps (named name w);
}

abbrev catalog : KubernetesCatalog
catalog = record { namespace = codes "default" }

abbrev shown : List Feature
shown = map restored greeters

greeters-Holds : Holds loads dumps loads-dumps loads-nil api catalog greeters greeters
greeters-Holds = record { listed = refl; fetched = λ name. refl }

get-list_cluster_example :
    ((query : Option Text) (tags : Option (List Text))
      → list loads api catalog query tags greeters ≡ some (browse shown query tags))
    × ((name : Text)
        → get loads api catalog name greeters ≡ some (Option.map restored (named name greeters)))
    × (list_capabilities loads api catalog greeters
        ≡ summarize_capabilities (browse shown none none))
    × ((capability : Text) (version vendor : Option Text)
        → resolve loads api catalog capability version vendor greeters
          ≡ some (resolve_feature (browse shown none none) capability version vendor))
get-list_cluster_example =
    get-list_cluster loads dumps loads-dumps loads-nil api catalog greeters greeters greeters-Holds
