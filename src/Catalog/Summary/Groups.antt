-- ===== src/Catalog/Summary/Groups.antt =====
-- The groups that `summarize_capabilities` makes: each capability's features, in their order.
use agent_features.Common.{
  ◌≡◌, ◌≢◌, refl, sym, ap, ◌∙◌, Option, none, some, List, [], ◌∷◌, ◌++◌, map, arith, keep,
  keep-ne-nil, if◌then◌else◌, Bool-cases, inl, inr,
}
use mathlib.Core.List.{Memᴰ, append_assoc}
use agent_features.Common.Text.{Text, ◌==◌}
use agent_features.Common.Text.Laws.{eq_iff, eq_refl}
use agent_features.Common.Dict.{Dict, IsDict, get, put, get-put, put-IsDict}
use agent_features.Models.{Feature}
use agent_features.Catalog.Summary.{or_empty, group_into}

-- the features of one capability
abbrev pub providers_of : Text → List Feature → List Feature
providers_of k = keep (λ f. f.manifest.capability == k)

-- a group that more features join
abbrev extend : Option (List Feature) → List Feature → Option (List Feature)
extend o [] = o
extend o (f ∷ fs) = some (or_empty o ++ f ∷ fs)

extend-extend :
    (o : Option (List Feature)) (f : Feature) (fs : List Feature)
    → extend (some (or_empty o ++ f ∷ [])) fs ≡ extend o (f ∷ fs)
extend-extend o f [] = refl
extend-extend o f (g ∷ gs) = ap some (append_assoc (or_empty o) (f ∷ []) (g ∷ gs))

extend_at :
    (k c : Text) (d : Dict (List Feature)) (f : Feature) (gs : List Feature)
    → extend (if c == k then some (or_empty (get c d) ++ f ∷ []) else get k d) gs
      ≡ extend (get k d) (if c == k then f ∷ gs else gs)
extend_at k c d f gs = elim (Bool-cases (c == k)) [
  | inl h ↦ rw h (rw ((eq_iff c k).0 h) (extend-extend (get k d) f gs))
  | inr h ↦ rw h
]

get-group_into :
    (k : Text) (d : Dict (List Feature)) (fs : List Feature)
    → get k (group_into d fs) ≡ extend (get k d) (providers_of k fs)
unfolding group_into
get-group_into k d [] = refl
get-group_into k d (f ∷ fs) =
    let c = f.manifest.capability in
    let v = or_empty (get c d) ++ f ∷ [] in
    get-group_into k (put c v d) fs
    ∙ ap (λ o. extend o (providers_of k fs)) (get-put c k v d)
    ∙ extend_at k c d f (providers_of k fs)

group_into-IsDict :
    (d : Dict (List Feature)) (fs : List Feature) → IsDict d → IsDict (group_into d fs)
unfolding group_into
group_into-IsDict d [] h = h
group_into-IsDict d (f ∷ fs) h =
    let k = f.manifest.capability in
    group_into-IsDict (put k (or_empty (get k d) ++ f ∷ []) d) fs
      (put-IsDict k (or_empty (get k d) ++ f ∷ []) d h)

abbrev pub groups : List Feature → Dict (List Feature)
groups fs = group_into [] fs

pub groups-IsDict : (fs : List Feature) → IsDict (groups fs)
groups-IsDict fs = group_into-IsDict [] fs tt

group_cons : (g ps : List Feature) → extend none ps ≡ some g → (g ≡ ps) × (g ≢ [])
group_cons g [] h = absurd (ground arith)
group_cons g (f ∷ ps) h = ground arith

-- a group holds the providers of its capability, and at least one
pub group_members :
    (k : Text) (g fs : List Feature)
    → get k (groups fs) ≡ some g
    → (g ≡ providers_of k fs) × (g ≢ [])
unfolding get
group_members k g fs e = group_cons g (providers_of k fs) (sym (get-group_into k [] fs) ∙ e)

-- every feature's capability is among the group names
named_at : (k : Text) (d : Dict (List Feature)) → ¬ (get k d ≡ none) → Memᴰ k (map (λ e. e.0) d)
unfolding get
named_at k [] h = absurd (h refl)
named_at k ((j, g) ∷ d) h = elim (Bool-cases (j == k)) [
  | inl e ↦ Memᴰ.head (sym ((eq_iff j k).0 e))
  | inr e ↦ Memᴰ.tail (named_at k d (rw e at h))
]

pub named :
    (fs : List Feature) (f : Feature)
    → Memᴰ f fs
    → Memᴰ f.manifest.capability (map (λ e. e.0) (groups fs))
unfolding get
named fs f m =
    let k = f.manifest.capability in
    named_at k (groups fs) λ e.
      keep-ne-nil (λ g. g.manifest.capability == k) fs (eq_refl k) m
        (empty (providers_of k fs) (sym (get-group_into k [] fs) ∙ e))
  where
    empty : (ps : List Feature) → extend none ps ≡ none → ps ≡ []
    empty [] h = refl
    empty (p ∷ ps) h = absurd (ground arith)
