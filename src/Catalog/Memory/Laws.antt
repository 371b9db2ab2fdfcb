-- ===== src/Catalog/Memory/Laws.antt =====
-- What the in-memory catalog holds after it has been built.
use agent_features.Common.{
  ◌≡◌, ◌↔◌, refl, sym, subst, ap, ◌∙◌, Option, none, some, List, [], ◌∷◌, arith, All, All-at,
  All-zip, All-of_map, if◌then◌else◌, Bool-cases, inl, inr,
}
use mathlib.Core.List.{Memᴰ}
use agent_features.Common.Text.{Text, ◌==◌}
use agent_features.Common.Text.Laws.{eq_iff}
use agent_features.Common.Dict
use agent_features.Common.Dict.{Dict, IsDict, put, values, get-put, put-IsDict, entries-get}
use agent_features.Common.Sort.{IsSorted}
use agent_features.Models.{Manifest, Feature}
use agent_features.Catalog.Browse.{name_order}
use agent_features.Catalog.Browse.Laws.{HasTags, Mentions, browse_iff, browse-IsSorted}
use agent_features.Catalog.Memory.{InMemoryCatalog, local_feature, register, init, list, get}

-- every feature is filed under its own name, and no name twice
pub record IsCatalog (c : InMemoryCatalog) : Type 0 where
  pub unique : IsDict c.features
  pub filed : All (λ e. e.1.manifest.name ≡ e.0) c.features

All-put {ℓ κ} :
    {V : Type ℓ} (P : Text × V → Type κ) (k : Text) (v : V) (d : Dict V)
    → ((j : Text) → j ≡ k → P (j, v))
    → All P d
    → All P (put k v d)
unfolding put
All-put P k v [] h hs = (h k refl, tt)
All-put P k v ((j, w) ∷ d) h hs = elim (Bool-cases (j == k)) [
  | inl e ↦ rw e (h j ((eq_iff j k).0 e), hs.1)
  | inr e ↦ rw e (hs.0, All-put P k v d h hs.1)
]

register-filed :
    (d : Dict Feature) (ms : List Manifest)
    → All (λ e. e.1.manifest.name ≡ e.0) d
    → All (λ e. e.1.manifest.name ≡ e.0) (register d ms)
unfolding register
register-filed d [] h = h
register-filed d (m ∷ ms) h =
    register-filed (put m.name (local_feature m) d) ms
      (All-put _ m.name (local_feature m) d (λ j e. sym e) h)

register-IsDict : (d : Dict Feature) (ms : List Manifest) → IsDict d → IsDict (register d ms)
unfolding register
register-IsDict d [] h = h
register-IsDict d (m ∷ ms) h =
    register-IsDict (put m.name (local_feature m) d) ms (put-IsDict m.name (local_feature m) d h)

-- the last manifest with a name
abbrev pub last_named : Text → Option Feature → List Manifest → Option Feature
last_named name found [] = found
last_named name found (m ∷ ms) =
    last_named name (if m.name == name then some (local_feature m) else found) ms

get-register :
    (name : Text) (d : Dict Feature) (ms : List Manifest)
    → Dict.get name (register d ms) ≡ last_named name (Dict.get name d) ms
unfolding register
get-register name d [] = refl
get-register name d (m ∷ ms) =
    get-register name (put m.name (local_feature m) d) ms
    ∙ ap (λ o. last_named name o ms) (get-put m.name name (local_feature m) d)

get-init : (ms : List Manifest) (name : Text) → get (init ms) name ≡ last_named name none ms
unfolding get init
get-init ms name = get-register name [] ms ∙ unfold Dict.get in refl

pub init-IsCatalog : (ms : List Manifest) → IsCatalog (init ms)
unfolding init
init-IsCatalog ms = record { unique = register-IsDict [] ms tt; filed = register-filed [] ms tt }

values-get :
    (d : Dict Feature)
    → IsDict d
    → All (λ e. e.1.manifest.name ≡ e.0) d
    → All (λ f. Dict.get f.manifest.name d ≡ some f) (values d)
values-get d u h =
    All-of_map (λ e. e.1) _ d
      (All-zip (λ e p q. subst (λ n. Dict.get n d ≡ some e.1) (sym p) q) d h (entries-get d u))

get-values : (k : Text) (f : Feature) (d : Dict Feature) → Dict.get k d ≡ some f → Memᴰ f (values d)
unfolding Dict.get
get-values k f [] e = absurd (ground arith)
get-values k f ((j, g) ∷ d) e = elim (Bool-cases (j == k)) [
  | inl h ↦ Memᴰ.head (ground arith)
  | inr h ↦ Memᴰ.tail (get-values k f d (rw h at e))
]

list-get_iff :
    (ms : List Manifest) (query : Option Text) (tags : Option (List Text))
    → IsSorted name_order.lt (list (init ms) query tags)
      × ((f : Feature)
          → Memᴰ f (list (init ms) query tags)
            ↔ ((get (init ms) f.manifest.name ≡ some f) × HasTags tags f × Mentions query f))
unfolding list get
list-get_iff ms query tags =
    let c = init ms in
    let v = init-IsCatalog ms in
    (
      browse-IsSorted (values c.features) query tags,
      λ f.
          let b = browse_iff (values c.features) query tags f in
          (
            λ m.
                let (a, h, q) = b.0 m in
                (All-at _ (values c.features) (values-get c.features v.unique v.filed) a, h, q),
            λ (e, h, q). b.1 (get-values f.manifest.name f c.features e, h, q),
          ),
    )

-- A catalog that has been built from manifests finds under a name the last of the manifests that
-- has it, as a feature with a local endpoint, and nothing where no manifest has it; and it lists,
-- for any query and tags, exactly the features that it finds under their own names and that carry
-- the tags and mention the query, in alphabetical order of the names.
pub list-get-init :
    (ms : List Manifest) (query : Option Text) (tags : Option (List Text))
    → ((name : Text) → get (init ms) name ≡ last_named name none ms)
      × IsSorted name_order.lt (list (init ms) query tags)
      × ((f : Feature)
          → Memᴰ f (list (init ms) query tags)
            ↔ ((get (init ms) f.manifest.name ≡ some f) × HasTags tags f × Mentions query f))
list-get-init ms query tags =
    let (ordered, listed) = list-get_iff ms query tags in (get-init ms, ordered, listed)
