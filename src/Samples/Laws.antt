-- ===== src/Samples/Laws.antt =====
-- The catalogue and the handlers of registered features.
use agent_features.Common.{
  ◌≡◌, refl, ◌⊎◌, inl, inr, Option, none, some, List, [], ◌∷◌, map, Bool-cases,
}
use mathlib.Core.List.{Memᴰ}
use agent_features.Common.Text.{Text, ◌==◌}
use agent_features.Common.Text.Laws.{eq_iff}
use agent_features.Common.Dict
use agent_features.Common.Dict.{Dict, put, get-put}
use agent_features.Models.{Manifest, Feature}
use agent_features.Catalog.Memory.{local_feature, register, init, get}
use agent_features.Samples.{handlers_of, build}

module _ {H : Type 0} where
  -- nothing under a name, or a manifest with the handler that it has been registered with
  abbrev pub Agree : List (Manifest × H) → Text → Option Feature → Option H → Type 0
  Agree fs name feature handler =
      ((feature ≡ none) × (handler ≡ none))
      ⊎ ((m : Manifest) × (h : H) × Memᴰ (m, h) fs
          × (m.name ≡ name)
          × (feature ≡ some (local_feature m))
          × (handler ≡ some h))

  put-Agree :
      (fs : List (Manifest × H)) (m : Manifest) (h : H) (d : Dict Feature) (hs : Dict H)
      (name : Text)
      → Memᴰ (m, h) fs
      → Agree fs name (Dict.get name d) (Dict.get name hs)
      → Agree fs name
          (Dict.get name (put m.name (local_feature m) d))
          (Dict.get name (put m.name h hs))
  put-Agree fs m h d hs name mem agree =
      rw (get-put m.name name (local_feature m) d, get-put m.name name h hs)
        (elim (Bool-cases (m.name == name)) [
          | inl e ↦ rw e (inr (m, h, mem, (eq_iff m.name name).0 e, refl, refl))
          | inr e ↦ rw e agree
        ])

  register-Agree :
      (fs rest : List (Manifest × H)) (d : Dict Feature) (hs : Dict H)
      → ((f : Manifest × H) → Memᴰ f rest → Memᴰ f fs)
      → ((name : Text) → Agree fs name (Dict.get name d) (Dict.get name hs))
      → (name : Text)
      → Agree fs name
          (Dict.get name (register d (map (λ f. f.0) rest)))
          (Dict.get name (handlers_of hs rest))
  unfolding register handlers_of
  register-Agree fs [] d hs within agree name = agree name
  register-Agree fs ((m, h) ∷ rest) d hs within agree name =
      register-Agree fs rest (put m.name (local_feature m) d) (put m.name h hs)
        (λ f mem. within f (Memᴰ.tail mem))
        (λ k. put-Agree fs m h d hs k (within (m, h) (Memᴰ.head refl)) (agree k)) name

  -- Whatever features are registered: under each name, the catalogue and the invoker have nothing,
  -- or the catalogue has a feature of that name, and the invoker the handler that has been
  -- registered together with its manifest.
  pub build-Agree :
      (fs : List (Manifest × H)) (name : Text)
      → let (catalog, handlers) = build fs in
        Agree fs name (get catalog name) (Dict.get name handlers)
  unfolding build get init Dict.get
  build-Agree fs name = register-Agree fs fs [] [] (λ f mem. mem) (λ k. inl (refl, refl)) name
