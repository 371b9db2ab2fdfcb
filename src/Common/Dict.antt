-- ===== src/Common/Dict.antt =====
-- Python's `dict` with text keys: an association list in insertion order. Writing to a key that is
-- there keeps its place; a new key goes to the end.
use mathlib.Core.Path.{◌≡◌, refl, sym, subst}
use mathlib.Core.Logic.{◌≢◌, inl, inr}
use mathlib.Core.Option.{Option, none, some}
use mathlib.Core.List.{List, [], ◌∷◌, map}
use native.Mathlib.Omega.{arith}
use agent_features.Common.Tests.{if◌then◌else◌, Bool-cases}
use agent_features.Common.Lists.{All, All-map, Pairs}
use agent_features.Common.Text.{Text, ◌==◌}
use agent_features.Common.Text.Laws.{eq_iff, eq_refl}

module _ {ℓ} where
  abbrev pub Dict : Type ℓ → Type ℓ
  Dict V = List (Text × V)

module _ {ℓ} {V : Type ℓ} where
  -- d.get(k)
  unfoldable pub get : Text → Dict V → Option V
  get k [] = none
  get k ((j, v) ∷ d) = if j == k then some v else get k d

  -- d[k] = v
  unfoldable pub put : Text → V → Dict V → Dict V
  put k v [] = (k, v) ∷ []
  put k v ((j, w) ∷ d) = if j == k then (j, v) ∷ d else (j, w) ∷ put k v d

  abbrev pub keys : Dict V → List Text
  keys = map (λ e. e.0)

  abbrev pub values : Dict V → List V
  values = map (λ e. e.1)

  -- no key twice
  abbrev pub IsDict : Dict V → Type ℓ
  IsDict [] = Unit
  IsDict ((k, v) ∷ d) = (get k d ≡ none) × IsDict d

  pub get-put :
      (k j : Text) (v : V) (d : Dict V) → get j (put k v d) ≡ (if k == j then some v else get j d)
  unfolding get put
  get-put k j v [] = refl
  get-put k j v ((i, w) ∷ d) = ground (arith, eq_iff i k, eq_iff i j, eq_iff k j, get-put k j v d)

  pub get-put_self : (k : Text) (v : V) (d : Dict V) → get k (put k v d) ≡ some v
  get-put_self k v d = simp (get-put, eq_refl)

  pub put-IsDict : (k : Text) (v : V) (d : Dict V) → IsDict d → IsDict (put k v d)
  unfolding put
  put-IsDict k v [] h = (unfold get in refl, tt)
  put-IsDict k v ((j, w) ∷ d) h =
      ground (arith, get-put k j v d, eq_iff k j, eq_iff j k, put-IsDict k v d h.1)

  -- in a dictionary each entry is what its key finds
  get_mono :
      (k j : Text) (v w : V) (d : Dict V)
      → get j d ≡ none
      → get k d ≡ some v
      → get k ((j, w) ∷ d) ≡ some v
  unfolding get
  get_mono k j v w d h e = ground (arith, eq_iff j k)

  pub entries-get : (d : Dict V) → IsDict d → All (λ e. get e.0 d ≡ some e.1) d
  entries-get [] h = tt
  entries-get ((k, v) ∷ d) h = (
    unfold get in rw (eq_refl k),
    All-map (λ e. get_mono e.0 k e.1 v d h.0) d (entries-get d h.1),
  )

  keys-fresh : (k : Text) (d : Dict V) → get k d ≡ none → All (λ e. k ≢ e.0) d
  unfolding get
  keys-fresh k [] h = tt
  keys-fresh k ((j, v) ∷ d) h =
      (λ e. ground (arith, eq_iff j k), keys-fresh k d (ground (arith, eq_iff j k)))

  -- and no two entries have one key
  pub entries-distinct : (d : Dict V) → IsDict d → Pairs (λ a b. a.0 ≢ b.0) d
  entries-distinct [] h = tt
  entries-distinct ((k, v) ∷ d) h = (keys-fresh k d h.0, entries-distinct d h.1)

  pub put-All {κ} :
      (P : Text × V → Type κ) (k : Text) (v : V) (d : Dict V)
      → P (k, v)
      → All P d
      → All P (put k v d)
  unfolding put
  put-All P k v [] p h = (p, tt)
  put-All P k v ((j, w) ∷ d) p h = elim (Bool-cases (j == k)) [
    | inl e ↦ rw e (subst (λ i. P (i, v)) (sym ((eq_iff j k).0 e)) p, h.1)
    | inr e ↦ rw e (h.0, put-All P k v d p h.1)
  ]
