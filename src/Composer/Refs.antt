-- ===== src/Composer/Refs.antt =====
-- What a dotted reference stands for.
use agent_features.Common.{
  ◌≡◌, refl, sym, subst, ap, ◌∙◌, ◌↔◌, Option, none, some, List, [], ◌∷◌, ◌++◌, false, eqb, arith,
  All, Option-cases, inl, inr,
}
use agent_features.Common.Text.{Text, split}
use agent_features.Common.Text.Laws.{split_atom, split-append}
use agent_features.Common.Json.{Json, obj, Fields, get_field, put_field, get_field-put_field_self}
use agent_features.Composer.{unresolved, walk, resolve_ref}

-- `v` lies at the end of a path of keys that begins at the first value
pub data LiesAt : List Text → Json → Json → Type 0 where
  here : {v : Json} → LiesAt [] v v
  inside :
      {key : Text} {keys : List Text} {d : Fields} {w v : Json}
      → get_field key d ≡ some w
      → LiesAt keys w v
      → LiesAt (key ∷ keys) (obj d) v

walk-obj_some :
    (ref key : Text) (keys : List Text) (d : Fields) (w : Json)
    → get_field key d ≡ some w
    → walk ref (key ∷ keys) (obj d) ≡ walk ref keys w
walk-obj_some ref key keys d w e = ground (arith, e)

walk-obj_none :
    (ref key : Text) (keys : List Text) (d : Fields)
    → get_field key d ≡ none
    → walk ref (key ∷ keys) (obj d) ≡ unresolved ref
walk-obj_none ref key keys d e = ground (arith, e)

not_unresolved : (ref : Text) (v : Json) → unresolved ref ≡ (v, none) → ⊥
not_unresolved ref v e = ground (arith, ap (λ (p : Json × Option Text). p.1) e)

walk→LiesAt :
    (ref : Text) (keys : List Text) (cur v : Json)
    → walk ref keys cur ≡ (v, none)
    → LiesAt keys cur v
walk→LiesAt ref [] cur v e =
    subst (λ w. LiesAt [] cur w) (ap (λ (p : Json × Option Text). p.0) e) here
walk→LiesAt ref (k ∷ ks) (obj d) v e = elim (Option-cases (get_field k d)) [
  | inl missing ↦ absurd (not_unresolved ref v (sym (walk-obj_none ref k ks d missing) ∙ e))
  | inr (w, h) ↦ inside h (walk→LiesAt ref ks w v (sym (walk-obj_some ref k ks d w h) ∙ e))
]
walk→LiesAt ref (k ∷ ks) cur v e = absurd (not_unresolved ref v e)

LiesAt→walk :
    (ref : Text) {keys : List Text} {cur v : Json}
    → LiesAt keys cur v
    → walk ref keys cur ≡ (v, none)
LiesAt→walk ref here = refl
LiesAt→walk ref (inside {key = k} {keys = ks} {d = d} {w = w} h l) =
    walk-obj_some ref k ks d w h ∙ LiesAt→walk ref l

-- A reference resolves to a value, with no error, exactly when its parts between the dots are a
-- path of keys, through nested objects, from the context to that value.
pub resolve_ref_iff :
    (ref : Text) (ctx : Fields) (v : Json)
    → (resolve_ref ref ctx ≡ (v, none)) ↔ LiesAt (split b'.' ref) (obj ctx) v
unfolding resolve_ref
resolve_ref_iff ref ctx v = (walk→LiesAt ref (split b'.' ref) (obj ctx) v, LiesAt→walk ref)

-- no dot in a name
abbrev pub HasNoDot : Text → Type 0
HasNoDot = All (λ c. eqb c b'.' ≡ false)

-- Behind a step, a reference `<step>.<field>` reads the field of that step's output, if neither
-- name holds a dot.
pub resolve_ref-put_field :
    (step key : Text) (out ctx : Fields) (v : Json)
    → HasNoDot step
    → HasNoDot key
    → get_field key out ≡ some v
    → resolve_ref (step ++ b'.' ∷ key) (put_field step (obj out) ctx) ≡ (v, none)
unfolding resolve_ref
resolve_ref-put_field step key out ctx v hs hk e =
    rw (split-append b'.' step key hs, split_atom b'.' key hk)
      (LiesAt→walk (step ++ b'.' ∷ key)
        (inside (get_field-put_field_self step (obj out) ctx) (inside e here)))
