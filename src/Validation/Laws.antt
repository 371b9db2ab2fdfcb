-- ===== src/Validation/Laws.antt =====
-- When a payload is let through, and what is reported otherwise.
use agent_features.Common.{
  ◌≡◌, refl, sym, subst, ◌↔◌, inl, inr, none, some, List, [], ◌∷◌, map, arith, ◌++◌, keep, not,
  is_some, if◌then◌else◌, Bool-cases,
}
use mathlib.Core.List.{Perm}
use mathlib.Core.List.Perm
use agent_features.Common.Text.{Text, codes}
use agent_features.Common.Json.{Json, str, Fields, truthy_fields, get_field}
use agent_features.Common.Order.{by}
use agent_features.Common.Sort.{sorted, sorted-perm}
use agent_features.Validation.{
  SchemaError, path_order, format, collect_errors, raised, validate, missing,
}

module _ (iter_errors : Json → Fields → List SchemaError) where
  -- what the validator finds, where it is asked: an empty schema asks nothing
  abbrev pub violations : Json → Fields → List SchemaError
  violations payload schema = if truthy_fields schema then iter_errors payload schema else []

  collect-violations :
      (payload : Json) (schema : Fields)
      → collect_errors iter_errors payload schema
        ≡ map format
            (sorted (by (λ (e : SchemaError). e.path) path_order).lt (violations payload schema))
  unfolding collect_errors sorted
  collect-violations payload schema = elim (Bool-cases (truthy_fields schema)) [
    | inl h ↦ rw h
    | inr h ↦ rw h
  ]

  -- The messages are the formatted violations, each as often as the validator finds it.
  collect_errors-perm :
      (payload : Json) (schema : Fields)
      → Perm (collect_errors iter_errors payload schema) (map format (violations payload schema))
  collect_errors-perm payload schema = rw collect-violations (
      Perm.map format
        (sorted-perm (by (λ (e : SchemaError). e.path) path_order).lt (violations payload schema)))

  raised-none : (l : List Text) → raised iter_errors l ≡ none → l ≡ []
  raised-none [] h = refl
  raised-none (e ∷ l) h = absurd (ground arith)

  raised-some : (l es : List Text) → raised iter_errors l ≡ some es → l ≡ es
  raised-some [] es h = absurd (ground arith)
  raised-some (e ∷ l) es h = ground arith

  map-nil : (l : List SchemaError) → map format l ≡ [] → l ≡ []
  map-nil [] h = refl
  map-nil (e ∷ l) h = absurd (ground arith)

  -- `validate` returns exactly where the schema is empty or the validator finds nothing. Where it
  -- raises, the error lists every violation, formatted, each as often as it is found.
  pub validate-raises :
      (payload : Json) (schema : Fields)
      → ((validate iter_errors payload schema ≡ none) ↔ (violations payload schema ≡ []))
        × ((es : List Text)
            → validate iter_errors payload schema ≡ some es
            → Perm es (map format (violations payload schema)))
  unfolding validate
  validate-raises payload schema =
      let found = map format (violations payload schema) in
      let p = collect_errors-perm payload schema in
      (
        (
          λ h. map-nil _ (sym (Perm.nil-eq (subst (λ l. Perm l found) (raised-none _ h) p))),
          λ h. rw (collect-violations, h) (unfold sorted in refl),
        ),
        λ es h. subst (λ l. Perm l found) (raised-some _ es h) p,
      )

-- Without the library, and for a schema that lists the names of the required fields: the errors tell
-- of exactly those that the payload has not, in the order of the list.
pub missing-names :
    (show_value : Json → Text) (payload : Fields) (names : List Text)
    → missing show_value (map str names) payload
      ≡ some (
          map
            (λ k. codes "missing required field: " ++ k)
            (keep (λ k. not (is_some (get_field k payload))) names))
missing-names show_value payload [] = refl
missing-names show_value payload (k ∷ names) = elim (Bool-cases (is_some (get_field k payload))) [
  | inl h ↦ rw (missing-names show_value payload names, h) refl
  | inr h ↦ rw (missing-names show_value payload names, h) refl
]
