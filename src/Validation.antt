-- ===== src/Validation.antt =====
-- gateway/validation.py. The JSON Schema validator is a library: what it finds is a parameter,
-- `iter_errors payload schema`, each violation with its path and its message. Where the library is
-- not installed, missing_fields stands in; None is an exception there.
pub mod Laws
use agent_features.Common.{
  ℕ, Option, none, some, List, [], ◌∷◌, ◌++◌, map, Bool, true, not, is_some, ◌>>=◌, if◌then◌else◌,
}
use agent_features.Common.Text.{Text, codes, join, show, truthy, text_order}
use agent_features.Common.Json.{
  Json, str, arr, obj, nil, Fields, truthy_fields, get_or, get_field, elements, shown,
}
use agent_features.Common.Order.{WeakOrder, nat_order, pair_order, list_order, by}
use agent_features.Common.Sort.{sorted}

-- a step of a path: into an array or into an object
pub data PathPart : Type 0 where
  index : ℕ → PathPart
  key : Text → PathPart

pub record SchemaError : Type 0 where
  pub path : List PathPart
  pub message : Text

-- Two paths that agree so far go on in one container, so an index is never compared with a key.
abbrev pub part_key : PathPart → ℕ × (ℕ × Text)
part_key (index n) = (0, (n, []))
part_key (key k) = (1, (0, k))

abbrev pub path_order : WeakOrder (List PathPart)
path_order = list_order (by part_key (pair_order nat_order (pair_order nat_order text_order)))

abbrev pub show_part : PathPart → Text
show_part (index n) = show n
show_part (key k) = k

-- t or "<root>"
abbrev pub or_root : Text → Text
or_root [] = codes "<root>"
or_root (c ∷ s) = c ∷ s

unfoldable pub format : SchemaError → Text
format e = or_root (join (codes "/") (map show_part e.path)) ++ codes ": " ++ e.message

module _ (iter_errors : Json → Fields → List SchemaError) where
  unfoldable pub collect_errors : Json → Fields → List Text
  collect_errors payload schema =
      if truthy_fields schema
      then map format (sorted (by (λ e. e.path) path_order).lt (iter_errors payload schema))
      else []

  -- the errors that are raised, or none
  abbrev pub raised : List Text → Option (List Text)
  raised [] = none
  raised (e ∷ es) = some (e ∷ es)

  unfoldable pub validate : Json → Fields → Option (List Text)
  unfolding collect_errors
  validate payload schema = raised (collect_errors payload schema)

-- `k not in payload`: a list or a dictionary is no key
abbrev pub lacks : Json → Fields → Option Bool
lacks (str k) payload = some (not (is_some (get_field k payload)))
lacks (arr vs) payload = none
lacks (obj d) payload = none
lacks v payload = some true

module _ (show_value : Json → Text) where
  abbrev pub missing : List Json → Fields → Option (List Text)
  missing [] payload = some []
  missing (k ∷ ks) payload = do
    lacking ← lacks k payload
    errors ← missing ks payload
    some (
        if lacking
        then (codes "missing required field: " ++ shown show_value k) ∷ errors
        else errors)

  -- `collect_errors` without the library
  unfoldable pub missing_fields : (payload schema : Fields) → Option (List Text)
  unfolding get_or get_field
  missing_fields payload schema =
      if truthy_fields schema
      then elements (get_or (codes "required") (arr nil) schema) >>= (λ ks. missing ks payload)
      else some []
