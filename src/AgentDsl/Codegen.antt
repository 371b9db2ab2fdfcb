-- ===== src/AgentDsl/Codegen.antt =====
-- gateway/agentdsl.py: the client stubs of an agent. None stands for an exception; `format` is what
-- an f-string writes of a value.
pub mod Templates
pub mod Names
pub mod Laws
use agent_features.Common.{
  ℕ, zero, suc, ◌-◌, Option, none, some, List, [], ◌∷◌, ◌++◌, map, Bool, true, false, length, ◌>>=◌,
  if◌then◌else◌,
}
use agent_features.Common.Text.{Text, codes, starts_with, join, show, ◌==◌}
use agent_features.Common.Dict.{Dict, get, keys}
use agent_features.Common.Json.{Json, str, obj, Fields, end, field, get_or, get_or_null}
use agent_features.Composer.{Composite}
use agent_features.Catalog.Custom.{as_object, choose}
use agent_features.AgentDsl.Codegen.Names.{camel, pascal, snake, or_text}
use agent_features.AgentDsl.Codegen.Templates.{
  js_template, ts_template, go_template, rust_template, java_template, proto_template,
}

-- `_GO_TYPES`
abbrev pub go_types : Dict Text
go_types =
    (codes "string", codes "string")
    ∷ (codes "number", codes "float64")
    ∷ (codes "integer", codes "int")
    ∷ (codes "boolean", codes "bool")
    ∷ []

-- `_TS_TYPES`
abbrev pub ts_types : Dict Text
ts_types =
    (codes "string", codes "string")
    ∷ (codes "number", codes "number")
    ∷ (codes "integer", codes "number")
    ∷ (codes "boolean", codes "boolean")
    ∷ []

-- `_PROTO_TYPES`
abbrev pub proto_types : Dict Text
proto_types =
    (codes "string", codes "string")
    ∷ (codes "number", codes "double")
    ∷ (codes "integer", codes "int64")
    ∷ (codes "boolean", codes "bool")
    ∷ []

-- `LANGUAGES`
abbrev pub languages : List Text
languages = codes "js" ∷ codes "ts" ∷ codes "go" ∷ codes "rust" ∷ codes "java" ∷ codes "proto" ∷ []

-- `_ALIASES`
abbrev pub aliases : Dict Text
aliases =
    (codes "javascript", codes "js")
    ∷ (codes "typescript", codes "ts")
    ∷ (codes "golang", codes "go")
    ∷ (codes "rs", codes "rust")
    ∷ (codes "protobuf", codes "proto")
    ∷ []

-- the keys of a dictionary, and its entries
abbrev pub names_of : Fields → List Text
names_of end = []
names_of (field k v d) = k ∷ names_of d

-- s.replace(old, new): from left to right, where `skip` counts what is left of a match
unfoldable pub replace : (skip : ℕ) → (old new : Text) → Text → Text
replace skip old new [] = []
replace (suc skip) old new (c ∷ s) = replace skip old new s
replace zero old new (c ∷ s) = elim (starts_with (c ∷ s) old) [
  | true ↦ new ++ replace (length old - 1) old new s
  | false ↦ c ∷ replace zero old new s
]

-- the loop over `subs`
unfoldable pub substitute : Dict Text → Text → Text
unfolding replace
substitute [] out = out
substitute ((token, value) ∷ subs) out = substitute subs (replace 0 token value out)

-- the replacements of every language
unfoldable pub common_subs : Composite → Fields → Dict Text
unfolding camel pascal snake join
common_subs c props =
    (codes "__NAME__", c.name)
    ∷ (codes "__DESC__", or_text c.description (codes "(no description)"))
    ∷ (codes "__CAMEL__", camel c.name)
    ∷ (codes "__PASCAL__", pascal c.name)
    ∷ (codes "__SNAKE__", snake c.name)
    ∷ (codes "__FIELDS__", or_text (join (codes ", ") (names_of props)) (codes "(no inputs)"))
    ∷ (codes "__OUTS__", or_text (join (codes ", ") (keys c.output)) (codes "(none)"))
    ∷ []

-- the lines of the properties, numbered
abbrev pub each_prop : (ℕ → Text → Fields → Option Text) → ℕ → Fields → Option (List Text)
each_prop line i end = some []
each_prop line i (field k v d) = do
  prop ← as_object v
  l ← line i k prop
  ls ← each_prop line (suc i) d
  some (l ∷ ls)

abbrev pub ts_line : ℕ → Text → Fields → Option Text
ts_line i k prop = do
  t ← choose ts_types (codes "unknown") (get_or_null (codes "type") prop)
  some (k ++ codes ": " ++ t)

abbrev pub go_line : ℕ → Text → Fields → Option Text
go_line i k prop = do
  t ← choose go_types (codes "any") (get_or_null (codes "type") prop)
  some (codes "\t" ++ pascal k ++ codes " " ++ t ++ codes " `json:\"" ++ k ++ codes "\"`")

abbrev pub proto_line : ℕ → Text → Fields → Option Text
proto_line i k prop = do
  t ← choose proto_types (codes "string") (get_or_null (codes "type") prop)
  some (codes "  " ++ t ++ codes " " ++ k ++ codes " = " ++ show i ++ codes ";")

abbrev pub filled : (template : Text) → Dict Text → (token : Text) → (value : Text) → Text
filled template subs token value = substitute (subs ++ (token, value) ∷ []) template

module _ (format : Json → Text) where
  abbrev pub rust_line : ℕ → Text → Fields → Option Text
  rust_line i k prop =
      some (k ++ codes ": " ++ format (get_or (codes "type") (str (codes "string")) prop))

  -- by the language behind the aliases
  abbrev pub stub : Text → Fields → Dict Text → Option Text
  stub lang props subs =
      if lang == codes "js"
      then some (substitute subs js_template)
      else if lang == codes "ts"
      then (do
        ls ← each_prop ts_line 1 props
        some (
            filled ts_template subs (codes "__TSFIELDS__")
              (or_text (join (codes "; ") ls) (codes "/* no inputs */"))))
      else if lang == codes "go"
      then (do
        ls ← each_prop go_line 1 props
        some (
            filled go_template subs (codes "__GOFIELDS__")
              (or_text (join (codes "\n") ls) (codes "\t// (no inputs)"))))
      else if lang == codes "rust"
      then (do
        ls ← each_prop rust_line 1 props
        some (
            filled rust_template subs (codes "__RSFIELDS__")
              (or_text (join (codes ", ") ls) (codes "(no inputs)"))))
      else if lang == codes "java"
      then some (substitute subs java_template)
      else if lang == codes "proto"
      then (do
        ls ← each_prop proto_line 1 props
        some (
            filled proto_template subs (codes "__PROTOIN__")
              (or_text (join (codes "\n") ls) (codes "  // (no inputs)"))))
      else some (codes "// unsupported language: " ++ lang)

  abbrev pub language : Text → Option Text → Text
  language lang none = lang
  language lang (some l) = l

  unfoldable pub codegen : Composite → Text → Option Text
  unfolding common_subs substitute pascal
  codegen c lang = do
    props ← as_object (get_or (codes "properties") (obj end) c.input_schema)
    stub (language lang (get lang aliases)) props (common_subs c props)
