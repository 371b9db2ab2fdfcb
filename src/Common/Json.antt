-- ===== src/Common/Json.antt =====
-- JSON values as Python holds them. A list and a dictionary of values are types of the same block;
-- a float is its shortest decimal text (`repr`), since the gateway only passes floats on here.
use Prim.Native.Nat.{ℕ}
use mathlib.Core.Path.{◌≡◌, refl}
use mathlib.Core.Bool.{Bool, true, false, not, ◌||◌}
use mathlib.Core.Option.{Option, none, some}
use mathlib.Core.List.{List, [], ◌∷◌, map}
use native.Mathlib.Omega.{arith}
use agent_features.Common.Tests.{if◌then◌else◌, eqb}
use agent_features.Common.Text.{Text, ◌==◌, codes, truthy}
use agent_features.Common.Text.Laws.{eq_iff, eq_refl}
use agent_features.Common.Dict.{Dict}

mutual
  pub data Json : Type 0 where
    null : Json
    bool : Bool → Json
    -- an int that is not negative, and -(n + 1)
    int : ℕ → Json
    neg_int : ℕ → Json
    float : Text → Json
    str : Text → Json
    arr : Items → Json
    obj : Fields → Json

  pub data Items : Type 0 where
    nil : Items
    cons : Json → Items → Items

  -- dict[str, Any], in insertion order
  pub data Fields : Type 0 where
    end : Fields
    field : Text → Json → Fields → Fields

unfoldable pub get_field : Text → Fields → Option Json
get_field k end = none
get_field k (field j v d) = if j == k then some v else get_field k d

unfoldable pub put_field : Text → Json → Fields → Fields
put_field k v end = field k v end
put_field k v (field j w d) = if j == k then field j v d else field j w (put_field k v d)

-- the truth of a dictionary
abbrev pub truthy_fields : Fields → Bool
truthy_fields end = false
truthy_fields (field k v d) = true

-- the truth of a value; zero as a float is written in two ways
abbrev pub truthy_json : Json → Bool
truthy_json null = false
truthy_json (bool b) = b
truthy_json (int n) = not (eqb n 0)
truthy_json (neg_int n) = true
truthy_json (float t) = not (t == codes "0.0" || t == codes "-0.0")
truthy_json (str s) = truthy s
truthy_json (arr nil) = false
truthy_json (arr (cons v vs)) = true
truthy_json (obj d) = truthy_fields d

-- d.get(k), where a key that is not there reads as null
unfoldable pub get_or_null : Text → Fields → Json
get_or_null k end = null
get_or_null k (field j v d) = if j == k then v else get_or_null k d

-- d.get(k, v)
unfoldable pub get_or : Text → Json → Fields → Json
get_or k v end = v
get_or k v (field j w d) = if j == k then w else get_or k v d

-- `v == t`, for a text t
abbrev pub is_text : Json → Text → Bool
is_text (str s) t = s == t
is_text v t = false

abbrev pub entries : Fields → Dict Json
entries end = []
entries (field k v d) = (k, v) ∷ entries d

abbrev pub items : Items → List Json
items nil = []
items (cons v vs) = v ∷ items vs

-- what a `for` loop runs over; other values cannot be iterated
abbrev pub elements : Json → Option (List Json)
elements (arr vs) = some (items vs)
elements (str s) = some (map (λ c. str (c ∷ [])) s)
elements (obj d) = some (map (λ e. str e.0) (entries d))
elements v = none

-- what an f-string makes of a value, where `show_value` is the text of a value that is no text
abbrev pub shown : (show_value : Json → Text) → Json → Text
shown show_value (str s) = s
shown show_value v = show_value v

abbrev pub arr_of : List Json → Items
arr_of [] = nil
arr_of (v ∷ vs) = cons v (arr_of vs)

pub get_field-put_field :
    (k j : Text) (v : Json) (d : Fields)
    → get_field j (put_field k v d) ≡ (if k == j then some v else get_field j d)
unfolding get_field put_field
get_field-put_field k j v end = refl
get_field-put_field k j v (field i w d) =
    ground (arith, eq_iff i k, eq_iff i j, eq_iff k j, get_field-put_field k j v d)

pub get_field-put_field_self :
    (k : Text) (v : Json) (d : Fields) → get_field k (put_field k v d) ≡ some v
get_field-put_field_self k v d = simp (get_field-put_field, eq_refl)
