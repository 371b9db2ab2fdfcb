-- ===== src/Tests/Codec.antt =====
-- A serializer and a parser of JSON values for the tests, in place of `json.dumps` and `json.loads`:
-- a text is a program of a stack machine, where 14 puts the next character in front of a text.
use agent_features.Common.{
  ℕ, zero, suc, ◌≡◌, refl, ap, ◌∙◌, Option, none, some, List, [], ◌∷◌, Bool, true, false, eqb,
}
use agent_features.Common.Text.{Text}
use agent_features.Common.Json.{
  Json, null, bool, int, neg_int, float, str, arr, obj, Items, nil, cons, Fields, end, field,
}

data Value : Type 0 where
  text : Text → Value
  json : Json → Value
  items : Items → Value
  fields : Fields → Value

write_text : Text → Text → Text
write_text [] k = 0 ∷ k
write_text (c ∷ s) k = write_text s (14 ∷ c ∷ k)

mutual
  write : Json → Text → Text
  write null k = 1 ∷ k
  write (bool true) k = 2 ∷ k
  write (bool false) k = 3 ∷ k
  write (int n) k = write_text (n ∷ []) (4 ∷ k)
  write (neg_int n) k = write_text (n ∷ []) (5 ∷ k)
  write (float s) k = write_text s (6 ∷ k)
  write (str s) k = write_text s (7 ∷ k)
  write (arr vs) k = write_items vs (8 ∷ k)
  write (obj d) k = write_fields d (9 ∷ k)

  write_items : Items → Text → Text
  write_items nil k = 10 ∷ k
  write_items (cons v vs) k = write_items vs (write v (11 ∷ k))

  write_fields : Fields → Text → Text
  write_fields end k = 12 ∷ k
  write_fields (field j v d) k = write_fields d (write_text j (write v (13 ∷ k)))

abbrev quote : ℕ → List Value → List Value
quote c (text s ∷ st) = text (c ∷ s) ∷ st
quote c st = st

abbrev one_text : (Text → Json) → List Value → List Value
one_text make (text s ∷ st) = json (make s) ∷ st
one_text make st = st

abbrev one_number : (ℕ → Json) → List Value → List Value
one_number make (text (n ∷ s) ∷ st) = json (make n) ∷ st
one_number make st = st

abbrev make_arr : List Value → List Value
make_arr (items vs ∷ st) = json (arr vs) ∷ st
make_arr st = st

abbrev make_obj : List Value → List Value
make_obj (fields d ∷ st) = json (obj d) ∷ st
make_obj st = st

abbrev make_cons : List Value → List Value
make_cons (json v ∷ items vs ∷ st) = items (cons v vs) ∷ st
make_cons st = st

abbrev make_field : List Value → List Value
make_field (json v ∷ text j ∷ fields d ∷ st) = fields (field j v d) ∷ st
make_field st = st

abbrev operations : List (List Value → List Value)
operations =
    (λ st. text [] ∷ st)
    ∷ (λ st. json null ∷ st)
    ∷ (λ st. json (bool true) ∷ st)
    ∷ (λ st. json (bool false) ∷ st)
    ∷ one_number int
    ∷ one_number neg_int
    ∷ one_text float
    ∷ one_text str
    ∷ make_arr
    ∷ make_obj
    ∷ (λ st. items nil ∷ st)
    ∷ make_cons
    ∷ (λ st. fields end ∷ st)
    ∷ make_field
    ∷ []

abbrev perform : ℕ → List (List Value → List Value) → List Value → List Value
perform n [] st = st
perform zero (op ∷ ops) st = op st
perform (suc n) (op ∷ ops) st = perform n ops st

-- with whether the character is quoted
read : Bool → List Value → Text → List Value
read quoted st [] = st
read true st (c ∷ s) = read false (quote c st) s
read false st (c ∷ s) = read (eqb c 14) (perform c operations st) s

result : List Value → Option Json
result (fields d ∷ []) = some (obj d)
result st = none

pub loads : Text → Option Json
loads s = result (read false [] s)

pub dumps : Fields → Text
dumps d = write_fields d []

read-write_text :
    (s k : Text) (st : List Value) → read false st (write_text s k) ≡ read false (text s ∷ st) k
unfolding write_text read
read-write_text [] k st = refl
read-write_text (c ∷ s) k st = read-write_text s (14 ∷ c ∷ k) st

mutual
  unfolding write read write_text

  read-write :
      (v : Json) (k : Text) (st : List Value)
      → read false st (write v k) ≡ read false (json v ∷ st) k
  read-write null k st = refl
  read-write (bool true) k st = refl
  read-write (bool false) k st = refl
  read-write (int n) k st = refl
  read-write (neg_int n) k st = refl
  read-write (float s) k st = read-write_text s (6 ∷ k) st
  read-write (str s) k st = read-write_text s (7 ∷ k) st
  read-write (arr vs) k st = read-write_items vs (8 ∷ k) st
  read-write (obj d) k st = read-write_fields d (9 ∷ k) st

  read-write_items :
      (vs : Items) (k : Text) (st : List Value)
      → read false st (write_items vs k) ≡ read false (items vs ∷ st) k
  read-write_items nil k st = refl
  read-write_items (cons v vs) k st =
      read-write_items vs (write v (11 ∷ k)) st ∙ read-write v (11 ∷ k) (items vs ∷ st)

  read-write_fields :
      (d : Fields) (k : Text) (st : List Value)
      → read false st (write_fields d k) ≡ read false (fields d ∷ st) k
  read-write_fields end k st = refl
  read-write_fields (field j v d) k st =
      read-write_fields d (write_text j (write v (13 ∷ k))) st
      ∙ (read-write_text j (write v (13 ∷ k)) (fields d ∷ st)
          ∙ read-write v (13 ∷ k) (text j ∷ fields d ∷ st))

pub loads-dumps : (d : Fields) → loads (dumps d) ≡ some (obj d)
unfolding loads dumps result read
loads-dumps d = ap result (read-write_fields d [] [])

pub loads-nil : loads [] ≡ none
unfolding loads read result
loads-nil = refl
