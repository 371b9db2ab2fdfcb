-- ===== src/Samples/TextStats.antt =====
-- `_text_stats` of gateway/samples.py.
pub mod Laws
pub mod Counts
use agent_features.Common.{
  ℕ, Option, none, some, List, [], ◌∷◌, Bool, true, false, not, eqb, length, map, keep,
  if◌then◌else◌,
}
use agent_features.Common.Text.{Text, codes, is_space, push_char, split, strip, truthy}
use agent_features.Common.Json.{Json, str, int, obj, Fields, end, field, get_field}
use agent_features.Invoker.Local.{Handled, output, failure}

-- whether a text begins with a character of a word
abbrev pub in_word : Text → Bool
in_word [] = false
in_word (c ∷ s) = not (is_space c)

-- s.split()
unfoldable pub words : Text → List Text
words [] = []
words (c ∷ s) =
    let rest = words s in
    if is_space c then rest else if in_word s then push_char c rest else (c ∷ []) ∷ rest

-- s.replace(a, b), for characters
abbrev pub replace_char : ℕ → ℕ → Text → Text
replace_char a b = map (λ c. if eqb c a then b else c)

-- the list comprehension
unfoldable pub sentences : Text → List Text
unfolding split strip
sentences text =
    keep (λ s. truthy (strip s)) (split b'.' (replace_char b'?' b'.' (replace_char b'!' b'.' text)))

abbrev pub stats : Text → Fields
stats text = field (codes "characters") (int (length text)) (
    field (codes "words") (int (length (words text)))
      (field (codes "sentences") (int (length (sentences text))) end))

-- what is no text has no `split`
abbrev pub stats_of : Option Json → Handled
stats_of (some (str text)) = output (stats text)
stats_of o = failure

unfoldable pub text_stats : Json → Handled
unfolding words sentences
text_stats (obj payload) = stats_of (get_field (codes "text") payload)
text_stats payload = failure
