-- ===== src/AgentDsl/Codegen/Names.antt =====
-- The names that gateway/agentdsl.py makes of an agent's name.
pub mod Laws
use agent_features.Common.{
  ℕ, ◌-◌, List, [], ◌∷◌, ◌++◌, map, Bool, ◌&&◌, ◌||◌, leb, eqb, if◌then◌else◌, keep,
}
use agent_features.Common.Text.{Text, truthy, lower, join, push_char}

-- [-_]
abbrev pub is_separator : ℕ → Bool
is_separator c = eqb c b'-' || eqb c b'_'

-- re.split(r"[-_]", s)
unfoldable pub split_name : Text → List Text
split_name [] = [] ∷ []
split_name (c ∷ s) =
    let rest = split_name s in if is_separator c then [] ∷ rest else push_char c rest

-- `_parts`
unfoldable pub parts : Text → List Text
unfolding split_name
parts name = keep truthy (split_name name)

abbrev pub upper_char : ℕ → ℕ
upper_char c = if leb b'a' c && leb c b'z' then c - 32 else c

-- s.capitalize()
unfoldable pub capitalize : Text → Text
unfolding lower
capitalize [] = []
capitalize (c ∷ s) = upper_char c ∷ lower s

unfoldable pub joined : List Text → Text
joined = join []

-- `s or t`
abbrev pub or_text : Text → Text → Text
or_text [] t = t
or_text (c ∷ s) t = c ∷ s

abbrev pub camel_of : List Text → Text → Text
camel_of [] name = name
camel_of (p ∷ ps) name = lower p ++ joined (map capitalize ps)

-- `_camel`
unfoldable pub camel : Text → Text
unfolding parts lower capitalize joined
camel name = camel_of (parts name) name

-- `_pascal`
unfoldable pub pascal : Text → Text
unfolding parts capitalize joined
pascal name = or_text (joined (map capitalize (parts name))) name

-- `_snake`
unfoldable pub snake : Text → Text
unfolding parts join
snake name = or_text (join (b'_' ∷ []) (parts name)) name
