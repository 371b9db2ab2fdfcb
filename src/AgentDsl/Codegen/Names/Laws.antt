-- ===== src/AgentDsl/Codegen/Names/Laws.antt =====
-- Which characters are in the names that gateway/agentdsl.py makes.
use agent_features.Common.{ℕ, ◌≡◌, Bool, true, ◌||◌, ◌&&◌, leb, eqb, All}
use agent_features.Common.Text.{Text, truthy, is_digit}

-- a letter or a digit
abbrev pub is_alnum : ℕ → Bool
is_alnum c = (leb b'A' c && leb c b'Z') || ((leb b'a' c && leb c b'z') || is_digit c)

abbrev pub Alnum : Text → Type 0
Alnum = All (λ c. is_alnum c ≡ true)

-- a letter, a digit or an underscore
abbrev pub Identifier : Text → Type 0
Identifier = All (λ c. (is_alnum c || eqb c b'_') ≡ true)

-- a part of a name: it has a character, and each is a letter or a digit
abbrev IsPart : Text → Type 0
IsPart p = (truthy p ≡ true) × Alnum p
