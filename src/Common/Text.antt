-- ===== src/Common/Text.antt =====
-- Python's `str` as a list of code points, with the methods that the gateway calls. The classes of
-- characters (digits, white space, letters with a lower case) are those of ASCII: beyond it a
-- character is no digit, no space, and its own lower case.
pub mod Laws
use Prim.Native.Nat.{ℕ, zero, suc, ◌+◌, ◌-◌, ◌*◌, ◌/◌, ◌%◌}
use Prim.Native.Char.{code}
use Prim.Native.String.{String}
use mathlib.Core.Bool.{Bool, true, false, not, ◌&&◌, ◌||◌}
use mathlib.Core.Option.{Option, none, some}
use mathlib.Core.List.{List, [], ◌∷◌, ◌++◌, map}
use agent_features.Common.Tests.{leb, ltb, eqb, if◌then◌else◌}
use agent_features.Common.Lists.{all}
use agent_features.Common.Order.{WeakOrder, nat_order, list_order}

abbrev pub Text : Type 0
Text = List ℕ

-- the code points of a literal
abbrev pub codes : String → Text
codes String.[] = []
codes (String.◌∷◌ c s) = code c ∷ codes s

infix 50 ◌==◌
abbrev pub ◌==◌ : Text → Text → Bool
[] == [] = true
[] == (y ∷ ys) = false
(x ∷ xs) == [] = false
(x ∷ xs) == (y ∷ ys) = eqb x y && xs == ys

-- `<` on texts goes by code points
abbrev pub text_order : WeakOrder Text
text_order = list_order nat_order

-- the truth of a text
abbrev pub truthy : Text → Bool
truthy [] = false
truthy (c ∷ s) = true

-- the truth of a text that may be None
abbrev pub truthy? : Option Text → Bool
truthy? none = false
truthy? (some s) = truthy s

-- `t in texts`
abbrev pub mem : Text → List Text → Bool
mem t [] = false
mem t (x ∷ xs) = x == t || mem t xs

abbrev pub starts_with : Text → Text → Bool
starts_with s [] = true
starts_with [] (p ∷ ps) = false
starts_with (c ∷ s) (p ∷ ps) = eqb c p && starts_with s ps

-- `q in s`, for texts
abbrev pub contains : Text → Text → Bool
contains q [] = starts_with [] q
contains q (c ∷ s) = starts_with (c ∷ s) q || contains q s

-- s[n:] where n is the length of a prefix
abbrev pub after : Text → Text → Text
after [] s = s
after (p ∷ ps) [] = []
after (p ∷ ps) (c ∷ s) = after ps s

abbrev pub push_char : ℕ → List Text → List Text
push_char c [] = (c ∷ []) ∷ []
push_char c (p ∷ ps) = (c ∷ p) ∷ ps

-- s.split(sep), for one character
unfoldable pub split : ℕ → Text → List Text
split sep [] = [] ∷ []
split sep (c ∷ s) = let rest = split sep s in if eqb c sep then [] ∷ rest else push_char c rest

abbrev pub on_head : ℕ → Text × Text → Text × Text
on_head c (head, tail) = (c ∷ head, tail)

-- s.partition(sep), for one character, without the separator
unfoldable pub partition : ℕ → Text → Text × Text
partition sep [] = ([], [])
partition sep (c ∷ s) = let rest = partition sep s in if eqb c sep then ([], s) else on_head c rest

-- sep.join(parts)
unfoldable pub join : Text → List Text → Text
join sep [] = []
join sep (p ∷ []) = p
join sep (p ∷ q ∷ ps) = p ++ sep ++ join sep (q ∷ ps)

abbrev pub is_space : ℕ → Bool
is_space c = (leb 9 c && leb c 13) || (leb 28 c && leb c 32)

abbrev pub lstrip : Text → Text
lstrip [] = []
lstrip (c ∷ s) = if is_space c then lstrip s else c ∷ s

-- puts a character in front, unless it is white space that would end the text
abbrev pub cons_stripped : ℕ → Text → Text
cons_stripped c [] = if is_space c then [] else c ∷ []
cons_stripped c (d ∷ s) = c ∷ d ∷ s

abbrev pub rstrip : Text → Text
rstrip [] = []
rstrip (c ∷ s) = cons_stripped c (rstrip s)

unfoldable pub strip : Text → Text
strip s = lstrip (rstrip s)

abbrev pub is_digit : ℕ → Bool
is_digit c = leb b'0' c && leb c b'9'

-- s.isdigit(): false on the empty text
abbrev pub isdigit : Text → Bool
isdigit [] = false
isdigit (c ∷ s) = is_digit c && all is_digit s

abbrev pub int_from : ℕ → Text → ℕ
int_from n [] = n
int_from n (c ∷ s) = int_from (n * 10 + (c - b'0')) s

-- int(s), for a text of digits
abbrev pub int_of : Text → ℕ
int_of = int_from 0

abbrev pub lower_char : ℕ → ℕ
lower_char c = if leb b'A' c && leb c b'Z' then c + 32 else c

unfoldable pub lower : Text → Text
lower = map lower_char

-- the digits of a number in front of a text, with fuel for more divisions than there are digits
abbrev pub digits : ℕ → ℕ → Text → Text
digits zero n acc = acc
digits (suc fuel) n acc =
    let acc' = (b'0' + n % 10) ∷ acc in
    let rest = digits fuel (n / 10) acc' in if ltb n 10 then acc' else rest

-- str(n)
unfoldable pub show : ℕ → Text
show n = digits (suc n) n []

-- where `splitlines` breaks a text
abbrev pub is_break : ℕ → Bool
is_break c =
    (leb 10 c && leb c 13) || ((leb 28 c && leb c 30) || (eqb c 133 || (eqb c 8232 || eqb c 8233)))

-- s.splitlines(): a carriage return before a line feed is part of one break
unfoldable pub splitlines : Text → List Text
splitlines [] = []
splitlines (c ∷ s) =
    let rest = splitlines s in
    if eqb c b'\r' && starts_with s (b'\n' ∷ [])
    then rest
    else if is_break c
    then [] ∷ rest
    else push_char c rest

abbrev pub lstrip_char : ℕ → Text → Text
lstrip_char q [] = []
lstrip_char q (c ∷ s) = if eqb c q then lstrip_char q s else c ∷ s

abbrev pub cons_stripped_char : ℕ → ℕ → Text → Text
cons_stripped_char q c [] = if eqb c q then [] else c ∷ []
cons_stripped_char q c (d ∷ s) = c ∷ d ∷ s

abbrev pub rstrip_char : ℕ → Text → Text
rstrip_char q [] = []
rstrip_char q (c ∷ s) = cons_stripped_char q c (rstrip_char q s)

-- s.strip(q), for one character
unfoldable pub strip_char : ℕ → Text → Text
strip_char q s = lstrip_char q (rstrip_char q s)
