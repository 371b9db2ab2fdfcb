-- ===== src/Samples/TextStats/Counts.antt =====
-- The words and the sentences of a text, counted in one pass over its characters.
use agent_features.Common.{
  ℕ, ◌+◌, ◌≤◌, ◌≡◌, refl, sym, ap, ◌∙◌, List, [], ◌∷◌, Bool, true, false, not, ◌||◌, eqb, length,
  keep, any, if◌then◌else◌, Bool-cases, inl, inr, arith,
}
use agent_features.Common.Text.{
  Text, is_space, push_char, split, strip, lstrip, rstrip, cons_stripped, truthy,
}
use agent_features.Samples.TextStats.{in_word, words, replace_char, sentences}

abbrev one_if : Bool → ℕ
one_if b = if b then 1 else 0

-- the characters that begin a word: no white space, and behind white space or at the start
abbrev pub word_starts : (gap : Bool) → Text → ℕ
word_starts gap [] = 0
word_starts gap (c ∷ s) =
    if is_space c then word_starts true s else one_if gap + word_starts false s

abbrev pub is_end : ℕ → Bool
is_end c = eqb c b'.' || (eqb c b'!' || eqb c b'?')

-- the ends of sentences, with the end of the text, that have something to say before them: a
-- character other than white space, behind the end before
abbrev pub sentence_ends : (said : Bool) → Text → ℕ
sentence_ends said [] = one_if said
sentence_ends said (c ∷ s) =
    if is_end c
    then one_if said + sentence_ends false s
    else sentence_ends (said || not (is_space c)) s

record Counted (s : Text) : Type 0 where
  behind : word_starts true s ≡ length (words s)
  within : word_starts false s + one_if (in_word s) ≡ length (words s)
  begun : in_word s ≡ true → 1 ≤ length (words s)

pub length-push_char :
    (c : ℕ) (ps : List Text) → 1 ≤ length ps → length (push_char c ps) ≡ length ps
length-push_char c [] h = omega (arith, h)
length-push_char c (p ∷ ps) h = refl

pub push_char-one : (c : ℕ) (ps : List Text) → 1 ≤ length (push_char c ps)
push_char-one c [] = omega arith
push_char-one c (p ∷ ps) = omega arith

words-Counted : (s : Text) → Counted s
unfolding words
words-Counted [] = record { behind = refl; within = refl; begun = λ h. ground arith }
words-Counted (c ∷ s) =
    let n = words-Counted s in
    record {
      behind = ground (arith, n.behind, n.within, n.begun, length-push_char c (words s));
      within = ground (arith, n.behind, n.within, n.begun, length-push_char c (words s));
      begun = λ h. ground (arith, h, push_char-one c (words s));
    }

pub length-words : (s : Text) → length (words s) ≡ word_starts true s
length-words s = sym (words-Counted s).behind

abbrev says : Text → Bool
says = any (λ c. not (is_space c))

truthy-lstrip : (s : Text) → truthy (lstrip s) ≡ says s
truthy-lstrip [] = refl
truthy-lstrip (c ∷ s) = ground (arith, truthy-lstrip s)

says-cons_stripped : (c : ℕ) (s : Text) → says (cons_stripped c s) ≡ not (is_space c) || says s
says-cons_stripped c [] = ground arith
says-cons_stripped c (d ∷ s) = refl

says-rstrip : (s : Text) → says (rstrip s) ≡ says s
says-rstrip [] = refl
says-rstrip (c ∷ s) =
    says-cons_stripped c (rstrip s) ∙ ap (λ b. not (is_space c) || b) (says-rstrip s)

truthy-strip : (s : Text) → truthy (strip s) ≡ says s
unfolding strip
truthy-strip s = truthy-lstrip (rstrip s) ∙ says-rstrip s

keep_same :
    (p q : Text → Bool) → ((s : Text) → p s ≡ q s) → (ss : List Text) → keep p ss ≡ keep q ss
keep_same p q e [] = refl
keep_same p q e (s ∷ ss) = rw (e s, keep_same p q e ss) refl

-- the parts of a cut text that say something, with what stands before the first
abbrev told : Bool → List Text → ℕ
told said [] = one_if said
told said (p ∷ ps) = one_if (said || says p) + length (keep says ps)

told-false : (ps : List Text) → told false ps ≡ length (keep says ps)
told-false [] = refl
told-false (p ∷ ps) = ground arith

told-push_char :
    (said : Bool) (c : ℕ) (ps : List Text)
    → told said (push_char c ps) ≡ told (said || not (is_space c)) ps
told-push_char said c [] = ground arith
told-push_char said c (p ∷ ps) = ground arith

abbrev dotted : Text → Text
dotted s = replace_char b'?' b'.' (replace_char b'!' b'.' s)

-- what becomes of a character
abbrev dot : ℕ → ℕ
dot c = let d = if eqb c b'!' then b'.' else c in if eqb d b'?' then b'.' else d

dot_end : (c : ℕ) → is_end c ≡ true → eqb (dot c) b'.' ≡ true
dot_end c h = ground arith

dot_other : (c : ℕ) → is_end c ≡ false → dot c ≡ c
dot_other c h = ground arith

no_dot : (c : ℕ) → is_end c ≡ false → eqb c b'.' ≡ false
no_dot c h = ground arith

split-dotted :
    (c : ℕ) (s : Text)
    → split b'.' (dotted (c ∷ s))
      ≡ (if is_end c then [] ∷ split b'.' (dotted s) else push_char c (split b'.' (dotted s)))
unfolding split
split-dotted c s = elim (Bool-cases (is_end c)) [
  | inl h ↦ ground (arith, dot_end c h)
  | inr h ↦ ground (arith, dot_other c h, no_dot c h)
]

sentence_ends-told :
    (said : Bool) (s : Text) → sentence_ends said s ≡ told said (split b'.' (dotted s))
sentence_ends-told true [] = unfold split in refl
sentence_ends-told false [] = unfold split in refl
sentence_ends-told said (c ∷ s) =
    let rest = split b'.' (dotted s) in
    rw (split-dotted c s) (elim (Bool-cases (is_end c)) [
      | inl h ↦ rw (h, sentence_ends-told false s, told-false rest) (ended said rest)
      | inr h ↦
          rw h (sentence_ends-told (said || not (is_space c)) s ∙ sym (told-push_char said c rest))
    ])
  where
    ended : (b : Bool) (ps : List Text) → one_if b + length (keep says ps) ≡ told b ([] ∷ ps)
    ended true ps = refl
    ended false ps = refl

pub length-sentences : (s : Text) → length (sentences s) ≡ sentence_ends false s
unfolding sentences
length-sentences s =
    ap length (keep_same (λ t. truthy (strip t)) says truthy-strip (split b'.' (dotted s)))
    ∙ (sym (told-false (split b'.' (dotted s))) ∙ sym (sentence_ends-told false s))
