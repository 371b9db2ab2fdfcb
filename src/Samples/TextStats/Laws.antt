-- ===== src/Samples/TextStats/Laws.antt =====
-- How many words and sentences a text can have.
use agent_features.Common.{
  ℕ, suc, ◌+◌, ◌*◌, ◌≤◌, ◌≡◌, refl, List, [], ◌∷◌, Bool, true, false, eqb, length, keep,
  if◌then◌else◌, if-both, ap, some, arith,
}
use agent_features.Common.Text.{Text, push_char, codes, split, strip, truthy}
use agent_features.Common.Json.{str, int, obj, Fields, end, field, get_field}
use agent_features.Invoker.Local.{output}
use agent_features.Samples.TextStats.{in_word, words, replace_char, sentences, stats_of, text_stats}
use agent_features.Samples.TextStats.Counts.{
  word_starts, sentence_ends, length-words, length-sentences, length-push_char, push_char-one,
}

-- a text that begins with a word has one
in_word-one : (s : Text) → in_word s ≡ true → 1 ≤ length (words s)
unfolding words
in_word-one [] h = ground arith
in_word-one (c ∷ s) h = ground (arith, push_char-one c (words s))

words_bound : (s : Text) → 2 * length (words s) ≤ length s + (if in_word s then 1 else 0)
unfolding words
words_bound [] = omega arith
words_bound (c ∷ s) = ground (arith, words_bound s, in_word-one s, length-push_char c (words s))

-- the length of the first part, and twice the parts behind it that are kept
unfoldable spent : (Text → Bool) → List Text → ℕ
spent p [] = 0
spent p (s ∷ ss) = length s + 2 * length (keep p ss)

kept_spent :
    (p : Text → Bool) (ss : List Text) → p [] ≡ false → 2 * length (keep p ss) ≤ spent p ss + 1
unfolding spent
kept_spent p [] e = omega arith
kept_spent p ([] ∷ ss) e = ground (arith, e)
kept_spent p ((c ∷ s) ∷ ss) e = ground arith

push_char-spent :
    (p : Text → Bool) (c : ℕ) (ss : List Text) → spent p (push_char c ss) ≤ suc (spent p ss)
unfolding spent
push_char-spent p c [] = omega arith
push_char-spent p c (s ∷ ss) = omega arith

split_bound :
    (p : Text → Bool) (sep : ℕ) (s : Text) → p [] ≡ false → spent p (split sep s) ≤ length s
unfolding split spent
split_bound p sep [] e = omega arith
split_bound p sep (c ∷ s) e =
    let rest = split_bound p sep s e in
    if-both (λ ss. spent p ss ≤ suc (length s)) (eqb c sep)
      (omega (arith, rest, kept_spent p (split sep s) e))
      (omega (arith, rest, push_char-spent p c (split sep s)))

length-replace_char : (a b : ℕ) (s : Text) → length (replace_char a b s) ≡ length s
length-replace_char a b [] = refl
length-replace_char a b (c ∷ s) = omega (arith, length-replace_char a b s)

sentences_bound : (s : Text) → 2 * length (sentences s) ≤ length s + 1
unfolding sentences
sentences_bound s =
    let dots = replace_char b'?' b'.' (replace_char b'!' b'.' s) in
    let good : Text → Bool = λ t. truthy (strip t) in
    let nothing : good [] ≡ false = (unfold strip in refl) in
    omega (
      arith,
      split_bound good b'.' dots nothing,
      kept_spent good (split b'.' dots) nothing,
      length-replace_char b'?' b'.' (replace_char b'!' b'.' s),
      length-replace_char b'!' b'.' s,
    )

-- For an input with a text: the handler answers with the number of its characters; with the number
-- of its words, which are the places where a character other than white space stands at the start
-- or behind white space; and with the number of its sentences, which are the ends (`.`, `!`, `?`,
-- and the end of the text) that have a character other than white space between them and the end
-- before. Neither number is more than half of the characters, rounded up.
pub text_stats_bounds :
    (payload : Fields) (text : Text)
    → get_field (codes "text") payload ≡ some (str text)
    → (text_stats (obj payload)
        ≡ output (
            field (codes "characters") (int (length text)) (
              field
                (codes "words")
                (int (word_starts true text))
                (field (codes "sentences") (int (sentence_ends false text)) end))))
      × (2 * word_starts true text ≤ length text + 1)
      × (2 * sentence_ends false text ≤ length text + 1)
unfolding text_stats
text_stats_bounds payload text h =
    rw (← length-words text, ← length-sentences text)
      (
        ap stats_of h,
        omega (
          arith,
          words_bound text,
          if-both (λ k. k ≤ 1) (in_word text) {x = 1} {y = 0} (omega arith) (omega arith),
        ),
        sentences_bound text,
      )
