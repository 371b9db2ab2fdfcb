-- ===== src/AgentDsl/Printed/Lines.antt =====
-- Lines that the parser takes as they are: without a comment or a break, and with no white space
-- around them.
use agent_features.Common.{
  ℕ, ◌≡◌, refl, ap, ◌∙◌, [], ◌∷◌, ◌++◌, Bool, true, false, not, ◌&&◌, eqb, all, All, and-true,
  arith,
}
use agent_features.Common.Text.{
  Text, truthy, is_break, push_char, partition, on_head, rstrip, cons_stripped, lstrip, strip,
  splitlines,
}
use agent_features.AgentDsl.{statement}
use agent_features.AgentDsl.Patterns.{in_name, in_ref}
use agent_features.AgentDsl.Patterns.Laws.{IsWord}

abbrev clean : ℕ → Bool
clean c = not (is_break c) && not (eqb c b'#')

abbrev pub Clean : Text → Type 0
Clean s = all clean s ≡ true

pub append-Clean : (s t : Text) → Clean s → Clean t → Clean (s ++ t)
append-Clean [] t hs ht = ht
append-Clean (c ∷ s) t hs ht = ground (arith, append-Clean s t)

in_ref-clean : (c : ℕ) → in_ref c ≡ true → clean c ≡ true
in_ref-clean c h = ground arith

refs-Clean : (s : Text) → All (λ c. in_ref c ≡ true) s → Clean s
refs-Clean [] h = refl
refs-Clean (c ∷ s) h = ground (arith, in_ref-clean c h.0, refs-Clean s h.1)

-- a text that does not end in white space, and is not empty
abbrev pub Ends : Text → Type 0
Ends s = (truthy s ≡ true) × (rstrip s ≡ s)

pub cons-Ends : (c : ℕ) (s : Text) → Ends s → Ends (c ∷ s)
cons-Ends c [] h = absurd (ground arith)
cons-Ends c (d ∷ s) h = (refl, ap (cons_stripped c) h.1)

pub append-Ends : (s t : Text) → Ends t → Ends (s ++ t)
append-Ends [] t h = h
append-Ends (c ∷ s) t h = cons-Ends c (s ++ t) (append-Ends s t h)

refs-Ends : (c : ℕ) (s : Text) → in_ref c ≡ true → All (λ c. in_ref c ≡ true) s → Ends (c ∷ s)
refs-Ends c [] hc h = (refl, ground (arith, hc))
refs-Ends c (d ∷ s) hc h = cons-Ends c (d ∷ s) (refs-Ends d s h.0 h.1)

All-in_ref : (s : Text) → All (λ c. in_name c ≡ true) s → All (λ c. in_ref c ≡ true) s
All-in_ref [] h = tt
All-in_ref (c ∷ s) h = (ground (arith, h.0), All-in_ref s h.1)

pub ref-Clean : (s : Text) → IsWord in_ref s → Clean s
ref-Clean [] h = elim h [ ]
ref-Clean (c ∷ s) h = refs-Clean (c ∷ s) (ground (arith, h.0), h.1)

pub ref-Ends : (s : Text) → IsWord in_ref s → Ends s
ref-Ends [] h = elim h [ ]
ref-Ends (c ∷ s) h = refs-Ends c s (ground (arith, h.0)) h.1

pub name-ref : (s : Text) → IsWord in_name s → IsWord in_ref s
name-ref [] h = elim h [ ]
name-ref (c ∷ s) h = (h.0, All-in_ref s h.1)

partition-Clean : (s : Text) → Clean s → partition b'#' s ≡ (s, [])
unfolding partition
partition-Clean [] h = refl
partition-Clean (c ∷ s) h =
    let (now, later) = and-true (clean c) (all clean s) h in
    let other : eqb c b'#' ≡ false = ground (arith, now) in
    rw other (ap (on_head c) (partition-Clean s later))

pub strip-Ends : (s : Text) → Ends s → lstrip s ≡ s → strip s ≡ s
unfolding strip
strip-Ends s h front = ap lstrip h.1 ∙ front

pub statement-Clean : (s : Text) → Clean s → Ends s → lstrip s ≡ s → statement s ≡ s
statement-Clean s h e front = ap (λ p. strip p.0) (partition-Clean s h) ∙ strip-Ends s e front

pub splitlines-Clean :
    (s rest : Text) → Clean s → splitlines (s ++ b'\n' ∷ rest) ≡ s ∷ splitlines rest
unfolding splitlines
splitlines-Clean [] rest h = refl
splitlines-Clean (c ∷ s) rest h =
    let (now, later) = and-true (clean c) (all clean s) h in
    let no_break : is_break c ≡ false = ground (arith, now) in
    let no_return : eqb c b'\r' ≡ false = ground (arith, now) in
    rw no_return (rw no_break (ap (push_char c) (splitlines-Clean s rest later)))
