-- ===== src/Catalog/Browse/Laws.antt =====
-- What browsing keeps: the features that carry all the tags and mention the query.
use agent_features.Common.{
  ◌≡◌, refl, ◌↔◌, ◌⊎◌, inl, inr, Option, none, some, List, [], ◌∷◌, Bool, true, false, ◌||◌, any,
  and-true, All, Memᴰ-keep_iff, arith, Bool-cases,
}
use mathlib.Core.List.{Memᴰ}
use agent_features.Common.Text.{Text, contains, lower, mem}
use agent_features.Common.Text.Laws.{IsInfix, contains_iff, mem_iff}
use agent_features.Common.Sort.{IsSorted, sorted-IsSorted, Memᴰ-sorted_iff}
use agent_features.Models.{Feature}
use agent_features.Catalog.Browse.{has_tags, mentions, by_tags, by_query, name_order, browse}

-- every wanted tag is one of the feature's
abbrev pub HasTags : Option (List Text) → Feature → Type 0
HasTags none f = Unit
HasTags (some ts) f = All (λ t. Memᴰ t f.manifest.tags) ts

-- the query, in lower case, stands in the name, the description or a tag, in lower case
abbrev pub Mentions : Option Text → Feature → Type 0
Mentions none f = Unit
Mentions (some []) f = Unit
Mentions (some (c ∷ s)) f =
    let q = lower (c ∷ s) in
    IsInfix q (lower f.manifest.name)
    ⊎ (IsInfix q (lower f.manifest.description)
        ⊎ ((t : Text) × Memᴰ t f.manifest.tags × IsInfix q (lower t)))

has_tags_iff : (ts : List Text) (f : Feature) → (has_tags ts f ≡ true) ↔ HasTags (some ts) f
has_tags_iff [] f = (λ _. tt, λ _. refl)
has_tags_iff (t ∷ ts) f = (
  λ h.
      let (a, b) = and-true (mem t f.manifest.tags) _ h in
      ((mem_iff t f.manifest.tags).0 a, (has_tags_iff ts f).0 b),
  λ (a, b). rw ((mem_iff t f.manifest.tags).1 a) ((has_tags_iff ts f).1 b),
)

any_iff :
    (p : Text → Bool) (ts : List Text) → (any p ts ≡ true) ↔ ((t : Text) × Memᴰ t ts × (p t ≡ true))
any_iff p ts = (to ts, λ (t, m, h). from ts t m h)
  where
    to : (ts : List Text) → any p ts ≡ true → (t : Text) × Memᴰ t ts × (p t ≡ true)
    to [] h = absurd (ground arith)
    to (x ∷ xs) h = elim (Bool-cases (p x)) [
      | inl e ↦ (x, Memᴰ.head refl, e)
      | inr e ↦ let (t, m, k) = to xs (rw e at h) in (t, Memᴰ.tail m, k)
    ]

    from : (ts : List Text) (t : Text) → Memᴰ t ts → p t ≡ true → any p ts ≡ true
    from [] t m h = elim m [ ]
    from (x ∷ xs) t (Memᴰ.head e) h = let h' : p x ≡ true = rw (← e) h in rw h'
    from (x ∷ xs) t (Memᴰ.tail m) h = ground (arith, from xs t m h)

or_iff {ℓ κ} :
    (a b : Bool) {P : Type ℓ} {Q : Type κ}
    → (a ≡ true) ↔ P
    → (b ≡ true) ↔ Q
    → ((a || b) ≡ true) ↔ (P ⊎ Q)
or_iff true b p q = (λ _. inl (p.0 refl), λ _. refl)
or_iff false b p q =
    (λ h. inr (q.0 h), elim [ inl x ↦ absurd (ground (arith, p.1 x)) | inr y ↦ q.1 y ])

mentions_iff :
    (c : _) (s : Text) (f : Feature)
    → (mentions (lower (c ∷ s)) f ≡ true) ↔ Mentions (some (c ∷ s)) f
mentions_iff c s f =
    or_iff (contains q (lower f.manifest.name)) _ (contains_iff q (lower f.manifest.name)) (
      or_iff (contains q (lower f.manifest.description)) _
        (contains_iff q (lower f.manifest.description)) tags)
  where
    q : Text
    q = lower (c ∷ s)

    carries : Text → Bool
    carries t = contains q (lower t)

    tags :
        (any carries f.manifest.tags ≡ true)
        ↔ ((t : Text) × Memᴰ t f.manifest.tags × IsInfix q (lower t))
    tags = (
      λ h.
          let (t, m, k) = (any_iff carries f.manifest.tags).0 h in
          (t, m, (contains_iff q (lower t)).0 k),
      λ (t, m, k). (any_iff carries f.manifest.tags).1 (t, m, (contains_iff q (lower t)).1 k),
    )

by_tags_iff :
    (ts : Option (List Text)) (f : Feature) (fs : List Feature)
    → Memᴰ f (by_tags ts fs) ↔ (Memᴰ f fs × HasTags ts f)
by_tags_iff none f fs = (λ m. (m, tt), λ p. p.0)
by_tags_iff (some []) f fs = (λ m. (m, tt), λ p. p.0)
by_tags_iff (some (t ∷ ts)) f fs =
    let both = Memᴰ-keep_iff (has_tags (t ∷ ts)) f fs in
    let tags = has_tags_iff (t ∷ ts) f in
    (λ m. let (a, b) = both.0 m in (a, tags.0 b), λ (a, b). both.1 (a, tags.1 b))

by_query_iff :
    (query : Option Text) (f : Feature) (fs : List Feature)
    → Memᴰ f (by_query query fs) ↔ (Memᴰ f fs × Mentions query f)
by_query_iff none f fs = (λ m. (m, tt), λ p. p.0)
by_query_iff (some []) f fs = (λ m. (m, tt), λ p. p.0)
by_query_iff (some (c ∷ s)) f fs =
    let both = Memᴰ-keep_iff (mentions (lower (c ∷ s))) f fs in
    let asked = mentions_iff c s f in
    (λ m. let (a, b) = both.0 m in (a, asked.0 b), λ (a, b). both.1 (a, asked.1 b))

-- Browsing lists exactly the features that carry every wanted tag and mention the query, where
-- case does not count and a tag list or query that is None or empty asks for nothing.
pub browse_iff :
    (fs : List Feature) (query : Option Text) (tags : Option (List Text)) (f : Feature)
    → Memᴰ f (browse fs query tags) ↔ (Memᴰ f fs × HasTags tags f × Mentions query f)
unfolding browse
browse_iff fs query tags f =
    let sorting = Memᴰ-sorted_iff name_order.lt f (by_query query (by_tags tags fs)) in
    let asked = by_query_iff query f (by_tags tags fs) in
    let tagged = by_tags_iff tags f fs in
    (
      λ m. let (a, b) = asked.0 (sorting.0 m) in let (c, d) = tagged.0 a in (c, d, b),
      λ (a, b, c). sorting.1 (asked.1 (tagged.1 (a, b), c)),
    )

-- The list is in alphabetical order of the names.
pub browse-IsSorted :
    (fs : List Feature) (query : Option Text) (tags : Option (List Text))
    → IsSorted name_order.lt (browse fs query tags)
unfolding browse
browse-IsSorted fs query tags = sorted-IsSorted name_order _
