-- ===== src/Catalog/Rank/Resolve.antt =====
-- What `resolve_feature` picks, and when it picks nothing.
use agent_features.Common.{
  ◌⊎◌, inl, inr, Option-cases, ◌≡◌, refl, sym, ◌∙◌, ◌↔◌, Option, none, some, List, [], ◌∷◌, Bool,
  true, false, ◌&&◌, arith, All, All-map, and-true, keep, keep-keep,
}
use mathlib.Core.Bool.{false≢true}
use mathlib.Core.List.{Memᴰ}
use agent_features.Common.Text.{Text, ◌==◌}
use agent_features.Common.Text.Laws.{eq_iff}
use agent_features.Common.Sort.Best.{head?-sorted-keep, head?-sorted-keep-none}
use agent_features.Models.{Feature}
use agent_features.Catalog.Version.{match_version}
use agent_features.Catalog.Rank.{honour, candidates, rank_order, resolve_feature}

-- a pin that is None or empty asks for nothing
abbrev pub Honours : Option Text → (Text → Type 0) → Type 0
Honours none P = Unit
Honours (some []) P = Unit
Honours (some (c ∷ s)) P = P (c ∷ s)

pub record IsCandidate (capability : Text) (version vendor : Option Text) (f : Feature)
    : Type 0 where
  pub provides : f.manifest.capability ≡ capability
  pub vendor_pin : Honours vendor (λ v. f.manifest.vendor ≡ v)
  pub version_pin : Honours version (λ s. match_version f.manifest.version s ≡ true)

abbrev pub honours : Option Text → (Text → Bool) → Bool
honours none test = true
honours (some []) test = true
honours (some (c ∷ s)) test = test (c ∷ s)

-- the three filters as one test
abbrev pub is_candidate : Text → (version vendor : Option Text) → Feature → Bool
is_candidate capability version vendor f =
    ((f.manifest.capability == capability) && honours vendor (λ v. f.manifest.vendor == v))
    && honours version (λ s. match_version f.manifest.version s)

and-true_right : (b : Bool) → (b && true) ≡ b
and-true_right b = ground arith

honour-keep :
    (o : Option Text) (test : Text → Feature → Bool) (p : Feature → Bool) (fs : List Feature)
    → honour o test (keep p fs) ≡ keep (λ f. p f && honours o (λ t. test t f)) fs
unfolding honour
honour-keep none test p fs = simp and-true_right
honour-keep (some []) test p fs = simp and-true_right
honour-keep (some (c ∷ s)) test p fs = keep-keep p (test (c ∷ s)) fs

pub candidates-keep :
    (fs : List Feature) (capability : Text) (version vendor : Option Text)
    → candidates fs capability version vendor ≡ keep (is_candidate capability version vendor) fs
unfolding candidates
candidates-keep fs capability version vendor =
    rw honour-keep (honour-keep version (λ s f. match_version f.manifest.version s) _ fs)

honours→Honours :
    (o : Option Text) (test : Text → Bool) (P : Text → Type 0)
    → ((t : Text) → (test t ≡ true) ↔ P t)
    → (honours o test ≡ true) ↔ Honours o P
honours→Honours none test P h = (λ _. tt, λ _. refl)
honours→Honours (some []) test P h = (λ _. tt, λ _. refl)
honours→Honours (some (c ∷ s)) test P h = h (c ∷ s)

pub is_candidate_iff :
    (capability : Text) (version vendor : Option Text) (f : Feature)
    → (is_candidate capability version vendor f ≡ true) ↔ IsCandidate capability version vendor f
is_candidate_iff capability version vendor f = (to, from)
  where
    provides : ((f.manifest.capability == capability) ≡ true) ↔ (f.manifest.capability ≡ capability)
    provides = eq_iff f.manifest.capability capability

    vendors :
        (honours vendor (λ v. f.manifest.vendor == v) ≡ true)
        ↔ Honours vendor (λ v. f.manifest.vendor ≡ v)
    vendors = honours→Honours vendor _ _ (eq_iff f.manifest.vendor)

    versions :
        (honours version (λ s. match_version f.manifest.version s) ≡ true)
        ↔ Honours version (λ s. match_version f.manifest.version s ≡ true)
    versions = honours→Honours version _ _ (λ t. (λ e. e, λ e. e))

    to : is_candidate capability version vendor f ≡ true → IsCandidate capability version vendor f
    to h =
        let p = and-true _ _ h in
        let q = and-true _ _ p.0 in
        record {
          provides = provides.0 q.0;
          vendor_pin = vendors.0 q.1;
          version_pin = versions.0 p.1;
        }

    from : IsCandidate capability version vendor f → is_candidate capability version vendor f ≡ true
    from c = rw (provides.1 c.provides, vendors.1 c.vendor_pin) (versions.1 c.version_pin)

-- a feature of the list that is eligible, and before which no eligible one ranks
pub record IsPicked (fs : List Feature) (capability : Text) (version vendor : Option Text)
    (f : Feature) : Type 0 where
  pub listed : Memᴰ f fs
  pub candidate : IsCandidate capability version vendor f
  pub best : All (λ g. IsCandidate capability version vendor g → rank_order.lt g f ≡ false) fs

-- What `resolve_feature` returns is one of the features, provides the capability and meets the
-- pins, and no other feature that does so ranks before it.
pub resolve_feature-IsPicked :
    (fs : List Feature) (capability : Text) (version vendor : Option Text) (f : Feature)
    → resolve_feature fs capability version vendor ≡ some f
    → IsPicked fs capability version vendor f
unfolding resolve_feature
resolve_feature-IsPicked fs capability version vendor f e =
    let b =
      head?-sorted-keep rank_order (is_candidate capability version vendor) fs
        (rw candidates-keep at e) in
    record {
      listed = b.listed;
      candidate = (is_candidate_iff capability version vendor f).0 b.selected;
      best = All-map (λ g h c. h ((is_candidate_iff capability version vendor g).1 c)) fs b.least;
    }

-- `resolve_feature` returns None exactly when no feature provides the capability and meets the
-- pins.
pub resolve_feature-none_iff :
    (fs : List Feature) (capability : Text) (version vendor : Option Text)
    → (resolve_feature fs capability version vendor ≡ none)
      ↔ All (λ f. ¬ IsCandidate capability version vendor f) fs
unfolding resolve_feature
resolve_feature-none_iff fs capability version vendor =
    let (to, from) =
      head?-sorted-keep-none rank_order (is_candidate capability version vendor) fs in
    (
      λ e.
          All-map (λ f h c. absurd (false≢true (sym h ∙ (iff f).1 c))) fs
            (to (rw candidates-keep at e)),
      λ h. rw candidates-keep (from (All-map (λ f n. not_true _ (λ e. n ((iff f).0 e))) fs h)),
    )
  where
    iff :
        (f : Feature)
        → (is_candidate capability version vendor f ≡ true)
          ↔ IsCandidate capability version vendor f
    iff = is_candidate_iff capability version vendor

    not_true : (b : Bool) → ¬ (b ≡ true) → b ≡ false
    not_true b n = ground arith

-- `resolve_feature` returns one of the features that provides the capability and meets the pins,
-- and no other feature that does so ranks before it; or it returns None, and no feature provides
-- the capability and meets the pins.
pub resolve_feature-Resolved :
    (fs : List Feature) (capability : Text) (version vendor : Option Text)
    → ((f : Feature) × (resolve_feature fs capability version vendor ≡ some f)
        × IsPicked fs capability version vendor f)
      ⊎ ((resolve_feature fs capability version vendor ≡ none)
          × All (λ f. ¬ IsCandidate capability version vendor f) fs)
resolve_feature-Resolved fs capability version vendor =
    elim (Option-cases (resolve_feature fs capability version vendor)) [
      | inl e ↦ inr (e, (resolve_feature-none_iff fs capability version vendor).0 e)
      | inr (f, e) ↦ inl (f, e, resolve_feature-IsPicked fs capability version vendor f e)
    ]
