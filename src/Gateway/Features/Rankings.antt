-- ===== src/Gateway/Features/Rankings.antt =====
-- The three routes of a capability against each other.
use agent_features.Common.{
  ◌≡◌, refl, sym, ap, ◌∙◌, ◌⊎◌, inl, inr, none, List, ◌∷◌, map, List-cases, subst,
}
use mathlib.Core.List.{Perm, cons≢nil}
use mathlib.Core.List.Perm
use agent_features.Common.Text.{Text}
use agent_features.Common.Floats.{Floats}
use agent_features.Models.{Feature, InvokeRequest}
use agent_features.Ranking.Policy.{rank}
use agent_features.Ranking.Policy.Laws.{rank-perm}
use agent_features.Gateway.{App, State, ok, http_error, Detail, providers, ranked}
use agent_features.Gateway.Features.{
  unless_empty, get_capability, provider_score, capability_ranking, invoke, invoke_capability,
  no_provider,
}
use agent_features.Gateway.Features.Laws.{invoke_capability-ranked}

module _ {fl : Floats} {W : Type 0} (app : App fl W) where
  open fl use {Float}

  -- The routes of a capability agree. Either all three respond 404, or the list of the providers
  -- begins with a feature, the ranking shows the scores of the same features in the same order, and
  -- an invocation without pins invokes the first of them.
  pub invoke_capability-get_capability :
      (capability : Text) (body : InvokeRequest) (s : State Float W)
      → (((d : Detail) × (get_capability app capability s ≡ http_error 404 d)
            × (capability_ranking app capability s ≡ http_error 404 d))
          × (invoke_capability app capability body none none s
              ≡ (http_error 404 (no_provider capability none none), s)))
        ⊎ ((f : Feature) × (fs : List Feature) × (get_capability app capability s ≡ ok (f ∷ fs))
            × (capability_ranking app capability s ≡ ok (map (provider_score app s) (f ∷ fs)))
            × (invoke_capability app capability body none none s ≡ invoke app f body s))
  unfolding get_capability capability_ranking
  invoke_capability-get_capability capability body s = elim (List-cases ps) [
    | inl e ↦ inl (
      (
        _,
        ap (λ q. unless_empty q capability l) e,
        ap (λ q. unless_empty q capability (map (provider_score app s) l)) e,
      ),
      invoke_capability-ranked app capability body none none s
          (l_ranked ∙ Perm.eq-nil (subst (λ q. Perm l q) e perm)),
    )
    | inr (p, qs, e) ↦ elim (List-cases l) [
      | inl n ↦ absurd (cons≢nil (sym e ∙ sym (Perm.nil-eq (subst (λ q. Perm q ps) n perm))))
      | inr (f, fs, h) ↦ inr (
        f,
        fs,
        ap (λ q. unless_empty q capability l) e ∙ ap ok h,
        ap (λ q. unless_empty q capability (map (provider_score app s) l)) e
            ∙ ap (λ q. ok (map (provider_score app s) q)) h,
        invoke_capability-ranked app capability body none none s (l_ranked ∙ h),
      )
    ]
  ]
    where
      ps : List Feature
      ps = providers app capability none none s.world

      l : List Feature
      l = rank fl app.policy ps s.store

      perm : Perm l ps
      perm = rank-perm fl app.policy ps s.store

      l_ranked : ranked app capability none none s ≡ l
      l_ranked = unfold ranked in refl
