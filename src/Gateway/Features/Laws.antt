-- ===== src/Gateway/Features/Laws.antt =====
-- What an invocation by the gateway returns and counts, and which provider a capability goes to.
use agent_features.Common.{
  ◌≡◌, refl, sym, ap, ◌∙◌, ◌⊎◌, inl, inr, Option, none, List, [], ◌∷◌, ◌++◌, true, false, head?,
  All, All-map, keep, List-cases,
}
use mathlib.Core.Bool.{false≢true}
use mathlib.Core.List.{Memᴰ}
use agent_features.Common.Text.{Text, codes}
use agent_features.Common.Json.{obj}
use agent_features.Common.Floats.{Floats}
use agent_features.Models.{Feature, InvokeRequest, InvokeResponse}
use agent_features.Catalog.Rank.{feature_id, candidates}
use agent_features.Catalog.Rank.Resolve.{
  IsCandidate, is_candidate, is_candidate_iff, candidates-keep,
}
use agent_features.Ranking.Metrics.{record_outcome}
use agent_features.Ranking.Policy.{rank}
use agent_features.Ranking.Policy.Best.{preference, head?-rank-keep, head?-rank-keep-none}
use agent_features.Invoker.{
  Invocation, returned, feature_input_error, feature_unavailable, other_error,
}
use agent_features.Gateway.{
  App, State, Response, ok, http_error, server_error, texts, providers, ranked, input_errors,
}
use agent_features.Gateway.Features.{settle, invoke, invoke_best, invoke_capability, no_provider}

module _ {fl : Floats} {W : Type 0} (app : App fl W) where
  open fl use {Float, decimal}

  -- what the metrics are behind a response about a feature
  abbrev pub Accounted :
      Feature → Response (InvokeResponse Float) → State Float W → State Float W → Type 0
  Accounted f (ok a) s s' =
      ((a.vendor ++ codes "/" ++ a.feature ++ codes "@" ++ a.version) ≡ feature_id f)
      × (s'.store ≡ record_outcome fl (feature_id f) true a.latency_ms s.store)
  Accounted f (http_error status d) s s' =
      ((status ≡ 503) × (s'.store ≡ record_outcome fl (feature_id f) false (decimal 0 1) s.store))
      ⊎ ((status ≡ 422) × (s'.store ≡ s.store))
  Accounted f server_error s s' = s'.store ≡ s.store

  settle-Accounted :
      (f : Feature) (r : Invocation Float) (s : State Float W) (w : W)
      → let p = settle app f r (record s { world = w }) in
        Accounted f p.0 s p.1 × (p.1.composites ≡ s.composites)
  settle-Accounted f (returned r) s w = ((unfold feature_id in refl, refl), refl)
  settle-Accounted f (feature_input_error m) s w = (inr (refl, refl), refl)
  settle-Accounted f (feature_unavailable m) s w = (inl (refl, refl), refl)
  settle-Accounted f other_error s w = (refl, refl)

  -- An invocation that returns is counted as one success of the feature, with the latency that is
  -- returned, and the response names this feature; one that ends in status 503 is counted as one
  -- failure; every other leaves the metrics as they were, and its status is 422 or the error is
  -- unforeseen. The composites stay. If the input breaks the schema, the response is 422 with
  -- the errors and the whole state stays: the invoker is not called.
  pub invoke-Accounted :
      (f : Feature) (body : InvokeRequest) (s : State Float W)
      → let (r, s') = invoke app f body s in
        Accounted f r s s'
        × (s'.composites ≡ s.composites)
        × ((input_errors app f (obj body.input) ≡ [])
            ⊎ ((r ≡ http_error 422 (texts (input_errors app f (obj body.input)))) × (s' ≡ s)))
  unfolding invoke
  invoke-Accounted f body s = elim (List-cases (input_errors app f (obj body.input))) [
    | inl e ↦
        let (result, w') = app.invoker f.manifest.name (obj body.input) body.context s.world in
        let (a, c) = settle-Accounted f result s w' in rw e (a, c, inl refl)
    | inr (x, xs, e) ↦ rw e (inr (refl, refl), refl, inr (refl, refl))
  ]

  -- no provider that is listed is preferred to this one
  pub record IsChosen (capability : Text) (vendor version : Option Text) (s : State Float W)
      (f : Feature) : Type 0 where
    pub listed : Memᴰ f (app.catalog.list none none s.world)
    pub candidate : IsCandidate capability version vendor f
    pub best :
        All
          (λ g.
            IsCandidate capability version vendor g
            → (preference fl app.policy s.store).lt g f ≡ false)
          (app.catalog.list none none s.world)

  ranked-keep :
      (capability : Text) (vendor version : Option Text) (s : State Float W)
      → ranked app capability vendor version s
        ≡ rank fl app.policy
            (keep (is_candidate capability version vendor) (app.catalog.list none none s.world))
            s.store
  unfolding ranked
  ranked-keep capability vendor version s =
      ap (λ fs. rank fl app.policy fs s.store)
        (unfold candidates providers in
          candidates-keep (app.catalog.list none none s.world) capability version vendor)

  pub ranked-IsChosen :
      (capability : Text) (vendor version : Option Text) (s : State Float W) {f : Feature}
      (fs : List Feature)
      → ranked app capability vendor version s ≡ f ∷ fs
      → IsChosen capability vendor version s f
  ranked-IsChosen capability vendor version s {f} fs e =
      let b =
        head?-rank-keep fl app.policy (is_candidate capability version vendor)
          (app.catalog.list none none s.world) s.store
          (ap head? (sym (ranked-keep capability vendor version s) ∙ e)) in
      record {
        listed = b.listed;
        candidate = (is_candidate_iff capability version vendor f).0 b.selected;
        best = All-map (λ g h c. h ((is_candidate_iff capability version vendor g).1 c)) _ b.least;
      }

  pub ranked-none :
      (capability : Text) (vendor version : Option Text) (s : State Float W)
      → ranked app capability vendor version s ≡ []
      → All (λ f. ¬ IsCandidate capability version vendor f) (app.catalog.list none none s.world)
  ranked-none capability vendor version s e =
      All-map
        (λ f h c. absurd (false≢true (sym h ∙ (is_candidate_iff capability version vendor f).1 c)))
        _
        (head?-rank-keep-none fl app.policy (is_candidate capability version vendor)
          (app.catalog.list none none s.world) s.store
          (ap head? (sym (ranked-keep capability vendor version s) ∙ e)))

  pub invoke_capability-ranked :
      (capability : Text) (body : InvokeRequest) (vendor version : Option Text) (s : State Float W)
      {fs : List Feature}
      → ranked app capability vendor version s ≡ fs
      → invoke_capability app capability body vendor version s
        ≡ invoke_best app fs capability body vendor version s
  unfolding invoke_capability
  invoke_capability-ranked capability body vendor version s e =
      ap (λ l. invoke_best app l capability body vendor version s) e

  -- Invoking a capability either invokes a feature of the catalogue that provides it and meets the
  -- pins, to which the ranking policy prefers no other such feature, or it responds 404, leaves the
  -- state as it is, and no feature of the catalogue provides the capability and meets the pins.
  pub invoke_capability-IsChosen :
      (capability : Text) (body : InvokeRequest) (vendor version : Option Text) (s : State Float W)
      → ((f : Feature) × IsChosen capability vendor version s f
          × (invoke_capability app capability body vendor version s ≡ invoke app f body s))
        ⊎ ((invoke_capability app capability body vendor version s
              ≡ (http_error 404 (no_provider capability vendor version), s))
            × All
                (λ f. ¬ IsCandidate capability version vendor f)
                (app.catalog.list none none s.world))
  invoke_capability-IsChosen capability body vendor version s =
      elim (List-cases (ranked app capability vendor version s)) [
        | inl e ↦ inr (
          invoke_capability-ranked capability body vendor version s e,
          ranked-none capability vendor version s e,
        )
        | inr (f, fs, e) ↦ inl (
          f,
          ranked-IsChosen capability vendor version s fs e,
          invoke_capability-ranked capability body vendor version s e,
        )
      ]
