-- ===== src/Catalog/Summary/Laws.antt =====
-- Each capability has one summary, and its preferred provider is the one that `resolve_feature`
-- picks with no pins.
use agent_features.Common.{
  ◌≡◌, ◌≢◌, refl, sym, ap, ◌∙◌, none, some, List, [], ◌∷◌, map, arith, All, All-map, Pairs, head?,
  length, traverse-total, All-at, All-of_map, All-Memᴰ, All-Memᴰ_map, Pairs-map,
}
use mathlib.Core.List.{Memᴰ}
use agent_features.Common.Text.{Text, text_order}
use agent_features.Common.Dict.{Dict, get, entries-get, entries-distinct}
use agent_features.Common.Sort.{
  sorted, IsSorted, sorted-IsSorted, All-sorted, All-sorted_inv, Pairs-sorted,
}
use agent_features.Models.{Feature, CapabilitySummary}
use agent_features.Catalog.Rank.{rank_features, resolve_feature, feature_id}
use agent_features.Catalog.Rank.Laws.{length-rank_features}
use agent_features.Catalog.Summary.{summary_of, group_order, summarize_capabilities}
use agent_features.Catalog.Summary.Groups.{
  providers_of, groups, groups-IsDict, group_members, named,
}

-- what one summary says
pub record IsSummary (fs : List Feature) (s : CapabilitySummary) : Type 0 where
  pub best : Feature
  pub resolved : resolve_feature fs s.capability none none ≡ some best
  pub preferred : s.preferred ≡ some (feature_id best)
  pub description : s.description ≡ best.manifest.description
  pub counted : s.provider_count ≡ length (providers_of s.capability fs)
  pub vendors :
      s.vendors ≡ map (λ f. f.manifest.vendor) (rank_features (providers_of s.capability fs))

length-pos : (l r : List Feature) → length l ≡ length r → r ≢ [] → l ≢ []
length-pos [] [] e h = h
length-pos [] (x ∷ r) e h = absurd (omega arith)
length-pos (x ∷ l) r e h = ground arith

summary_of_ranked :
    (k : Text) (fs ranked : List Feature)
    → ranked ≡ rank_features (providers_of k fs)
    → ranked ≢ []
    → length ranked ≡ length (providers_of k fs)
    → (s : CapabilitySummary) × (summary_of k ranked ≡ some s) × IsSummary fs s × (s.capability ≡ k)
unfolding resolve_feature
summary_of_ranked k fs [] e h n = absurd (h refl)
summary_of_ranked k fs (f ∷ rest) e h n = (
  record {
    capability = k;
    description = f.manifest.description;
    provider_count = length (f ∷ rest);
    vendors = map (λ g. g.manifest.vendor) (f ∷ rest);
    preferred = some (feature_id f);
  },
  refl,
  record {
    best = f;
    resolved = ap head? (sym e);
    preferred = refl;
    description = refl;
    counted = n;
    vendors = ap (map (λ g. g.manifest.vendor)) e;
  },
  refl,
)

group-IsSummary :
    (fs : List Feature) (e : Text × List Feature)
    → get e.0 (groups fs) ≡ some e.1
    → (s : CapabilitySummary) × (summary_of e.0 (rank_features e.1) ≡ some s)
      × IsSummary fs s
      × (s.capability ≡ e.0)
group-IsSummary fs (k, g) h =
    let (same, some_one) = group_members k g fs h in
    let n = length-rank_features g in
    summary_of_ranked k fs (rank_features g) (ap rank_features same) (length-pos _ g n some_one)
      (n ∙ ap length same)

-- The names of the summaries are in alphabetical order, none occurs twice, and every feature's
-- capability is among them.
pub record IsIndex (fs : List Feature) (names : List Text) : Type 0 where
  pub ordered : IsSorted text_order.lt names
  pub distinct : Pairs (λ a b. a ≢ b) names
  pub covering : All (λ f. Memᴰ f.manifest.capability names) fs

sorted_groups : List Feature → Dict (List Feature)
sorted_groups fs = sorted group_order.lt (groups fs)

group_names-IsIndex : (fs : List Feature) → IsIndex fs (map (λ e. e.0) (sorted_groups fs))
unfolding sorted_groups
group_names-IsIndex fs =
    let gs = groups fs in
    let es = sorted group_order.lt gs in
    record {
      ordered = Pairs-map (λ e. e.0) _ es (sorted-IsSorted group_order gs);
      distinct =
          Pairs-map (λ e. e.0) (λ a b. a ≢ b) es
            (Pairs-sorted group_order.lt (λ a b. a.0 ≢ b.0) (λ a b n e. n (sym e)) gs
              (entries-distinct gs (groups-IsDict fs)));
      covering =
          All-map
            (λ f m.
              All-at (λ k. Memᴰ k (map (λ e. e.0) es)) _
                (All-of_map (λ e. e.0) _ gs
                  (All-sorted_inv group_order.lt _ gs (All-Memᴰ_map (λ e. e.0) es)))
                (named fs f m))
            fs (All-Memᴰ fs);
    }

-- `summarize_capabilities` never meets an empty group: it returns one summary for each capability
-- of the features, in alphabetical order. Each counts the providers of its capability, lists their
-- vendors as `rank_features` orders them, and prefers the one that `resolve_feature` picks where
-- no vendor and no version is asked for.
pub summarize_capabilities-IsSummary :
    (fs : List Feature)
    → (out : List CapabilitySummary) × (summarize_capabilities fs ≡ some out)
      × All (IsSummary fs) out
      × IsIndex fs (map (λ s. s.capability) out)
unfolding summarize_capabilities
summarize_capabilities-IsSummary fs =
    let (out, e, summaries, names) =
      traverse-total (λ e. summary_of e.0 (rank_features e.1)) (IsSummary fs) (λ e. e.0)
        (λ s. s.capability) (sorted group_order.lt (groups fs))
        (All-sorted group_order.lt _ (groups fs) (
          All-map (group-IsSummary fs) (groups fs) (entries-get (groups fs) (groups-IsDict fs)))) in
    (out, e, summaries, rw names (unfold sorted_groups in group_names-IsIndex fs))
