-- ===== src/AgentDsl/Codegen/Laws.antt =====
-- The client stubs of gateway/agentdsl.py for the agents that `parse` returns.
use agent_features.Common.{
  ℕ, suc, ◌≡◌, refl, Option, none, some, List, [], ◌∷◌, true, is_some, if-both, ◌>>=◌, arith,
}
use agent_features.Common.Text.{Text, codes, ◌==◌}
use agent_features.Common.Dict.{Dict, get}
use agent_features.Common.Json.{Json, str, obj, Fields, end, field, get_or, get_or_null, put_field}
use agent_features.Composer.{Composite}
use agent_features.Catalog.Custom.{choose}
use agent_features.AgentDsl.{with_required}
use agent_features.AgentDsl.Agents.{IsAgent, IsProps, one_prop}
use agent_features.AgentDsl.Codegen.{
  aliases, each_prop, ts_line, go_line, proto_line, rust_line, common_subs, stub, language, codegen,
}

-- a function that succeeds on the properties of agents
abbrev Lines : (ℕ → Text → Fields → Option Text) → Type 0
Lines line = (i : ℕ) (k t : Text) → is_some (line i k (field (codes "type") (str t) end)) ≡ true

>>=-total :
    {A B : Type 0} (o : Option A) (k : A → Option B)
    → is_some o ≡ true
    → ((a : A) → is_some (k a) ≡ true)
    → is_some (o >>= k) ≡ true
>>=-total none k h f = absurd (ground arith)
>>=-total (some a) k h f = f a

each_prop-total :
    (line : ℕ → Text → Fields → Option Text)
    → Lines line
    → (i : ℕ) (d : Fields) → IsProps d
    → is_some (each_prop line i d) ≡ true
each_prop-total line h i end p = refl
each_prop-total line h i (field k v d) (one_prop {t = t} name typ p) =
    >>=-total _ _ (h i k t) λ l. >>=-total _ _ (each_prop-total line h (suc i) d p) λ ls. refl

ts_line-total : Lines ts_line
unfolding get_or_null choose
ts_line-total i k t = refl

go_line-total : Lines go_line
unfolding get_or_null choose
go_line-total i k t = refl

proto_line-total : Lines proto_line
unfolding get_or_null choose
proto_line-total i k t = refl

properties-with_required :
    (required : List Text) (props : Fields)
    → get_or (codes "properties") (obj end) (
        with_required required (
          field (codes "type") (str (codes "object")) (field (codes "properties") (obj props) end)))
      ≡ obj props
unfolding get_or put_field
properties-with_required [] props = refl
properties-with_required (r ∷ rs) props = refl

module _ (format : Json → Text) where
  stub-total :
      (lang : Text) (props : Fields) (subs : Dict Text)
      → IsProps props
      → is_some (stub format lang props subs) ≡ true
  stub-total lang props subs p =
      let total : Option Text → Type 0 = λ o. is_some o ≡ true in
      if-both total (lang == codes "js") refl (
        if-both total (lang == codes "ts")
          (>>=-total _ _ (each_prop-total ts_line ts_line-total 1 props p) λ ls. refl)
          (if-both total (lang == codes "go")
            (>>=-total _ _ (each_prop-total go_line go_line-total 1 props p) λ ls. refl)
            (if-both total (lang == codes "rust")
              (>>=-total _ _ (each_prop-total (rust_line format) (λ i k t. refl) 1 props p)
                λ ls. refl)
              (if-both total (lang == codes "java") refl (
                if-both total (lang == codes "proto")
                  (>>=-total _ _ (each_prop-total proto_line proto_line-total 1 props p) λ ls. refl)
                  refl)))))

  pub codegen-total :
      (c : Composite) → IsAgent c → (lang : Text) → is_some (codegen format c lang) ≡ true
  unfolding codegen
  codegen-total c agent lang =
      let s = agent.input_schema in
      rw agent.input_schema.schema (
        rw (properties-with_required s.required s.props) (
          stub-total (language format lang (get lang aliases)) s.props (common_subs c s.props)
            s.props_named))
