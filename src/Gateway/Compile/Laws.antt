-- ===== src/Gateway/Compile/Laws.antt =====
-- What compiling an agent answers, and what it changes.
use agent_features.Common.{
  ◌≡◌, ◌≢◌, refl, ap, ◌⊎◌, inl, inr, Option, none, some, List, [], ◌∷◌, Bool, true, false, arith,
  Option-cases,
}
use agent_features.Common.Text.{Text, codes}
use agent_features.Common.Text.Laws.{eq_iff}
use agent_features.Common.Dict.{Dict, get, keys, get-put, get-put_self}
use agent_features.Common.Json.{Json, str, obj, Fields, get_or, get_or_null, truthy_json}
use agent_features.Composer.{Composite}
use agent_features.AgentDsl.{parse}
use agent_features.AgentDsl.Agents.{IsAgent, Parsed}
use agent_features.AgentDsl.Laws.{parse-IsAgent}
use agent_features.AgentDsl.Codegen.{languages, codegen}
use agent_features.AgentDsl.Codegen.Laws.{codegen-total}
use agent_features.Gateway.{State, Response, ok}
use agent_features.Gateway.Compose.{composite_summary, known_composite, get_composite}
use agent_features.Gateway.Compile.{
  CompileResponse, refused, compiled, code_of, publish, compile_parsed, compile_agent,
}

module _ (format : Json → Text) where
  -- there is a stub for each language
  code_of-total :
      (c : Composite)
      → IsAgent c
      → (langs : List Text)
      → (code : Dict Text) × (code_of format c langs ≡ some code) × (keys code ≡ langs)
  code_of-total c agent [] = ([], refl, refl)
  code_of-total c agent (lang ∷ langs) =
      let (code, made, named) = code_of-total c agent langs in
      elim (Option-cases (codegen format c lang)) [
        | inl e ↦ absurd (ground (arith, e, codegen-total format c agent lang))
        | inr (stub, e) ↦ ((lang, stub) ∷ code, rw e (rw made refl), ap (λ l. lang ∷ l) named)
      ]

  module _ {Float W : Type 0} where
    -- an agent, and what the answer and the state behind it have of it
    pub record IsCompiled (published : Bool) (s : State Float W) (r : Response CompileResponse)
        (s' : State Float W) : Type 0 where
      pub agent : Composite
      pub sound : IsAgent agent
      pub code : Dict Text
      pub languages_all : keys code ≡ languages
      pub answered :
          r
          ≡ ok (
              compiled record {
                published = published;
                agent = composite_summary agent;
                composite = agent;
                code = code;
              })
      pub unpublished : published ≡ false → s' ≡ s
      pub found : published ≡ true → get_composite agent.name s' ≡ ok agent
      pub others :
          (name : Text) → name ≢ agent.name → get name s'.composites ≡ get name s.composites
      pub rest : (s'.store ≡ s.store) × (s'.world ≡ s.world)

    publish-rest :
        (published : Bool) (c : Composite) (s : State Float W)
        → let s' = publish format published c s in (s'.store ≡ s.store) × (s'.world ≡ s.world)
    publish-rest false c s = (refl, refl)
    publish-rest true c s = (refl, refl)

    publish-found :
        (c : Composite) (s : State Float W) → get_composite c.name (publish format true c s) ≡ ok c
    unfolding get_composite
    publish-found c s = ap (known_composite c.name) (get-put_self c.name c s.composites)

    publish-others :
        (published : Bool) (c : Composite) (s : State Float W) (name : Text)
        → name ≢ c.name
        → get name (publish format published c s).composites ≡ get name s.composites
    publish-others false c s name ne = refl
    publish-others true c s name ne =
        ground (arith, get-put c.name name c s.composites, eq_iff c.name name)

    compile_parsed-IsCompiled :
        (p : Option Composite × List Text) (published : Bool) (s : State Float W)
        → Parsed p
        → let (r, s') = compile_parsed format p published s in
          ((errors : List Text) × (errors ≢ []) × (r ≡ ok (refused errors)) × (s' ≡ s))
          ⊎ IsCompiled published s r s'
    compile_parsed-IsCompiled (none, errors) published s h = inl (errors, h, refl, refl)
    compile_parsed-IsCompiled (some c, errors) published s (e, agent) =
        let (code, made, named) = code_of-total c agent languages in
        inr record {
          agent = c;
          sound = agent;
          code = code;
          languages_all = named;
          answered = rw made refl;
          unpublished = λ off. rw off refl;
          found = λ on. rw on (publish-found c s);
          others = publish-others published c s;
          rest = publish-rest published c s;
        }

    -- Compiling never fails on a request that is a dictionary, whatever its source is. Either it
    -- answers with errors and changes nothing; or with an agent that keeps the rules of the
    -- language and a stub for each language, and the registry has the agent under its name if the
    -- request asks for that, keeps every other entry, and is as it was if it does not.
    pub compile_agent-IsCompiled :
        (body : Fields) (s : State Float W)
        → let (r, s') = compile_agent format (obj body) s in
          ((errors : List Text) × (errors ≢ []) × (r ≡ ok (refused errors)) × (s' ≡ s))
          ⊎ IsCompiled (truthy_json (get_or_null (codes "publish") body)) s r s'
    unfolding compile_agent
    compile_agent-IsCompiled body s =
        let source = format (get_or (codes "source") (str []) body) in
        compile_parsed-IsCompiled (parse source) (truthy_json (get_or_null (codes "publish") body))
          s (parse-IsAgent source)
