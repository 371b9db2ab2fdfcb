-- ===== src/Gateway/Compile.antt =====
-- gateway/main.py: the route that compiles agents. `format` is `str` on the values of a request.
pub mod Laws
use agent_features.Common.{
  Option, none, some, List, [], ◌∷◌, Bool, true, false, if◌then◌else◌, ◌>>=◌,
}
use agent_features.Common.Text.{Text, codes}
use agent_features.Common.Dict.{Dict, put}
use agent_features.Common.Json.{Json, str, obj, Fields, get_or, get_or_null, truthy_json}
use agent_features.Composer.{Composite}
use agent_features.AgentDsl.{parse}
use agent_features.AgentDsl.Codegen.{languages, codegen}
use agent_features.Gateway.{State, Response, ok, server_error}
use agent_features.Gateway.Compose.{CompositeSummary, composite_summary}

pub record Compiled : Type 0 where
  pub published : Bool
  pub agent : CompositeSummary
  pub composite : Composite
  pub code : Dict Text

-- the two dictionaries that the route returns: `ok` is false with errors, or true with the agent
pub data CompileResponse : Type 0 where
  refused : (errors : List Text) → CompileResponse
  compiled : Compiled → CompileResponse

module _ (format : Json → Text) where
  -- {lang: agentdsl.codegen(composite, lang) for lang in …}
  abbrev pub code_of : Composite → List Text → Option (Dict Text)
  code_of c [] = some []
  code_of c (lang ∷ langs) = do
    stub ← codegen format c lang
    code ← code_of c langs
    some ((lang, stub) ∷ code)

  abbrev pub answer_with : Bool → Composite → Option (Dict Text) → Response CompileResponse
  answer_with published c none = server_error
  answer_with published c (some code) = ok (
      compiled
        record { published = published; agent = composite_summary c; composite = c; code = code })

  module _ {Float W : Type 0} where
    abbrev pub publish : Bool → Composite → State Float W → State Float W
    publish false c s = s
    publish true c s = record s { composites = put c.name c s.composites }

    -- with what `parse` returns
    abbrev pub compile_parsed :
        Option Composite × List Text
        → Bool
        → State Float W
        → Response CompileResponse × State Float W
    compile_parsed (none, errors) published s = (ok (refused errors), s)
    compile_parsed (some c, errors) published s =
        (answer_with published c (code_of c languages), publish published c s)

    -- a body that is no dictionary has no `get`
    unfoldable pub compile_agent : Json → State Float W → Response CompileResponse × State Float W
    unfolding composite_summary
    compile_agent (obj body) s =
        compile_parsed (parse (format (get_or (codes "source") (str []) body)))
          (truthy_json (get_or_null (codes "publish") body)) s
    compile_agent body s = (server_error, s)
