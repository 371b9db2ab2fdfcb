-- ===== src/Tests/Files.antt =====
-- The export of manifests to files, and the echo behind gRPC.
use agent_features.Common.{
  ℕ, ◌+◌, ◌*◌, ◌≡◌, ◌≢◌, refl, ◌∙◌, Option, none, some, [], ◌++◌, Bool, true, false, Bool-cases,
  inl, inr, Pairs, arith,
}
use agent_features.Common.Text.{Text, codes, ◌==◌}
use agent_features.Common.Text.Laws.{eq_iff}
use agent_features.Common.Dict.{Dict, get, put, get-put, get-put_self}
use agent_features.Common.Json.{Json, str, obj, Fields, end, field, get_field}
use agent_features.Models.{Manifest, default_context}
use agent_features.Signing.{Tools, exited}
use agent_features.Scripts.{path_of, export}
use agent_features.Scripts.Laws.{Exported, export-Exported}
use agent_features.Invoker.{returned}
use agent_features.Invoker.Grpc
use agent_features.Invoker.Grpc.{at}
use agent_features.Examples.Echo.Laws.{serve, invoke-echoes}
use agent_features.Tests.Data.{milli, Milli, greeters}

-- the world is the files, by their paths
abbrev Disk : Type 0
Disk = Dict Text

abbrev tools : Tools Disk
tools = record {
  dumps = λ d. codes "{}";
  sha256 = λ s. codes "00";
  join_path = λ a b. a ++ codes "/" ++ b;
  exists = λ p w. false;
  which = λ name w. none;
  write_temp = λ s w. (none, w);
  run = λ argv w. (exited 0, w);
  unlink = λ p w. (true, w);
}

abbrev write_file : Text → Text → Disk → Bool × Disk
write_file p content w = (true, put p content w)

abbrev model_dump : Manifest → Fields
model_dump m = field (codes "name") (str m.name) end

keeps : (p q content : Text) (w : Disk) → p ≢ q → get q (write_file p content w).1 ≡ get q w
keeps p q content w h = elim (Bool-cases (p == q)) [
  | inl e ↦ absurd (h ((eq_iff p q).0 e))
  | inr e ↦ get-put p q content w ∙ rw e refl
]

apart : Pairs (λ f g. path_of tools (codes "out") g ≢ path_of tools (codes "out") f) greeters
apart = ((λ e. ground arith, tt), (tt, tt))

export-Exported_example :
    Exported tools write_file model_dump
      (λ p w. get p w)
      (codes "out")
      greeters
      (export tools write_file model_dump (codes "out") greeters [])
export-Exported_example =
    export-Exported tools write_file model_dump (λ p w. get p w) (codes "out")
      (λ p content w h. get-put_self p content w) keeps greeters [] apart

-- a `Struct` as a dictionary
abbrev text_of : Option Json → Text
text_of (some (str s)) = s
text_of v = []

abbrev struct_of : Json → Fields
struct_of (obj d) = d
struct_of v = end

-- the clock is the number of its readings, and channels are their endpoints
abbrev tick : ℕ → Milli × ℕ
tick w = ((w * 1000, 0), w + 1)

abbrev open_channel : Text → ℕ → Text × ℕ
open_channel endpoint w = (endpoint, w)

abbrev greeting : Fields
greeting = field (codes "message") (str (codes "hello")) end

invoke-echoes_example :
    (latency_ms : Milli) × ((Grpc.invoke milli tick open_channel
        (serve milli tick open_channel
          (λ channel w. w)
          (λ k d. text_of (get_field k d))
          (λ d. d)
          struct_of
          (λ d. d))
        (λ channel w. w)
        (λ name w. at (codes "echo:9090"))
        (codes "echo")
        (obj greeting)
        default_context
        []
        0).0
      ≡ returned (record {
        output = field (codes "echo") (str (codes "hello")) end;
        latency_ms = latency_ms;
      }))
invoke-echoes_example =
    invoke-echoes milli tick open_channel (λ channel w. w) (λ k d. text_of (get_field k d)) (λ d. d)
      struct_of (λ d. d) (λ k d s h. rw h refl) (λ k s. refl) (λ name w. at (codes "echo:9090"))
      (codes "echo") (codes "echo:9090") greeting (codes "hello") default_context [] 0 refl
      (unfold get_field in refl) refl
