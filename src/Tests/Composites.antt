-- ===== src/Tests/Composites.antt =====
-- Composites, validation and channels at concrete inputs.
use agent_features.Common.{ℕ, ◌+◌, ◌≡◌, refl, ◌↔◌, Option, none, some, List, [], map}
use mathlib.Core.List.{Perm}
use agent_features.Common.Text.{Text, codes, split}
use agent_features.Common.Json.{str, obj, Fields, end, field}
use agent_features.Validation.{format, validate}
use agent_features.Validation.Laws.{violations, validate-raises}
use agent_features.Composer.{run, resolve_ref}
use agent_features.Composer.Laws.{Records, Ended, caller_context, run-trace}
use agent_features.Composer.Calls.{Made, logged, run-calls}
use agent_features.Composer.Refs.{LiesAt, resolve_ref_iff}
use agent_features.Tests.Data.{input, report, requires, iter_errors, program}

-- an invoker that answers with its input and counts its calls
abbrev echo : Text → Fields → (vendor version : Option Text) → ℕ → (Option Fields × Option Text) × ℕ
echo capability payload vendor version n = ((some payload, none), n + 1)

reported : (run echo report input 0).0.output ≡ field (codes "who") (str (codes "Ada")) end
unfolding program
reported = refl

run-trace_example :
    let r = (run echo report input 0).0 in
    Records report.steps r.trace
    × Ended report report.steps (caller_context input) r.trace r.output r.error
run-trace_example = run-trace echo report input 0

run-calls_example :
    let l = run (logged echo) report input (0, []) in
    let p = run echo report input 0 in
    (l.0 ≡ p.0) × (l.1.0 ≡ p.1) × Made report.steps (caller_context input) p.0.trace l.1.1
run-calls_example = run-calls echo report input 0

resolve_ref_iff_example :
    (resolve_ref (codes "input.name") (caller_context input) ≡ (str (codes "Ada"), none))
    ↔ LiesAt (split b'.' (codes "input.name")) (obj (caller_context input)) (str (codes "Ada"))
resolve_ref_iff_example =
    resolve_ref_iff (codes "input.name") (caller_context input) (str (codes "Ada"))

validate-raises_example :
    ((validate iter_errors (obj input) (requires (codes "age")) ≡ none)
      ↔ (violations iter_errors (obj input) (requires (codes "age")) ≡ []))
    × ((es : List Text)
        → validate iter_errors (obj input) (requires (codes "age")) ≡ some es
        → Perm es (map format (violations iter_errors (obj input) (requires (codes "age")))))
validate-raises_example = validate-raises iter_errors (obj input) (requires (codes "age"))

-- channels are numbered as they are opened
abbrev open_channel : Text → ℕ → ℕ × ℕ
open_channel endpoint w = (w, w + 1)
