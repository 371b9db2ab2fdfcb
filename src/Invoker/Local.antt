-- ===== src/Invoker/Local.antt =====
-- `LocalInvoker` of gateway/invoker.py.
use agent_features.Common.{Option, none, some, ◌++◌}
use agent_features.Common.Text.{Text, codes}
use agent_features.Common.Dict.{Dict, get}
use agent_features.Common.Json.{Json, Fields}
use agent_features.Common.Floats.{Floats}
use agent_features.Invoker.{
  Invocation, returned, feature_input_error, feature_unavailable, other_error, Invoke,
}

-- what a handler returns or raises
pub data Handled : Type 0 where
  output : Fields → Handled
  input_error : Text → Handled
  unavailable : Text → Handled
  failure : Handled

module _ (fl : Floats) {W : Type 0} (perf_counter : W → fl.Float × W) where
  open fl use {Float, sub, mul, decimal, round}

  abbrev pub Handler : Type 0
  Handler = Json → W → Handled × W

  -- behind the handler; the clock is read once more only if it has returned
  abbrev pub after_handler : Float → Handled → W → Invocation Float × W
  after_handler start (output out) w =
      let (now, w') = perf_counter w in
      (
        returned
            (record { output = out; latency_ms = round (mul (sub now start) (decimal 1000 0)) 3 }),
        w',
      )
  after_handler start (input_error m) w = (feature_input_error m, w)
  after_handler start (unavailable m) w = (feature_unavailable m, w)
  after_handler start failure w = (other_error, w)

  abbrev pub run_handler : Option Handler → Text → Json → W → Invocation Float × W
  run_handler none feature payload w =
      (feature_unavailable (codes "no handler registered for '" ++ feature ++ codes "'"), w)
  run_handler (some handler) feature payload w =
      let (start, w₁) = perf_counter w in
      let (result, w₂) = handler payload w₁ in after_handler start result w₂

  unfoldable pub invoke : Dict Handler → Invoke Float W
  invoke handlers feature payload context w = run_handler (get feature handlers) feature payload w
