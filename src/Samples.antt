-- ===== src/Samples.antt =====
-- gateway/samples.py: the features of the development gateway, their handlers, and how the catalogue
-- and the invoker are built from them.
pub mod Calculator
pub mod TextStats
pub mod Laws
use agent_features.Common.{ℕ, Option, none, some, List, [], ◌∷◌, ◌++◌, map}
use agent_features.Common.Text.{Text, codes}
use agent_features.Common.Dict.{Dict, put}
use agent_features.Common.Json.{
  Json, str, int, arr, obj, Fields, end, field, get_field, get_or, arr_of,
}
use agent_features.Common.Floats.{Floats}
use agent_features.Models.{
  Manifest, default_capability, Visibility, FeatureProtocol, TrustTier, verified, community,
}
use agent_features.Catalog.Memory.{InMemoryCatalog, init}
use agent_features.Invoker.{Invoke}
use agent_features.Invoker.Local.{Handled, output, failure, invoke}
use agent_features.Samples.Calculator.{Python, calculator}
use agent_features.Samples.TextStats.{text_stats}

-- {"type": t}
abbrev pub typed : Text → Json
typed t = obj (field (codes "type") (str t) end)

-- {"type": "object", "properties": …}, with what comes behind
abbrev pub object_schema : Fields → Fields → Fields
object_schema props more =
    field (codes "type") (str (codes "object")) (field (codes "properties") (obj props) more)

-- "required": […]
abbrev pub requiring : Text → Fields
requiring k = field (codes "required") (arr (arr_of (str k ∷ []))) end

-- a manifest with the defaults of the fields that it leaves out
abbrev pub plain : (name description : Text) → (tags : List Text) → (i o : Fields) → Manifest
plain name description tags i o = record {
  name = name;
  version = codes "1.0.0";
  description = description;
  tags = tags;
  input_schema = i;
  output_schema = o;
  visibility = Visibility.public;
  protocol = FeatureProtocol.grpc;
  vendor = codes "community";
  capability = [];
  trust = community;
}

abbrev pub calculator_manifest : Manifest
calculator_manifest =
    plain (codes "calculator") (codes "Safely evaluates an arithmetic expression.")
      (codes "math" ∷ codes "utility" ∷ [])
      (object_schema (field (codes "expression") (typed (codes "string")) end)
        (requiring (codes "expression")))
      (object_schema (field (codes "result") (typed (codes "number")) end) end)

abbrev pub text_stats_manifest : Manifest
text_stats_manifest =
    plain (codes "text_stats") (codes "Counts characters, words and sentences in a block of text.")
      (codes "text" ∷ codes "nlp" ∷ [])
      (object_schema (field (codes "text") (typed (codes "string")) end) (requiring (codes "text")))
      (object_schema
        (field (codes "characters") (typed (codes "integer")) (
          field (codes "words") (typed (codes "integer"))
            (field (codes "sentences") (typed (codes "integer")) end)))
        end)

abbrev pub clock_manifest : Manifest
clock_manifest =
    plain (codes "clock") (codes "Returns the current time at a given UTC offset.")
      (codes "time" ∷ codes "utility" ∷ [])
      (object_schema
        (field (codes "utc_offset_hours")
          (obj (field (codes "type") (str (codes "number")) (field (codes "default") (int 0) end)))
          end)
        end)
      (object_schema
        (field (codes "iso8601") (typed (codes "string"))
          (field (codes "utc_offset_hours") (typed (codes "number")) end))
        end)

abbrev pub greet_input : Fields
greet_input =
    object_schema (field (codes "name") (typed (codes "string")) end) (requiring (codes "name"))

abbrev pub greet_output : Fields
greet_output = object_schema (field (codes "greeting") (typed (codes "string")) end) end

abbrev pub greet_acme_manifest : Manifest
greet_acme_manifest =
    record (plain (codes "greet-acme") (codes "A formal greeting.")
      (codes "greeting" ∷ codes "text" ∷ []) greet_input greet_output) {
        capability = codes "greet";
        vendor = codes "acme";
        trust = verified;
      }

abbrev pub greet_globex_manifest : Manifest
greet_globex_manifest =
    record (plain (codes "greet-globex") (codes "A casual greeting.")
      (codes "greeting" ∷ codes "text" ∷ []) greet_input greet_output) {
        capability = codes "greet";
        vendor = codes "globex";
        version = codes "1.2.0";
      }

-- what `_clock` calls: `float`, the time zone of a number of hours, and the time there; the first two
-- may raise an exception, which is none here
pub record Time (W : Type 0) : Type 1 where
  pub Number : Type 0
  pub Zone : Type 0
  pub float_of : Json → Option Number
  pub timezone : Number → Option Zone
  pub now : Zone → W → Text × W
  pub to_json : Number → Json

module _ {W : Type 0} where
  abbrev pub constant_time : (Json → Handled) → Json → W → Handled × W
  constant_time handler payload w = (handler payload, w)

  module _ (time : Time W) where
    open time use {Number, Zone}

    -- behind the two calls that may raise an exception; none of them is caught
    abbrev pub told : Number → Option Zone → W → Handled × W
    told hours none w = (failure, w)
    told hours (some zone) w =
        let (iso, w') = time.now zone w in
        (
          output (
              field (codes "iso8601") (str iso)
                (field (codes "utc_offset_hours") (time.to_json hours) end)),
          w',
        )

    abbrev pub clock_at : Option Number → W → Handled × W
    clock_at none w = (failure, w)
    clock_at (some hours) w = told hours (time.timezone hours) w

    -- `_clock`
    unfoldable pub clock : Json → W → Handled × W
    clock (obj payload) w =
        clock_at (time.float_of (get_or (codes "utc_offset_hours") (int 0) payload)) w
    clock payload w = (failure, w)

module _ (format : Json → Text) where
  -- {"greeting": f"…{p['name']}…"}
  abbrev pub greeting_of : (before behind : Text) → Option Json → Handled
  greeting_of before behind none = failure
  greeting_of before behind (some v) =
      output (field (codes "greeting") (str (before ++ (format v ++ behind))) end)

  unfoldable pub greet_acme : Json → Handled
  greet_acme (obj p) = greeting_of (codes "Hello, ") (codes ". — Acme") (get_field (codes "name") p)
  greet_acme p = failure

  unfoldable pub greet_globex : Json → Handled
  greet_globex (obj p) =
      greeting_of (codes "hey ") (codes "!! ~globex") (get_field (codes "name") p)
  greet_globex p = failure

module _ {H : Type 0} where
  -- {m.name: h for m, h in _FEATURES}
  unfoldable pub handlers_of : Dict H → List (Manifest × H) → Dict H
  handlers_of d [] = d
  handlers_of d ((m, h) ∷ fs) = handlers_of (put m.name h d) fs

  -- the catalogue and the handlers of registered features
  unfoldable pub build : List (Manifest × H) → InMemoryCatalog × Dict H
  unfolding init handlers_of
  build features = (init (map (λ f. f.0) features), handlers_of [] features)

-- `_FEATURES`
unfoldable pub dev_features :
    {W : Type 0} → Python → Time W → (Json → Text) → List (Manifest × (Json → W → Handled × W))
unfolding calculator text_stats clock greet_acme greet_globex default_capability
dev_features py time format =
    (default_capability calculator_manifest, constant_time (calculator py))
    ∷ (default_capability text_stats_manifest, constant_time text_stats)
    ∷ (default_capability clock_manifest, clock time)
    ∷ (default_capability greet_acme_manifest, constant_time (greet_acme format))
    ∷ (default_capability greet_globex_manifest, constant_time (greet_globex format))
    ∷ []

module _ (fl : Floats) {W : Type 0} (perf_counter : W → fl.Float × W) (py : Python) (time : Time W)
    (format : Json → Text) where
  open fl use {Float}

  -- `build_dev_catalog_and_invoker`
  unfoldable pub build_dev_catalog_and_invoker : InMemoryCatalog × Invoke Float W
  unfolding build dev_features invoke
  build_dev_catalog_and_invoker =
      let (catalog, handlers) = build (dev_features py time format) in
      (catalog, invoke fl perf_counter handlers)
