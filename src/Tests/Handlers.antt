-- ===== src/Tests/Handlers.antt =====
-- The sample features at concrete inputs.
use agent_features.Common.{
  true, false, ℕ, ◌+◌, ◌-◌, ◌*◌, ◌≤◌, ◌≡◌, ◌↔◌, refl, some, List, [], ◌∷◌, length,
}
use agent_features.Common.Text.{codes}
use agent_features.Common.Dict
use agent_features.Common.Json.{str, int, obj, Fields, end, field, get_field}
use agent_features.Models.{Manifest}
use agent_features.Catalog.Memory.{get}
use agent_features.Invoker.Local.{output}
use agent_features.Samples.{build, calculator_manifest, text_stats_manifest}
use agent_features.Samples.Laws.{Agree, build-Agree}
use agent_features.Samples.Calculator.{
  value, raised, other_exception, zero_division_error, Node, expression, constant, int_value,
  bin_op, add, mult, Python, calculator,
}
use agent_features.Samples.Calculator.Laws.{Evaluates, result, calculator-Evaluates_iff}
use agent_features.Samples.TextStats.{text_stats}
use agent_features.Samples.TextStats.Counts.{word_starts, sentence_ends}
use agent_features.Samples.TextStats.Laws.{text_stats_bounds}

-- 1 + 2 * 3, whatever the text
abbrev pub tree : Node
tree = expression (
    bin_op (constant (int_value 1)) add
      (bin_op (constant (int_value 2)) mult (constant (int_value 3))))

abbrev pub naturals : Python
naturals = record {
  Number = ℕ;
  parse = λ s. value tree;
  float_of = λ n. value n;
  literal = λ s. 0;
  op_add = λ a b. value (a + b);
  op_sub = λ a b. value (a - b);
  op_mul = λ a b. value (a * b);
  op_truediv = λ a b. raised (zero_division_error (codes "division by zero"));
  op_pow = λ a b. raised other_exception;
  op_mod = λ a b. raised other_exception;
  op_neg = λ a. value a;
  op_pos = λ a. value a;
  to_json = int;
}

abbrev sum : Fields
sum = field (codes "expression") (str (codes "1 + 2 * 3")) end

abbrev seven : Fields
seven = field (codes "result") (int 7) end

calculates : calculator naturals (obj sum) ≡ output seven
unfolding calculator get_field
calculates = refl

sum-expression : get_field (codes "expression") sum ≡ some (str (codes "1 + 2 * 3"))
unfolding get_field
sum-expression = refl

calculator-Evaluates_iff_example : (calculator naturals (obj sum) ≡ output seven) ↔ (
    (t : Node) × (n : ℕ) × (naturals.parse (codes "1 + 2 * 3") ≡ value t)
    × Evaluates naturals t n
    × (seven ≡ result naturals n))
calculator-Evaluates_iff_example =
    calculator-Evaluates_iff naturals sum (codes "1 + 2 * 3") seven sum-expression

abbrev quote : Fields
quote = field (codes "text") (str (codes "To be, or not? Be!")) end

counts :
    text_stats (obj quote)
    ≡ output (
        field
          (codes "characters")
          (int 18)
          (field (codes "words") (int 5) (field (codes "sentences") (int 2) end)))
unfolding text_stats get_field
counts = refl

quote-text : get_field (codes "text") quote ≡ some (str (codes "To be, or not? Be!"))
unfolding get_field
quote-text = refl

-- five words and two sentences
counted :
    (word_starts true (codes "To be, or not? Be!") ≡ 5)
    × (sentence_ends false (codes "To be, or not? Be!") ≡ 2)
counted = (refl, refl)

text_stats_bounds_example :
    (text_stats (obj quote)
      ≡ output (
          field (codes "characters") (int (length (codes "To be, or not? Be!"))) (
            field (codes "words") (int (word_starts true (codes "To be, or not? Be!"))) (
              field
                (codes "sentences")
                (int (sentence_ends false (codes "To be, or not? Be!")))
                end))))
    × (2 * word_starts true (codes "To be, or not? Be!") ≤ length (codes "To be, or not? Be!") + 1)
    × (2 * sentence_ends false (codes "To be, or not? Be!")
        ≤ length (codes "To be, or not? Be!") + 1)
text_stats_bounds_example = text_stats_bounds quote (codes "To be, or not? Be!") quote-text

-- handlers that are numbers; the calculator is registered twice
abbrev registered : List (Manifest × ℕ)
registered = (calculator_manifest, 1) ∷ (text_stats_manifest, 2) ∷ (calculator_manifest, 3) ∷ []

build-Agree_example :
    let (catalog, handlers) = build registered in
    Agree registered
      (codes "calculator")
      (get catalog (codes "calculator"))
      (Dict.get (codes "calculator") handlers)
build-Agree_example = build-Agree registered (codes "calculator")
