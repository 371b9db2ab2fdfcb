-- ===== src/Samples/Calculator/Laws.antt =====
-- What the calculator evaluates, against a big-step semantics of arithmetic.
use agent_features.Common.{ℕ, ◌≡◌, ◌↔◌, refl, sym, ap, ◌∙◌, some, arith}
use agent_features.Common.Text.{Text, codes}
use agent_features.Common.Json.{str, obj, Fields, end, field, get_field}
use agent_features.Invoker.Local.{output}
use agent_features.Samples.Calculator.{
  value_error, syntax_error, zero_division_error, other_exception, Result, value, raised, BinaryOp,
  add, sub, mult, div, pow, modulo, unlisted_binary, UnaryOp, usub, uadd, unlisted_unary, int_value,
  float_value, no_number, Node, expression, constant, bin_op, unary_op, other_node, Python, ◌then◌,
  binary, unary, apply_binary, apply_unary, safe_eval, answered, evaluate, calculator,
}

module _ (py : Python) where
  open py use {Number}

  abbrev Operates : BinaryOp → Number → Number → Number → Type 0
  Operates add a b c = py.op_add a b ≡ value c
  Operates sub a b c = py.op_sub a b ≡ value c
  Operates mult a b c = py.op_mul a b ≡ value c
  Operates div a b c = py.op_truediv a b ≡ value c
  Operates pow a b c = py.op_pow a b ≡ value c
  Operates modulo a b c = py.op_mod a b ≡ value c
  Operates unlisted_binary a b c = ⊥

  abbrev Signs : UnaryOp → Number → Number → Type 0
  Signs usub a c = py.op_neg a ≡ value c
  Signs uadd a c = py.op_pos a ≡ value c
  Signs unlisted_unary a c = ⊥

  -- a tree of numbers and the operators of arithmetic, and its value
  pub data Evaluates : Node → Number → Type 0 where
    body : {t : Node} {a : Number} → Evaluates t a → Evaluates (expression t) a
    of_int : {n : ℕ} {a : Number} → py.float_of n ≡ value a → Evaluates (constant (int_value n)) a
    of_float : {t : Text} {a : Number} → py.literal t ≡ a → Evaluates (constant (float_value t)) a
    of_binary :
        {l : Node} {op : BinaryOp} {r : Node} {a b c : Number}
        → Evaluates l a
        → Evaluates r b
        → Operates op a b c
        → Evaluates (bin_op l op r) c
    of_unary :
        {op : UnaryOp} {t : Node} {a c : Number}
        → Evaluates t a
        → Signs op a c
        → Evaluates (unary_op op t) c

  value_inj : {A : Type 0} {a b : A} → value a ≡ value b → a ≡ b
  value_inj e = ground arith

  binary-Operates :
      (op : BinaryOp) (a b c : Number)
      → Operates op a b c
      → apply_binary py (binary py op) (value a) (value b) ≡ value c
  binary-Operates add a b c h = h
  binary-Operates sub a b c h = h
  binary-Operates mult a b c h = h
  binary-Operates div a b c h = h
  binary-Operates pow a b c h = h
  binary-Operates modulo a b c h = h
  binary-Operates unlisted_binary a b c h = elim h [ ]

  -- both operands have values, if the operation has one
  Operates-binary :
      (op : BinaryOp) (l r : Result Number) (c : Number)
      → apply_binary py (binary py op) l r ≡ value c
      → (a : Number) × (b : Number) × (l ≡ value a) × (r ≡ value b) × Operates op a b c
  Operates-binary add (value a) (value b) c h = (a, b, refl, refl, h)
  Operates-binary sub (value a) (value b) c h = (a, b, refl, refl, h)
  Operates-binary mult (value a) (value b) c h = (a, b, refl, refl, h)
  Operates-binary div (value a) (value b) c h = (a, b, refl, refl, h)
  Operates-binary pow (value a) (value b) c h = (a, b, refl, refl, h)
  Operates-binary modulo (value a) (value b) c h = (a, b, refl, refl, h)
  Operates-binary op l r c h = absurd (ground arith)

  unary-Signs :
      (op : UnaryOp) (a c : Number)
      → Signs op a c
      → apply_unary py (unary py op) (value a) ≡ value c
  unary-Signs usub a c h = h
  unary-Signs uadd a c h = h
  unary-Signs unlisted_unary a c h = elim h [ ]

  Signs-unary :
      (op : UnaryOp) (r : Result Number) (c : Number)
      → apply_unary py (unary py op) r ≡ value c
      → (a : Number) × (r ≡ value a) × Signs op a c
  Signs-unary usub (value a) c h = (a, refl, h)
  Signs-unary uadd (value a) c h = (a, refl, h)
  Signs-unary op r c h = absurd (ground arith)

  eval-Evaluates : (t : Node) (a : Number) → safe_eval py t ≡ value a → Evaluates t a
  unfolding safe_eval
  eval-Evaluates (expression t) a h = body (eval-Evaluates t a h)
  eval-Evaluates (constant (int_value n)) a h = of_int h
  eval-Evaluates (constant (float_value t)) a h = of_float (value_inj h)
  eval-Evaluates (constant no_number) a h = absurd (ground arith)
  eval-Evaluates (bin_op l op r) c h =
      let (a, b, left, right, e) = Operates-binary op (safe_eval py l) (safe_eval py r) c h in
      of_binary (eval-Evaluates l a left) (eval-Evaluates r b right) e
  eval-Evaluates (unary_op op t) c h =
      let (a, operand, e) = Signs-unary op (safe_eval py t) c h in
      of_unary (eval-Evaluates t a operand) e
  eval-Evaluates other_node a h = absurd (ground arith)

  Evaluates-eval : (t : Node) (a : Number) → Evaluates t a → safe_eval py t ≡ value a
  unfolding safe_eval
  Evaluates-eval (expression t) a (body h) = Evaluates-eval t a h
  Evaluates-eval (constant (int_value n)) a (of_int h) = h
  Evaluates-eval (constant (float_value t)) a (of_float h) = ap value h
  Evaluates-eval (constant no_number) a h = elim h [ ]
  Evaluates-eval other_node a h = elim h [ ]
  Evaluates-eval (bin_op l op r) c (of_binary {a = a} {b = b} left right e) =
      rw (Evaluates-eval l a left) (rw (Evaluates-eval r b right) (binary-Operates op a b c e))
  Evaluates-eval (unary_op op t) c (of_unary {a = a} h e) =
      rw (Evaluates-eval t a h) (unary-Signs op a c e)

  abbrev pub result : Number → Fields
  result n = field (codes "result") (py.to_json n) end

  answered-output :
      (r : Result Number) (d : Fields)
      → answered py r ≡ output d
      → (n : Number) × (r ≡ value n) × (d ≡ result n)
  answered-output (value n) d h = (n, refl, ground arith)
  answered-output (raised (value_error m)) d h = absurd (ground arith)
  answered-output (raised (syntax_error m)) d h = absurd (ground arith)
  answered-output (raised (zero_division_error m)) d h = absurd (ground arith)
  answered-output (raised other_exception) d h = absurd (ground arith)

  -- the tree that a parsed text has
  then-value :
      {A B : Type 0} (r : Result A) (k : A → Result B) (b : B)
      → r then k ≡ value b
      → (a : A) × (r ≡ value a) × (k a ≡ value b)
  then-value (value a) k b h = (a, refl, h)
  then-value (raised e) k b h = absurd (ground arith)

  -- For an input with an expression: the calculator answers with an output exactly if the text is
  -- parsed into a tree of numbers and the operators of arithmetic, the tree has a value, and the
  -- output is that value. So no name, call, comparison or other node is ever evaluated.
  pub calculator-Evaluates_iff :
      (payload : Fields) (text : Text) (d : Fields)
      → get_field (codes "expression") payload ≡ some (str text)
      → (calculator py (obj payload) ≡ output d)
        ↔ ((t : Node) × (n : Number) × (py.parse text ≡ value t) × Evaluates t n × (d ≡ result n))
  unfolding calculator
  calculator-Evaluates_iff payload text d given = (
    λ h.
        let (n, e, shown) = answered-output _ d (sym (ap (evaluate py) given) ∙ h) in
        let (t, parsed, evaluated) = then-value (py.parse text) (safe_eval py) n e in
        (t, n, parsed, eval-Evaluates t n evaluated, shown),
    λ (t, n, parsed, h, shown).
        ap (evaluate py) given
        ∙ (ap (λ r. answered py (r then safe_eval py)) parsed
            ∙ (ap (answered py) (Evaluates-eval t n h) ∙ ap output (sym shown))),
  )
