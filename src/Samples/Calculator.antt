-- ===== src/Samples/Calculator.antt =====
-- `_safe_eval` and `_calculator` of gateway/samples.py. The parser, the tree that it gives, and the
-- numbers with their operators are Python's.
pub mod Laws
use agent_features.Common.{ℕ, Option, none, some, ◌++◌}
use agent_features.Common.Text.{Text, codes}
use agent_features.Common.Json.{Json, str, obj, Fields, end, field, get_field}
use agent_features.Invoker.Local.{Handled, output, input_error, failure}

-- an exception, with its text if the code shows it
pub data Raised : Type 0 where
  value_error : Text → Raised
  syntax_error : Text → Raised
  zero_division_error : Text → Raised
  other_exception : Raised

pub data Result (A : Type 0) : Type 0 where
  value : A → Result A
  raised : Raised → Result A

-- ast.Add …; the operators that the table of the source does not have are one here
pub data BinaryOp : Type 0 where
  add sub mult div pow modulo unlisted_binary : BinaryOp

pub data UnaryOp : Type 0 where
  usub uadd unlisted_unary : UnaryOp

-- the value of a constant, which for True and False is an int too
pub data Constant : Type 0 where
  int_value : ℕ → Constant
  float_value : Text → Constant
  no_number : Constant

pub data Node : Type 0 where
  expression : Node → Node
  constant : Constant → Node
  bin_op : (left : Node) → BinaryOp → (right : Node) → Node
  unary_op : UnaryOp → (operand : Node) → Node
  other_node : Node

-- what the operators give may be no float, but a complex number
pub record Python : Type 1 where
  pub Number : Type 0
  pub parse : Text → Result Node
  -- float(n), and the float of a literal
  pub float_of : ℕ → Result Number
  pub literal : Text → Number
  pub op_add : Number → Number → Result Number
  pub op_sub : Number → Number → Result Number
  pub op_mul : Number → Number → Result Number
  pub op_truediv : Number → Number → Result Number
  pub op_pow : Number → Number → Result Number
  pub op_mod : Number → Number → Result Number
  pub op_neg : Number → Result Number
  pub op_pos : Number → Result Number
  pub to_json : Number → Json

infixl 5 ◌then◌
abbrev pub ◌then◌ : {A B : Type 0} → Result A → (A → Result B) → Result B
(value a) then k = k a
(raised e) then k = raised e

module _ (py : Python) where
  open py use {Number}

  -- `_OPERATORS`
  abbrev pub binary : BinaryOp → Option (Number → Number → Result Number)
  binary add = some py.op_add
  binary sub = some py.op_sub
  binary mult = some py.op_mul
  binary div = some py.op_truediv
  binary pow = some py.op_pow
  binary modulo = some py.op_mod
  binary unlisted_binary = none

  abbrev pub unary : UnaryOp → Option (Number → Result Number)
  unary usub = some py.op_neg
  unary uadd = some py.op_pos
  unary unlisted_unary = none

  abbrev pub unsupported : Result Number
  unsupported = raised (value_error (codes "unsupported expression"))

  abbrev pub constant_value : Constant → Result Number
  constant_value (int_value n) = py.float_of n
  constant_value (float_value t) = value (py.literal t)
  constant_value no_number = unsupported

  -- with the operator of the table, and what the operands evaluate to
  abbrev pub apply_binary :
      Option (Number → Number → Result Number) → (left right : Result Number) → Result Number
  apply_binary none left right = unsupported
  apply_binary (some f) left right = left then λ a. right then λ b. f a b

  abbrev pub apply_unary : Option (Number → Result Number) → Result Number → Result Number
  apply_unary none operand = unsupported
  apply_unary (some f) operand = operand then f

  unfoldable pub safe_eval : Node → Result Number
  safe_eval (expression body) = safe_eval body
  safe_eval (constant c) = constant_value c
  safe_eval (bin_op left op right) = apply_binary (binary op) (safe_eval left) (safe_eval right)
  safe_eval (unary_op op operand) = apply_unary (unary op) (safe_eval operand)
  safe_eval other_node = unsupported

  abbrev pub invalid : Text → Handled
  invalid message = input_error (codes "invalid expression: " ++ message)

  -- the end of the `try`
  abbrev pub answered : Result Number → Handled
  answered (value n) = output (field (codes "result") (py.to_json n) end)
  answered (raised (value_error m)) = invalid m
  answered (raised (syntax_error m)) = invalid m
  answered (raised (zero_division_error m)) = invalid m
  answered (raised other_exception) = failure

  -- what is no text cannot be parsed, and a missing key is no error that is caught
  abbrev pub evaluate : Option Json → Handled
  evaluate (some (str text)) = answered (py.parse text then safe_eval)
  evaluate o = failure

  unfoldable pub calculator : Json → Handled
  unfolding safe_eval
  calculator (obj payload) = evaluate (get_field (codes "expression") payload)
  calculator payload = failure
