-- ===== src/Common/Floats.antt =====
-- Python's floats, which the runtime provides: a type with the operations that the gateway uses.
-- `less` is `<` on floats that are not NaN, where it is a weak order; `neg` turns it round.
use Prim.Native.Nat.{ℕ}
use mathlib.Core.Path.{◌≡◌}
use mathlib.Core.Bool.{Bool}
use agent_features.Common.Order.{WeakOrder}

pub record Floats : Type 1 where
  pub Float : Type 0
  -- the literal m / 10 ^ k
  pub decimal : ℕ → ℕ → Float
  pub add : Float → Float → Float
  pub sub : Float → Float → Float
  pub mul : Float → Float → Float
  pub div : Float → Float → Float
  pub neg : Float → Float
  -- n / m of two integers, and x / n
  pub ratio : ℕ → ℕ → Float
  pub div_int : Float → ℕ → Float
  -- round(x, k)
  pub round : Float → ℕ → Float
  -- false at zero
  pub nonzero : Float → Bool
  pub less : WeakOrder Float
  pub neg-less : (x y : Float) → less.lt (neg x) (neg y) ≡ less.lt y x
