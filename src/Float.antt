-- ===== src/Float.antt =====
-- Go's float64: a 64-bit pattern. Its arithmetic is a parameter, since the checker has none.
use backlog_server.Prelude.{ℕ, Bool}
use backlog_server.Prelude.Int.{ℤ}

pub record Float64 : Type 0 where
  pub bits : ℕ

-- The operations of the language and of package math that the server uses.
pub record FloatOps : Type 0 where
  pub add : Float64 → Float64 → Float64
  pub sub : Float64 → Float64 → Float64
  pub mul : Float64 → Float64 → Float64
  pub div : Float64 → Float64 → Float64
  pub neg : Float64 → Float64
  pub le : Float64 → Float64 → Bool
  pub lt : Float64 → Float64 → Bool
  pub abs : Float64 → Float64  -- math.Abs
  pub round_to_even : Float64 → Float64  -- math.RoundToEven
  pub pow10 : ℕ → Float64  -- math.Pow(10, n)
  pub of_int : ℤ → Float64
  pub decimal : ℕ → ℕ → Float64  -- the literal n / 10^k
