-- ===== src/Float.antt =====
-- The binary64 arithmetic of Rust's `f64`, taken as a parameter: a type with the operations that the
-- sources use. The models evaluate on any such type; a theorem that needs a law of the operations
-- states it as a hypothesis.
use stratum_server_nng.Base.{ℕ, ◌≡◌, Bool, true, false}
use stratum_server_nng.Int.{ℤ}

pub record F64 : Type 1 where
  pub Float : Type 0
  pub zero_f64 : Float
  pub add : Float → Float → Float
  pub sub : Float → Float → Float
  pub mul : Float → Float → Float
  pub div : Float → Float → Float
  -- `a < b` and `a <= b`; both are false if an operand is a NaN.
  pub lt : Float → Float → Bool
  pub le : Float → Float → Bool
  -- `n as f64` and `x.floor() as i64`.
  pub of_i64 : ℤ → Float
  pub floor_i64 : Float → ℤ
  pub abs : Float → Float
  -- `f64::min` and `f64::max`.
  pub min_f64 : Float → Float → Float
  pub max_f64 : Float → Float → Float
  -- The literal nearest to a quotient, and `f64::EPSILON`.
  pub lit : ℕ → ℕ → Float
  pub epsilon : Float
  -- `Duration::from_secs_f64` and `as_secs_f64`; a duration is its nanoseconds.
  pub duration_of : Float → ℕ
  pub secs_of : ℕ → Float

-- What IEEE 754 says of comparisons: on operands that are not a NaN the order is total.
pub record OrderLaws (F : F64) (IsNumber : F.Float → Type 0) : Type 0 where
  pub le_of_not_lt : (a b : F.Float) → IsNumber a → IsNumber b → F.lt a b ≡ false → F.le b a ≡ true
  pub le_refl : (a : F.Float) → IsNumber a → F.le a a ≡ true
