-- ===== src/Tests/Arithmetic.antt =====
-- A concrete `F64` for the runs: fixed-point numbers with three decimals.
use stratum_server_nng.Base.{ℕ, ◌+◌, ◌-◌, ◌*◌, ◌/◌, arith, ltb, leb, if◌then◌else◌}
use stratum_server_nng.Int.{ℤ, pos, negsuc}
use stratum_server_nng.Float.{F64, OrderLaws}

abbrev of_int : ℤ → ℕ
of_int (pos n) = n * 1000
of_int (negsuc n) = 0

abbrev pub fixed : F64
fixed = record {
  Float = ℕ;
  zero_f64 = 0;
  add = λ a b. a + b;
  sub = λ a b. a - b;
  mul = λ a b. a * b / 1000;
  div = λ a b. a * 1000 / b;
  lt = ltb;
  le = leb;
  of_i64 = of_int;
  floor_i64 = λ a. pos (a / 1000);
  abs = λ a. a;
  min_f64 = λ a b. if ltb a b then a else b;
  max_f64 = λ a b. if ltb a b then b else a;
  lit = λ a b. a * 1000 / b;
  epsilon = 0;
  duration_of = λ a. a * 1000000;
  secs_of = λ n. n / 1000000;
}

abbrev pub IsAny : ℕ → Type 0
IsAny x = Unit {0}

pub fixed_laws : OrderLaws fixed IsAny
fixed_laws = record { le_of_not_lt = λ a b x y e. ground arith; le_refl = λ a x. ground arith }
