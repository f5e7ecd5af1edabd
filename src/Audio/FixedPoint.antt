-- ===== src/Audio/FixedPoint.antt =====
-- A concrete instance of the floating-point operations, to run the model with: magnitudes in steps
-- of 1/32768, with Newton's square root.
use voice_edge_monitor.Base.{ℕ, zero, suc, ◌+◌, ◌*◌, ◌/◌, ltb, leb}
use voice_edge_monitor.Base.Int.{ℤ, pos_part, neg_part}
use voice_edge_monitor.Audio.{Floats}

abbrev magnitude : ℤ → ℕ
magnitude z = pos_part z + neg_part z

abbrev pub newton : ℕ → ℕ → ℕ → ℕ
newton zero n x = x
newton (suc k) n x = newton k n ((x + n / x) / 2)

abbrev pub fixed : Floats
fixed = record {
  Double = ℕ;
  LongDouble = ℕ;
  zero_double = 0;
  one_double = 32768;
  lt = ltb;
  le = leb;
  sqrt = λ x. newton 24 (x * 32768) 65536;
  zero_long = 0;
  of_int = λ z. magnitude z * 32768;
  of_size = λ n. n * 32768;
  add_long = λ a b. a + b;
  mul_long = λ a b. a * b / 32768;
  div_long = λ a b. a * 32768 / b;
  narrow = λ x. x;
  Float = ℤ;
  float_of = λ z. z;
  mul_float = λ a b. a;
  div_float = λ a b. a;
}
