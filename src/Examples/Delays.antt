-- ===== src/Examples/Delays.antt =====
-- The delay of internal/history/retry.go with numbers in the place of floats.
use native.Mathlib.Nat.{mul-le-mul_left}
use my_temp.Common.{ℕ, ◌+◌, ◌*◌, ◌/◌, ◌^◌, ◌≤◌, false, ◌≡◌, refl, ap, ltb, arith}
use my_temp.Common.Int.{pos, pos_part, ◌≤ℤ◌}
use my_temp.Float.{Float64}
use my_temp.History.Retry.{default_retry_policy, jittered_delay, minute}
use my_temp.History.Retry.Bounds.{FloatLaws, jittered_delay_le}

-- Eighths, rounded down.
abbrev eighths : Float64
eighths = record {
  of_int = λ n. pos_part n * 8;
  to_int = λ x. pos (x / 8);
  lt = ltb;
  add = λ x y. x + y;
  mul = λ x y. x * y / 8;
  pow = λ x y. (x / 8) ^ (y / 8) * 8;
  half = 4;
  two = 16;
}

abbrev AnyNumber : ℕ → Type 0
AnyNumber x = Unit {0}

abbrev UpTo : ℕ → Type 0
UpTo x = x ≤ 2 ^ 53 * 8

product-le : (x y : ℕ) → ltb 8 y ≡ false → x * y ≤ x * 8
product-le x y e = mul-le-mul_left x (ground (arith, e))

eighth_of_product : (x y : ℕ) → ltb 8 y ≡ false → x * y / 8 ≤ x
eighth_of_product x y e = omega (arith, product-le x y e)

eighths-FloatLaws : FloatLaws eighths 8 AnyNumber UpTo
eighths-FloatLaws = record {
  of_int_in_range = λ n h. omega (arith, h);
  to_int_of_int = λ n h. ap pos (omega arith);
  to_int_nonneg = λ x h. omega arith;
  to_int_mono = λ x y h k e. ground (arith, e);
  in_range_below = λ x y h k e. ground (arith, h, e);
  half_in_range = omega arith;
  mul_comm = λ x y h k. grind arith;
  mul_shrinks =
      λ x y h k e. let le = eighth_of_product x y e in (omega (arith, le, h), ground (arith, le));
  add_halves = λ y h e. (ground (arith, e), ground (arith, e));
  below_one = λ x h e. ground (arith, e);
}

-- The second attempt, with the random number 0.5: three quarters of two seconds.
delay_after_two : jittered_delay eighths (default_retry_policy eighths) 2 4 ≡ pos 1500000000
unfolding jittered_delay
delay_after_two = refl

jittered_delay_le_example :
    (pos 0 ≤ℤ jittered_delay eighths (default_retry_policy eighths) 2 4)
    × (jittered_delay eighths (default_retry_policy eighths) 2 4 ≤ℤ minute)
jittered_delay_le_example =
    jittered_delay_le eighths 8 AnyNumber UpTo eighths-FloatLaws (default_retry_policy eighths) 2 4
      60000000000 refl (omega arith) (omega arith) refl tt
