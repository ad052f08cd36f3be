-- ===== src/Float.antt =====
-- The float64 operations that the retry backoff of internal/history/retry.go uses. A float64 is
-- the number of its bits, and the operations of the machine are arguments; `half` and `two` are the
-- literals 0.5 and 2.0.
use my_temp.Common.{ℕ, Bool}
use my_temp.Common.Int.{ℤ}

pub record Float64 : Type 0 where
  pub of_int : ℤ → ℕ
  pub to_int : ℕ → ℤ
  pub lt : ℕ → ℕ → Bool
  pub add : ℕ → ℕ → ℕ
  pub mul : ℕ → ℕ → ℕ
  pub pow : ℕ → ℕ → ℕ
  pub half : ℕ
  pub two : ℕ
