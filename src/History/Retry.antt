-- ===== src/History/Retry.antt =====
-- internal/history/retry.go
pub mod Bounds
use my_temp.Common.{ℕ, ◌+◌, ◌-◌, ◌^◌, if◌then◌else◌, int32, ltb}
use my_temp.Common.Int.{ℤ, pos, negsuc}
use my_temp.Float.{Float64}
use my_temp.Persistence.Session.{Env, M, rand_float, ◌>>=◌, pure}

pub record RetryPolicy : Type 0 where
  pub max_attempts : ℕ
  pub initial_interval : ℤ
  pub backoff_coefficient : ℕ
  pub max_interval : ℤ

-- `time.Second` and `time.Minute` in nanoseconds.
abbrev pub second : ℤ
second = pos 1000000000

abbrev pub minute : ℤ
minute = pos 60000000000

abbrev pub default_retry_policy : Float64 → RetryPolicy
default_retry_policy f = record {
  max_attempts = 3;
  initial_interval = second;
  backoff_coefficient = f.two;
  max_interval = minute;
}

-- The integer that the 32 bits of an int32 stand for.
abbrev pub of_int32 : ℕ → ℤ
of_int32 n = if ltb n (2 ^ 31) then pos n else negsuc (2 ^ 32 - 1 - n)

-- The delay before the cap and the jitter, after the cap, and with the jitter of a random number.
abbrev pub raw_backoff : Float64 → RetryPolicy → ℕ → ℕ
raw_backoff f policy attempt =
    f.mul (f.of_int policy.initial_interval)
      (f.pow policy.backoff_coefficient (f.of_int (of_int32 (int32 (attempt + (2 ^ 32 - 1))))))

abbrev pub capped_backoff : Float64 → RetryPolicy → ℕ → ℕ
capped_backoff f policy attempt =
    let backoff = raw_backoff f policy attempt in
    let cap = f.of_int policy.max_interval in if f.lt cap backoff then cap else backoff

unfoldable pub jittered_delay : Float64 → RetryPolicy → ℕ → ℕ → ℤ
jittered_delay f policy attempt r =
    f.to_int (f.mul (capped_backoff f policy attempt) (f.add f.half (f.mul r f.half)))

unfoldable pub next_retry_delay : Env → RetryPolicy → ℕ → M ℤ
next_retry_delay env policy attempt = do
  r ← rand_float env
  pure (jittered_delay env.float policy attempt r)
