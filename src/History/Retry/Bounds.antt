-- ===== src/History/Retry/Bounds.antt =====
-- The delay of `netxtRetryDelay` of internal/history/retry.go and the longest interval of its policy.
use my_temp.Common.{ℕ, ◌≤◌, ◌^◌, true, false, ◌≡◌, inl, inr, arith, Bool-cases}
use my_temp.Common.Int.{pos, ◌≤ℤ◌}
use my_temp.Float.{Float64}
use my_temp.History.Retry.{RetryPolicy, raw_backoff, capped_backoff, jittered_delay}

-- What IEEE arithmetic is relied on for. `IsNumber` says of a float that it is no NaN and not negative,
-- `IsInRange` that it is besides at most 2 ^ 53; `one` is the literal.
pub record FloatLaws (f : Float64) (one : ℕ) (IsNumber IsInRange : ℕ → Type 0) : Type 0 where
  pub of_int_in_range : (n : ℕ) → n ≤ 2 ^ 53 → IsInRange (f.of_int (pos n))
  pub to_int_of_int : (n : ℕ) → n ≤ 2 ^ 53 → f.to_int (f.of_int (pos n)) ≡ pos n
  pub to_int_nonneg : (x : ℕ) → IsInRange x → pos 0 ≤ℤ f.to_int x
  pub to_int_mono :
      (x y : ℕ) → IsInRange x → IsInRange y → f.lt y x ≡ false → f.to_int x ≤ℤ f.to_int y
  pub in_range_below : (x y : ℕ) → IsInRange x → IsNumber y → f.lt x y ≡ false → IsInRange y
  pub half_in_range : IsInRange f.half
  pub mul_comm : (x y : ℕ) → IsInRange x → IsInRange y → f.mul x y ≡ f.mul y x
  pub mul_shrinks :
      (x y : ℕ)
      → IsInRange x
      → IsInRange y
      → f.lt one y ≡ false
      → IsInRange (f.mul x y) × (f.lt x (f.mul x y) ≡ false)
  pub add_halves :
      (y : ℕ)
      → IsInRange y
      → f.lt f.half y ≡ false
      → IsInRange (f.add f.half y) × (f.lt one (f.add f.half y) ≡ false)
  pub below_one : (x : ℕ) → IsInRange x → f.lt x one ≡ true → f.lt one x ≡ false

module _ (f : Float64) (one : ℕ) (IsNumber IsInRange : ℕ → Type 0)
    (laws : FloatLaws f one IsNumber IsInRange) (policy : RetryPolicy) (attempt r : ℕ) where
  abbrev cap : ℕ
  cap = f.of_int policy.max_interval

  abbrev IsSmall : ℕ → Type 0
  IsSmall x = IsInRange x × (f.to_int x ≤ℤ f.to_int cap)

  capped-IsSmall :
      IsInRange cap
      → IsNumber (raw_backoff f policy attempt)
      → IsSmall (capped_backoff f policy attempt)
  capped-IsSmall in_range number = elim (Bool-cases (f.lt cap (raw_backoff f policy attempt))) [
    | inl over ↦ rw over (in_range, omega arith)
    | inr under ↦
        let small = laws.in_range_below cap (raw_backoff f policy attempt) in_range number under in
        rw under (small, laws.to_int_mono (raw_backoff f policy attempt) cap small in_range under)
  ]

  -- The factor of the jitter is in range and not above one.
  factor-IsInRange :
      IsInRange r
      → f.lt r one ≡ true
      → IsInRange (f.add f.half (f.mul r f.half))
        × (f.lt one (f.add f.half (f.mul r f.half)) ≡ false)
  factor-IsInRange in_range below = laws.add_halves (f.mul r f.half) (shrunk.0) (shrunk.1)
    where
      shrunk : IsInRange (f.mul r f.half) × (f.lt f.half (f.mul r f.half) ≡ false)
      shrunk =
          rw (laws.mul_comm r f.half in_range laws.half_in_range) (
            laws.mul_shrinks f.half r laws.half_in_range in_range (laws.below_one r in_range below))

  -- If the floats obey the laws that IEEE arithmetic has for numbers between 0 and 2 ^ 53, the random
  -- number is one of them and below one, the longest interval of the policy is at most 2 ^ 53
  -- nanoseconds, and the backoff before the cap is no NaN and not negative (it may be infinite), then
  -- the delay is not negative and at most the longest interval, whatever the attempt is.
  pub jittered_delay_le :
      (n : ℕ)
      → policy.max_interval ≡ pos n
      → n ≤ 2 ^ 53
      → IsInRange r
      → f.lt r one ≡ true
      → IsNumber (raw_backoff f policy attempt)
      → (pos 0 ≤ℤ jittered_delay f policy attempt r)
        × (jittered_delay f policy attempt r ≤ℤ policy.max_interval)
  unfolding jittered_delay
  jittered_delay_le n e fits in_range below number =
      let capped = capped_backoff f policy attempt in
      let factor = f.add f.half (f.mul r f.half) in
      let small = capped-IsSmall (rw e (laws.of_int_in_range n fits)) number in
      let one_at_most = factor-IsInRange in_range below in
      let shrunk = laws.mul_shrinks capped factor small.0 one_at_most.0 one_at_most.1 in
      let shorter = laws.to_int_mono (f.mul capped factor) capped shrunk.0 small.0 shrunk.1 in
      let whole : f.to_int cap ≡ policy.max_interval = rw e (laws.to_int_of_int n fits) in
      (
        laws.to_int_nonneg (f.mul capped factor) shrunk.0,
        omega (arith, shorter, rw whole at small.1),
      )
