-- ===== src/CircuitBreaker/Percentages.antt =====
-- circuitbreaker/circuitbreaker.go: the error percentage of a breaker, a float64, and its threshold.
use native.Mathlib.Nat.{mul-one, one-mul}
use cuirass.Prelude.{ℕ, ◌*◌, ◌^◌, ◌<◌, ◌≡◌, refl, false, ltb, ◌==◌, arith}
use cuirass.Num.Rounding.{round}
use cuirass.Num.Rounding.Exact.{round-whole, round-exceeds}
use cuirass.CircuitBreaker.HealthCounters.{exceeds, percentage_value, magnitude, is_negative}

magnitude-small : (n : ℕ) → n < 2 ^ 53 → magnitude n ≡ n
magnitude-small n h = ground arith

is_negative-small : (n : ℕ) → n < 2 ^ 53 → is_negative n ≡ false
is_negative-small n h = ground arith

percentage_value-round :
    (requests errors : ℕ)
    → requests < 2 ^ 53
    → errors * 100 < 2 ^ 53
    → percentage_value (record { errors = errors; requests = requests })
      ≡ round (errors * 100) requests
unfolding percentage_value
percentage_value-round requests errors r e =
    rw
      (
        magnitude-small errors (omega arith),
        magnitude-small requests r,
        round-whole errors (omega arith),
        round-whole requests r,
        round-whole (errors * 100) e,
        mul-one (errors * 100),
        one-mul requests,
      )
      refl

-- The float64 of `IsOpen` is compared with the threshold as the exact quotient is.
pub exceeds-ltb :
    (requests errors threshold : ℕ)
    → 0 < requests
    → requests < 2 ^ 53
    → errors * 100 < 2 ^ 53
    → threshold < 2 ^ 53
    → exceeds (record { errors = errors; requests = requests }) threshold
      ≡ ltb (threshold * requests) (errors * 100)
unfolding exceeds
exceeds-ltb requests errors threshold h r e t =
    rw
      (
        not_zero,
        percentage_value-round requests errors r e,
        is_negative-small requests r,
        is_negative-small errors (omega arith),
        is_negative-small threshold t,
        round-whole threshold t,
      )
      (rw (mul-one (round (errors * 100) requests).num)
        (round-exceeds (errors * 100) requests threshold e h))
  where
    not_zero : (requests == 0) ≡ false
    not_zero = ground arith
