-- ===== src/CircuitBreaker/HealthCounters.antt =====
-- circuitbreaker/circuitbreaker.go: breakerHealth, the counters of a breaker and their snapshot.
use mathlib.Core.Bool.{xor}
use cuirass.Prelude.{ℕ, ◌-◌, ◌*◌, ◌^◌, Bool, true, false, ltb, leb, ◌==◌, if◌then◌else◌}
use cuirass.Num.Rounding.{Fraction, round}
use cuirass.Prelude.Words.{add_int64, ltb_int64}
use cuirass.Util.Clock.{Clock, now, later}
use cuirass.Num.RollingNumber.{RollingNumber, increment, sum}
use cuirass.Num.RollingNumber

-- The operands of the float64 `errors * 100.0 / requests`, two int64s.
pub record Percentage : Type 0 where
  pub errors : ℕ
  pub requests : ℕ

-- An int64 by its sign and its distance from 0.
abbrev pub is_negative : ℕ → Bool
is_negative w = leb (2 ^ 63) w

abbrev pub magnitude : ℕ → ℕ
magnitude w = if is_negative w then 2 ^ 64 - w else w

-- The float64 `errors * 100.0 / requests` but for its sign, where there are requests: the two
-- conversions, the product and the quotient are rounded.
unfoldable pub percentage_value : Percentage → Fraction
percentage_value p =
    let errors = round (magnitude p.errors) 1 in
    let product = round (errors.num * 100) errors.den in
    let requests = round (magnitude p.requests) 1 in
    round (product.num * requests.den) (product.den * requests.num)

abbrev greater : Fraction → Fraction → Bool
greater a b = ltb (b.num * a.den) (a.num * b.den)

-- `a > b`, by which of the two are negative.
abbrev greater_signed : Bool → Bool → Fraction → Fraction → Bool
greater_signed false false a b = greater a b
greater_signed false true a b = true
greater_signed true false a b = false
greater_signed true true a b = greater b a

-- `percentage > float64(threshold)`. With no requests the quotient is NaN or an infinity.
unfoldable pub exceeds : Percentage → ℕ → Bool
unfolding percentage_value xor
exceeds p threshold =
    if p.requests == 0
    then ltb_int64 0 p.errors
    else greater_signed (xor (is_negative p.errors) (is_negative p.requests))
        (is_negative threshold) (percentage_value p) (round (magnitude threshold) 1)

pub record Health : Type 0 where
  pub num_requests : ℕ
  pub error_percentage : Percentage

-- `new(health)`: no requests, and the number 0.0, as that of no errors in one request.
abbrev pub zero_health : Health
zero_health = record { num_requests = 0; error_percentage = record { errors = 0; requests = 1 } }

pub record BreakerHealth : Type 0 where
  pub health_snapshot_interval : ℕ
  pub error_counter : RollingNumber
  pub request_counter : RollingNumber
  pub health_snapshot : Health
  pub snapshot_time : ℕ

unfoldable pub inc_request : Clock → BreakerHealth → BreakerHealth × Clock
inc_request c h = (record h { request_counter = increment (now c) h.request_counter }, later c)

unfoldable pub inc_error : Clock → BreakerHealth → BreakerHealth × Clock
inc_error c h = (record h { error_counter = increment (now c) h.error_counter }, later c)

unfoldable pub reset : Clock → BreakerHealth → BreakerHealth × Clock
reset c h = (
  record h {
    error_counter = RollingNumber.reset (now c) h.error_counter;
    request_counter = RollingNumber.reset (now (later c)) h.request_counter;
  },
  later (later c),
)

-- A fresh snapshot, with the counters as the two sums leave them.
unfoldable pub take_snapshot : Clock → BreakerHealth → Health × BreakerHealth × Clock
take_snapshot c h =
    let (requests, request_counter') = sum (now c) h.request_counter in
    let (errors, error_counter') = sum (now (later c)) h.error_counter in
    (
      record {
        num_requests = requests;
        error_percentage = record { errors = errors; requests = requests };
      },
      record h { request_counter = request_counter'; error_counter = error_counter' },
      later (later c),
    )

-- `dest` is a local copy of the pointer `h.healthSnapshot`, and it is `dest` that the new snapshot
-- is stored to. The compare-and-swap finds the time that was loaded.
unfoldable pub health : Clock → BreakerHealth → Health × BreakerHealth × Clock
health c h =
    let timestamp = now c in
    if ltb_int64 (add_int64 h.snapshot_time h.health_snapshot_interval) timestamp
    then take_snapshot (later c) (record h { snapshot_time = timestamp })
    else (h.health_snapshot, h, later c)
