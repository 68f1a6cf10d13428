-- ===== src/Util/Clock.antt =====
-- util/clock.go. A clock is what its readings will be, in nanoseconds: `now` is the next one, and
-- `later` the clock after that reading.
use cuirass.Prelude.{ℕ, suc, ◌+◌}

abbrev pub Clock : Type 0
Clock = ℕ → ℕ

abbrev pub now : Clock → ℕ
now c = c 0

abbrev pub later : Clock → Clock
later c = λ i. c (suc i)

pub record TestableClock : Type 0 where
  pub time : ℕ

unfoldable pub new_testable_clock : ℕ → TestableClock
new_testable_clock t = record { time = t }

unfoldable pub set_time : ℕ → TestableClock → TestableClock
set_time t c = record c { time = t }

unfoldable pub add : ℕ → TestableClock → TestableClock
add d c = record c { time = c.time + d }

-- Every reading of a testable clock is its time, until that is set anew.
unfoldable pub readings : TestableClock → Clock
readings c = λ _. c.time
