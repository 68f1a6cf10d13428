-- ===== src/Examples/Callers.antt =====
-- Runs of several goroutines that ask for the breaker of a command.
use cuirass.Prelude.{ℕ, ◌≡◌, ◌≢◌, refl, Bool, true, false, none, some, ◌==◌, arith, if◌then◌else◌}
use cuirass.Executor.Callers.{
  Pc, idle, missed, holding, System, set_pc, Reach, here, next, get_found, end_call, Settled,
  reach-Settled, two_breakers,
}

-- Both goroutines have looked, before the first breaker was there.
abbrev both_missed : System
both_missed = record { breaker = none; made = 0; pc = λ i. missed }

two_breakers_example :
    (t : System) × Reach both_missed t
    × (a : ℕ) × (b : ℕ) × (t.pc 3 ≡ holding a)
    × (t.pc 4 ≡ holding b)
    × (a ≢ b)
    × (t.breaker ≡ some b)
two_breakers_example = two_breakers both_missed 3 4 (λ q. omega (arith, q)) refl refl

-- Two breakers were made, and goroutine 3 still holds the first of them.
abbrev held_pc : ℕ → Pc
held_pc = set_pc (λ i. idle) 3 (holding 0)

abbrev two_made : System
two_made = record { breaker = some 1; made = 2; pc = held_pc }

held_pc_lem : (i : ℕ) → held_pc i ≢ missed
held_pc_lem i = by_test (3 == i)
  where
    by_test : (b : Bool) → (if b then holding 0 else idle) ≢ missed
    by_test true = λ q. cc q
    by_test false = λ q. cc q

-- Goroutine 4 asks, and 3 ends its call and asks again.
abbrev asked : System
asked = record two_made { pc = set_pc (set_pc (set_pc held_pc 4 (holding 1)) 3 idle) 3 (holding 1) }

reach-Settled_example : Settled two_made 1 asked
reach-Settled_example =
    reach-Settled two_made asked 1 refl held_pc_lem
      (next (next (next here (get_found 4 refl refl)) (end_call 3 refl)) (get_found 3 refl refl))
