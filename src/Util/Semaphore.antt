-- ===== src/Util/Semaphore.antt =====
-- util/semaphore.go: a buffered channel, of which the number of held elements matters alone.
use cuirass.Prelude.{
  ℕ, ◌+◌, ◌-◌, ◌≤◌, ◌≡◌, Bool, true, false, Option, none, some, ltb, ◌==◌, arith, if◌then◌else◌,
}

pub record Semaphore : Type 0 where
  pub held : ℕ
  pub capacity : ℕ

-- `make` panics for a negative capacity, which is left out: the capacity is a whole number.
unfoldable pub new_semaphore : ℕ → Semaphore
new_semaphore n = record { held = 0; capacity = n }

unfoldable pub try_acquire : Semaphore → Bool × Semaphore
try_acquire s = if ltb s.held s.capacity then (true, record s { held = s.held + 1 }) else (false, s)

-- `none` is the panic on an empty semaphore.
unfoldable pub release : Semaphore → Option Semaphore
release s = if s.held == 0 then none else some (record s { held = s.held - 1 })

abbrev pub IsValid : Semaphore → Type 0
IsValid s = s.held ≤ s.capacity

-- On a semaphore that does not hold more than its capacity, `TryAcquire` keeps that so and keeps the
-- capacity; it succeeds exactly when there is room, and takes one place then, and else none.
pub try_acquire-IsValid :
    (s : Semaphore)
    → IsValid s
    → IsValid (try_acquire s).1
      × ((try_acquire s).0 ≡ ltb s.held s.capacity)
      × ((try_acquire s).1.held ≡ (if ltb s.held s.capacity then s.held + 1 else s.held))
      × ((try_acquire s).1.capacity ≡ s.capacity)
unfolding try_acquire
try_acquire-IsValid s v = ground arith

-- A release after a successful acquire never panics, and gives back the semaphore as it was.
pub release-try_acquire :
    (s : Semaphore) → (try_acquire s).0 ≡ true → release (try_acquire s).1 ≡ some s
unfolding try_acquire release
release-try_acquire s h = ground arith
