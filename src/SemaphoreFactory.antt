-- ===== src/SemaphoreFactory.antt =====
-- semaphorefactory.go: one semaphore for each key, made anew when its capacity is to change.
use Prim.Native.String.{String}
use cuirass.Prelude.{ℕ, Option, some, none, List, [], ◌==◌, if◌then◌else◌}
use cuirass.Prelude.Maps.{string_eq, lookup, insert}
use cuirass.Util.Semaphore.{Semaphore, new_semaphore}

-- The entry of a key is its semaphore, whose capacity is also the one that the entry records.
abbrev pub Semaphores : Type 0
Semaphores = List (String × Semaphore)

abbrev pub new_semaphore_factory : Semaphores
new_semaphore_factory = []

-- By the entry that the key has.
unfoldable pub reuse : String → ℕ → Semaphores → Option Semaphore → Semaphore × Semaphores
reuse key max m (some s) =
    if max == s.capacity then (s, m) else (new_semaphore max, insert key (new_semaphore max) m)
reuse key max m none = (new_semaphore max, insert key (new_semaphore max) m)

unfoldable pub get_semaphore : String → ℕ → Semaphores → Semaphore × Semaphores
get_semaphore key max m = reuse key max m (lookup key m)
