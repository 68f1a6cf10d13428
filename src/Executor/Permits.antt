-- ===== src/Executor/Permits.antt =====
-- executor.go: the semaphores around one call of `Exec`.
use Prim.Native.String.{String}
use mathlib.Core.Path.{subst}
use cuirass.Prelude.{
  ℕ, ◌≡◌, refl, sym, ap, ◌∙◌, Bool, true, false, Option, none, some, ◌==◌, if◌then◌else◌,
  Bool-cases, inl, inr, ◌⊎◌,
}
use cuirass.Prelude.Maps.{string_eq, lookup, insert, lookup-insert}
use cuirass.Util.Clock.{Clock}
use cuirass.Util.Errors.{GoError, Call, returned, panicked}
use cuirass.Util.Semaphore.{Semaphore, new_semaphore, try_acquire, release, release-try_acquire}
use cuirass.CircuitBreaker.{
  CircuitBreaker, Function, Verdict, unguarded, forced, allowed, rejected, conclude, proceed,
  do_call,
}
use cuirass.Command.{GoContext, CommandProperties, Command}
use cuirass.SemaphoreFactory.{Semaphores, get_semaphore, reuse}
use cuirass.Executor.{Env, guarded, release_after, take_result}

module _ {W : Type 0} where
  conclude_world :
      (trial : Bool) (cb : CircuitBreaker) (r : Call (Option GoError) × W × Clock)
      → (conclude trial cb r).world ≡ r.1
  unfolding conclude
  conclude_world trial cb (returned e, w, c) = refl
  conclude_world trial cb (panicked v, w, c) = refl

  proceed_world :
      (P : W → Type 0) (v : Verdict) (f : Function W) (w : W) (cb : CircuitBreaker) (c : Clock)
      → P w
      → P (f c w).1
      → P (proceed v f w cb c).world
  unfolding proceed
  proceed_world P unguarded f w cb c p h = h
  proceed_world P forced f w cb c p h = p
  proceed_world P (allowed trial) f w cb c p h = subst P (sym (conclude_world trial cb (f c w))) h
  proceed_world P rejected f w cb c p h = p

  -- What `Do` leaves of the world is what the function made of it, or the world as it was.
  pub do_call_world :
      (P : W → Type 0) (f : Function W) (w : W) (cb : CircuitBreaker) (c : Clock)
      → P w
      → ((c' : Clock) → P (f c' w).1)
      → P (do_call f w cb c).world
  unfolding do_call
  do_call_world P f w cb c p h = proceed_world P _ f w _ _ p (h _)

-- No permit is held that was not held before: the semaphores are as they were, or the key has the
-- one that the factory hands out for it and every other key what it had.
abbrev pub Kept : String → ℕ → Semaphores → Semaphores → Type 0
Kept key max m m' =
    (m' ≡ m)
    ⊎ ((k : String)
        → lookup k m'
          ≡ (if string_eq.beq key k then some (get_semaphore key max m).0 else lookup k m))

lookup-reuse :
    (key k : String) (max : ℕ) (m : Semaphores) (o : Option Semaphore)
    → lookup key m ≡ o
    → let (sem, m') = reuse key max m o in
      lookup k m' ≡ (if string_eq.beq key k then some sem else lookup k m)
unfolding reuse
lookup-reuse key k max m none e = lookup-insert key k (new_semaphore max) m
lookup-reuse key k max m (some s) e = by_capacity (max == s.capacity)
  where
    same : (b : Bool) → (b ≡ true → key ≡ k) → lookup k m ≡ (if b then some s else lookup k m)
    same true q = ap (λ j. lookup j m) (sym (q refl)) ∙ e
    same false q = refl

    by_capacity :
        (b : Bool)
        → let r : Semaphore × Semaphores =
            (if b then (s, m) else (new_semaphore max, insert key (new_semaphore max) m)) in
          lookup k r.1 ≡ (if string_eq.beq key k then some r.0 else lookup k m)
    by_capacity true = same (string_eq.beq key k) (string_eq.beq_iff key k).0
    by_capacity false = lookup-insert key k (new_semaphore max) m

lookup-get_semaphore :
    (key k : String) (max : ℕ) (m : Semaphores)
    → let (sem, m') = get_semaphore key max m in
      lookup k m' ≡ (if string_eq.beq key k then some sem else lookup k m)
unfolding get_semaphore
lookup-get_semaphore key k max m = lookup-reuse key k max m (lookup key m) refl

-- A write to a key twice over.
lookup-insert_twice :
    (key k : String) (s t : Semaphore) (m m' : Semaphores)
    → lookup k m' ≡ (if string_eq.beq key k then some s else lookup k m)
    → lookup k (insert key s (insert key t m'))
      ≡ (if string_eq.beq key k then some s else lookup k m)
lookup-insert_twice key k s t m m' e =
    lookup-insert key k s (insert key t m')
    ∙ rw (lookup-insert key k t m', e) (by_test (string_eq.beq key k))
  where
    by_test :
        (b : Bool)
        → (if b then some s else (if b then some t else (if b then some s else lookup k m)))
          ≡ (if b then some s else lookup k m)
    by_test true = refl
    by_test false = refl

module _ (g : GoContext) (properties : String → String → CommandProperties) {V W : Type 0}
    (cmd : Command g.Context V W) where
  semaphores-take_result :
      (env : Env V W) (r : Call (Option V × Option GoError) × W × Clock)
      → (take_result g properties env r).1.semaphores ≡ env.semaphores
  unfolding take_result
  semaphores-take_result env (returned (v, e), w, c) = refl
  semaphores-take_result env (panicked p, w, c) = refl

  semaphores-release_after :
      (key : String) (held sem : Semaphore) (r : Call (Option GoError) × Env V W × Clock)
      → release held ≡ some sem
      → (release_after g properties key held r).1.semaphores ≡ insert key sem r.1.semaphores
  unfolding release_after
  semaphores-release_after key held sem r e = rw (e, release_after) refl

  lookup-guarded :
      (ctx : g.Context) (c : Clock) (env : Env V W) (k : String)
      → let max = (properties cmd.name cmd.group).execution_max_concurrent_requests in
        lookup k (guarded g properties cmd ctx c env).1.semaphores ≡ (
          if string_eq.beq cmd.group k
          then some (get_semaphore cmd.group max env.semaphores).0
          else lookup k env.semaphores)
  unfolding guarded
  lookup-guarded ctx c env k =
      let max = (properties cmd.name cmd.group).execution_max_concurrent_requests in
      let (sem, sems) = get_semaphore cmd.group max env.semaphores in
      let held = (try_acquire sem).1 in
      let env' : Env V W = record env { semaphores = insert cmd.group held sems } in
      let found = lookup-get_semaphore cmd.group k max env.semaphores in
      elim (Bool-cases (try_acquire sem).0) [
        | inl acquired ↦ rw acquired (
            ap (lookup k) (
              semaphores-release_after cmd.group held sem
                (take_result g properties env' (cmd.run ctx c env.world))
                (release-try_acquire sem acquired)
              ∙ ap (insert cmd.group sem) (semaphores-take_result env' (cmd.run ctx c env.world)))
            ∙ lookup-insert_twice cmd.group k sem held env.semaphores sems found)
        | inr refused ↦ rw refused found
      ]

  -- However `Run` ends, by a result, an error or a panic, the permit that was taken for it is given
  -- back.
  pub guarded-Kept :
      (ctx : g.Context) (c : Clock) (env : Env V W)
      → Kept cmd.group
          (properties cmd.name cmd.group).execution_max_concurrent_requests
          env.semaphores
          (guarded g properties cmd ctx c env).1.semaphores
  guarded-Kept ctx c env = inr (lookup-guarded ctx c env)
