-- ===== src/Executor/Nested/Guarding.antt =====
-- executor.go, with nested calls: the permit around the function of a command.
use Prim.Native.String.{String}
use mathlib.Core.Path.{subst}
use cuirass.Prelude.{
  ℕ, ◌+◌, ◌≡◌, refl, sym, ap, ◌∙◌, Bool, true, false, Option, none, some, arith, if◌then◌else◌,
  Bool-cases, inl, inr,
}
use cuirass.Prelude.Maps.{string_eq, lookup, insert, lookup-insert}
use cuirass.Util.Errors.{GoError, Call, returned, panicked}
use cuirass.Util.Semaphore.{Semaphore, try_acquire, release}
use cuirass.RequestCache.{ExecutedCommand, CacheKey, key_eq}
use cuirass.Command.{GoContext, CommandProperties, Command}
use cuirass.SemaphoreFactory.{Semaphores, get_semaphore}
use cuirass.Executor.{State}
use cuirass.Executor.Nested.{
  call_function, Ending, release_in, release_found, put_released, end_of, guarded_in,
}
use cuirass.Executor.Nested.Keeping.{
  held_in, held_of, IsReady, Keeps, Careful, FineCall, Ends, Handed, get_semaphore-Handed,
  insert-Fits,
}
use cuirass.Executor.Nested.Releasing.{Taken, Taken-Keeps, release_in-Keeps}

end_of-state :
    {V W : Type 0} (x : Call (Option V × Option GoError) × State V W) → (end_of x).2 ≡ x.1
unfolding end_of
end_of-state (returned (v, e), s) = refl
end_of-state (panicked p, s) = refl

module _ {V W : Type 0} (max : String → ℕ) (T : String → Option V → Type 0) (G : W → Type 0)
    (Pins : CacheKey → ExecutedCommand V → Type 0) (K : CacheKey → Type 0) (group : String)
    (s : State V W) (ready : IsReady max T G Pins s) (sem : Semaphore) (sems : Semaphores)
    (h : Handed max group s.semaphores (sem, sems)) where
  handed_held :
      (k : String) (b : Bool)
      → (b ≡ true → group ≡ k)
      → held_in (if b then some sem else lookup k s.semaphores) ≡ held_of k s.semaphores
  handed_held k true q = h.held_same ∙ ap (λ j. held_of j s.semaphores) (q refl)
  handed_held k false q = refl

  -- The group's semaphore was made, or was there.
  refused-Keeps : Keeps max T G Pins K s (record s { semaphores = sems })
  refused-Keeps = record {
    ready = record {
      metrics_valid = ready.metrics_valid;
      cached_fine = ready.cached_fine;
      world_good = ready.world_good;
      pinned = ready.pinned;
      fits = insert-Fits max group sem s.semaphores sems ready.fits h.capacity_fits h.in_map;
    };
    same_held = λ k.
        ap held_in (h.in_map k)
        ∙ handed_held k (string_eq.beq group k) (string_eq.beq_iff group k).0;
    still_cached = λ k ec p e. e;
    log_stays = λ q. q;
  }

  acquired-Taken :
      (held : Semaphore)
      → held.held ≡ sem.held + 1
      → held.capacity ≡ sem.capacity
      → Taken max T G Pins K group s (record s { semaphores = insert group held sems })
  acquired-Taken held e c = record {
    ready = record {
      metrics_valid = ready.metrics_valid;
      cached_fine = ready.cached_fine;
      world_good = ready.world_good;
      pinned = ready.pinned;
      fits =
          insert-Fits max group held sems (insert group held sems) refused-Keeps.ready.fits
            (c ∙ h.capacity_fits) (λ k. lookup-insert group k held sems);
    };
    one_more = λ k.
        ap held_in (lookup-insert group k held sems)
        ∙ by_test k (string_eq.beq group k) (string_eq.beq_iff group k).0 (h.in_map k);
    still_cached = λ k ec p q. q;
    log_stays = λ q. q;
  }
    where
      by_test :
          (k : String) (b : Bool)
          → (b ≡ true → group ≡ k)
          → lookup k sems ≡ (if b then some sem else lookup k s.semaphores)
          → held_in (if b then some held else lookup k sems)
            ≡ (if b then held_of k s.semaphores + 1 else held_of k s.semaphores)
      by_test k true q i =
          e ∙ ap (λ (n : ℕ). n + 1) (h.held_same ∙ ap (λ j. held_of j s.semaphores) (q refl))
      by_test k false q i = ap held_in i

try_acquire_taken :
    (sem : Semaphore)
    → (try_acquire sem).0 ≡ true
    → ((try_acquire sem).1.held ≡ sem.held + 1) × ((try_acquire sem).1.capacity ≡ sem.capacity)
unfolding try_acquire
try_acquire_taken sem h = ground (arith, h)

module _ (g : GoContext) (properties : String → String → CommandProperties) {V W : Type 0}
    (max : String → ℕ) (T : String → Option V → Type 0) (G : W → Type 0)
    (Pins : CacheKey → ExecutedCommand V → Type 0) (K : CacheKey → Type 0)
    (cmd : Command g.Context V (State V W)) where
  released_fine :
      (e : Ending V W) (o : Option Semaphore)
      → (release_found cmd.group e o).0 ≡ returned none
      → (e.0 ≡ returned none) × ((release_found cmd.group e o).1 ≡ e.1)
  unfolding release_found put_released
  released_fine e none h = (h, refl)
  released_fine e (some sem) h = by_release (release sem) h
    where
      by_release :
          (o : Option Semaphore)
          → (put_released cmd.group e o).0 ≡ returned none
          → (e.0 ≡ returned none) × ((put_released cmd.group e o).1 ≡ e.1)
      by_release (some sem') h = (h, refl)
      by_release none h = cc h

  end_of-fine :
      (x : Call (Option V × Option GoError) × State V W)
      → FineCall T cmd.name x.0
      → (end_of x).0 ≡ returned none
      → T cmd.name (end_of x).1
  unfolding end_of
  end_of-fine (returned (v, e), s) f h = f (cc h)
  end_of-fine (panicked p, s) f h = cc h

  -- The function that is given to the breaker keeps what `Run` keeps, and gives its permit back. Where
  -- it ends with no error, the named result is fine.
  pub guarded_in-Ends :
      (ctx : g.Context) (s : State V W)
      → (properties cmd.name cmd.group).execution_max_concurrent_requests ≡ max cmd.group
      → Careful max T G Pins K cmd.name (call_function cmd.run ctx)
      → IsReady max T G Pins s
      → Ends max T G Pins K cmd.name s (guarded_in g properties cmd ctx s)
  unfolding guarded_in release_in
  guarded_in-Ends ctx s same careful ready =
      let sem = (get_semaphore cmd.group (max cmd.group) s.semaphores).0 in
      let sems = (get_semaphore cmd.group (max cmd.group) s.semaphores).1 in
      let h = get_semaphore-Handed max cmd.group s.semaphores ready.fits in
      let s' : State V W = record s { semaphores = insert cmd.group (try_acquire sem).1 sems } in
      let x = call_function cmd.run ctx s' in
      let e = end_of x in
      rw same (elim (Bool-cases (try_acquire sem).0) [
        | inl acquired ↦
            (let a = try_acquire_taken sem acquired in
              let taken =
                acquired-Taken max T G Pins K cmd.group s ready sem sems h (try_acquire sem).1 a.0
                  a.1 in
              let run = careful s' taken.ready in
              rw acquired (
                release_in-Keeps max T G Pins K cmd.group s e.2 e.0 e.1 (
                    Taken-Keeps max T G Pins K cmd.group s s' e.2 taken
                      (subst (Keeps max T G Pins K s') (sym (end_of-state x)) run.0)),
                λ q.
                    let p = released_fine e (lookup cmd.group e.2.semaphores) q in
                    subst (T cmd.name) (sym p.1) (end_of-fine x run.1 p.0),
              ))
        | inr refused ↦
            rw refused (refused-Keeps max T G Pins K cmd.group s ready sem sems h, λ q. cc q)
      ])
