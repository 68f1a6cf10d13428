-- ===== src/Executor/Nested/Releasing.antt =====
-- executor.go, with nested calls: the state while a permit is held, and its release.
use Prim.Native.String.{String}
use cuirass.Prelude.{
  ℕ, ◌+◌, ◌-◌, ◌≡◌, ◌≢◌, refl, sym, ap, ◌∙◌, Bool, true, false, Option, none, some, ◌==◌, arith,
  if◌then◌else◌,
}
use cuirass.Prelude.Maps.{string_eq, lookup, insert, lookup-insert, beq_self}
use cuirass.Util.Errors.{GoError, Call}
use cuirass.Util.Semaphore.{Semaphore, release}
use cuirass.RequestCache.{ExecutedCommand, CacheKey, key_eq}
use cuirass.Executor.{State}
use cuirass.Executor.Nested.{release_in, release_found, put_released}
use cuirass.Executor.Nested.Keeping.{held_in, held_of, held_under, IsReady, Keeps, insert-Fits}

module _ {V W : Type 0} (max : String → ℕ) (T : String → Option V → Type 0) (G : W → Type 0)
    (Pins : CacheKey → ExecutedCommand V → Type 0) (K : CacheKey → Type 0) (group : String) where
  -- One more permit of the group is held than in `s`.
  pub record Taken (s t : State V W) : Type 0 where
    pub ready : IsReady max T G Pins t
    pub one_more :
        (k : String)
        → held_of k t.semaphores
          ≡ (if string_eq.beq group k then held_of k s.semaphores + 1 else held_of k s.semaphores)
    pub log_stays : s.request_log ≢ none → t.request_log ≢ none
    pub still_cached :
        (k : CacheKey) (ec : ExecutedCommand V)
        → K k
        → held_under k s.request_cache ≡ some ec
        → held_under k t.request_cache ≡ some ec

  pub Taken-Keeps : (s t u : State V W) → Taken s t → Keeps max T G Pins K t u → Taken s u
  Taken-Keeps s t u a b = record {
    ready = b.ready;
    one_more = λ k. b.same_held k ∙ a.one_more k;
    log_stays = λ q. b.log_stays (a.log_stays q);
    still_cached = λ k ec h e. b.still_cached k ec h (a.still_cached k ec h e);
  }

  released_map :
      (s t : State V W) (sem sem' : Semaphore)
      → Taken s t
      → lookup group t.semaphores ≡ some sem
      → sem'.capacity ≡ sem.capacity
      → sem'.held + 1 ≡ sem.held
      → Keeps max T G Pins K s (record t { semaphores = insert group sem' t.semaphores })
  released_map s t sem sem' a e c d = record {
    ready = record {
      metrics_valid = a.ready.metrics_valid;
      cached_fine = a.ready.cached_fine;
      world_good = a.ready.world_good;
      pinned = a.ready.pinned;
      fits =
          insert-Fits max group sem' t.semaphores (insert group sem' t.semaphores) a.ready.fits
            (c ∙ a.ready.fits group sem e) (λ k. lookup-insert group k sem' t.semaphores);
    };
    same_held = λ k.
        ap held_in (lookup-insert group k sem' t.semaphores)
        ∙ by_test k (string_eq.beq group k) (string_eq.beq_iff group k).0 (a.one_more k);
    still_cached = a.still_cached;
    log_stays = a.log_stays;
  }
    where
      by_test :
          (k : String) (b : Bool)
          → (b ≡ true → group ≡ k)
          → held_of k t.semaphores
            ≡ (if b then held_of k s.semaphores + 1 else held_of k s.semaphores)
          → held_in (if b then some sem' else lookup k t.semaphores) ≡ held_of k s.semaphores
      by_test k true q h =
          let at_group : held_of k t.semaphores ≡ sem.held =
            ap (λ j. held_of j t.semaphores) (sym (q refl)) ∙ ap held_in e in
          omega (arith, at_group, h, d)
      by_test k false q h = h

  pub release_in-Keeps :
      (s t : State V W) (r : Call (Option GoError)) (v : Option V)
      → Taken s t
      → Keeps max T G Pins K s (release_in group (r, v, t)).2
  unfolding release_in release_found put_released release
  release_in-Keeps s t r v a =
      by_lookup (lookup group t.semaphores) refl (a.one_more group ∙ rw (beq_self group) refl)
    where
      by_held :
          (sem : Semaphore)
          → lookup group t.semaphores ≡ some sem
          → sem.held ≡ held_of group s.semaphores + 1
          → (b : Bool) → (sem.held == 0) ≡ b
          → Keeps max T G Pins K s
              (put_released group
                (r, v, t)
                (if b then none else some (record sem { held = sem.held - 1 }))).2
      by_held sem e h true z = absurd (ground (arith, z, h))
      by_held sem e h false z =
          released_map s t sem (record sem { held = sem.held - 1 }) a e refl (omega (arith, h))

      by_lookup :
          (o : Option Semaphore)
          → lookup group t.semaphores ≡ o
          → held_in o ≡ held_of group s.semaphores + 1
          → Keeps max T G Pins K s (release_found group (r, v, t) o).2
      by_lookup none e h = absurd (omega (arith, h))
      by_lookup (some sem) e h = by_held sem e h (sem.held == 0) refl
