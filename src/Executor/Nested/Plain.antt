-- ===== src/Executor/Nested/Plain.antt =====
-- executor.go: a command that does not call the executor, where its functions act on the executor's
-- state: the call of its function, in the breaker.
use Prim.Native.String.{String}
use cuirass.Prelude.{◌≡◌, refl, ap, ◌∙◌, Bool, Option, none, some, Bool-cases, inl, inr}
use cuirass.Prelude.Maps.{string_eq, lookup, insert, lookup-insert_self, insert-insert}
use cuirass.Util.Clock.{Clock}
use cuirass.Util.Errors.{GoError, circuit_open_error, text_value, Call, returned, panicked}
use cuirass.Util.Semaphore.{Semaphore, try_acquire, release}
use cuirass.CircuitBreaker.HealthCounters.{inc_error}
use cuirass.CircuitBreaker.{
  CircuitBreaker, Verdict, unguarded, forced, allowed, rejected, admit, settle, Outcome, conclude,
  proceed, do_call,
}
use cuirass.Command.{GoContext, CommandProperties, Command, CommandFunc}
use cuirass.SemaphoreFactory.{get_semaphore}
use cuirass.Executor.{CbMap, State, Env, release_after, take_result, guarded}
use cuirass.Executor.Nested.{
  Ending, put_released, release_found, release_in, end_of, breaker_of, put_breaker, conclude_in,
  proceed_in, do_in, guarded_in,
}

-- A function that acts on the world of the state alone.
abbrev pub in_state : {C V W : Type 0} → CommandFunc C V W → CommandFunc C V (State V W)
in_state f ctx c s = let (r, w', c') = f ctx c s.world in (r, record s { world = w' }, c')

abbrev pub plain : {C V W : Type 0} → Command C V W → Command C V (State V W)
plain cmd = record {
  name = cmd.name;
  group = cmd.group;
  run = in_state cmd.run;
  fallback = in_state cmd.fallback;
  cache_key = cmd.cache_key;
}

module _ {V W : Type 0} where
  abbrev pub env_of : State V W → Env V W
  env_of s = record { response = none; semaphores = s.semaphores; world = s.world }

  -- What the function of the breaker made, in the state from which it was called.
  abbrev pub put_env : State V W → Call (Option GoError) × Env V W × Clock → Ending V W
  put_env s (r, env, c) =
      (r, env.response, record s { semaphores = env.semaphores; world = env.world; clock = c })

  abbrev pub put_ending : Call (Option GoError) → Option V → State V W → Ending V W
  put_ending r v s = (r, v, s)

  abbrev pub put_outcome : String → State V W → Outcome (Env V W) → Ending V W
  put_outcome name s o = (
    o.result,
    o.world.response,
    record (put_breaker name o.breaker s) {
      semaphores = o.world.semaphores;
      world = o.world.world;
      clock = o.clock;
    },
  )

module _ (g : GoContext) (properties : String → String → CommandProperties) {V W : Type 0} where
  -- The release of a semaphore that the group has.
  release_in-put_env :
      (group : String) (sem : Semaphore) (s : State V W)
      (x : Call (Option GoError) × Env V W × Clock)
      → lookup group x.1.semaphores ≡ some sem
      → release_in group (put_env s x) ≡ put_env s (release_after g properties group sem x)
  unfolding release_in release_after release_found put_released
  release_in-put_env group sem s (r, env, c) e = rw e (by_release (release sem))
    where
      by_release :
          (o : Option Semaphore)
          → put_released group (put_env s (r, env, c)) o
            ≡ put_env s (elim o [
              | some sem' ↦ (r, record env { semaphores = insert group sem' env.semaphores }, c)
              | none ↦ (panicked (text_value "releasing on empty semaphore"), env, c)
            ])
      by_release (some sem') = refl
      by_release none = refl

  end_of-in_state :
      (s : State V W) (x : Call (Option V × Option GoError) × W × Clock)
      → end_of (x.0, record s { world = x.1; clock = x.2 })
        ≡ put_env s (take_result g properties (env_of s) x)
  unfolding end_of take_result
  end_of-in_state s (returned (v, e), w, c) = refl
  end_of-in_state s (panicked p, w, c) = refl

  same_semaphores :
      (env : Env V W) (x : Call (Option V × Option GoError) × W × Clock)
      → (take_result g properties env x).1.semaphores ≡ env.semaphores
  unfolding take_result
  same_semaphores env (returned (v, e), w, c) = refl
  same_semaphores env (panicked p, w, c) = refl

  pub guarded_in-plain :
      (cmd : Command g.Context V W) (ctx : g.Context) (s : State V W)
      → guarded_in g properties (plain cmd) ctx s
        ≡ put_env s (guarded g properties cmd ctx s.clock (env_of s))
  unfolding guarded_in guarded
  guarded_in-plain cmd ctx s =
      let max = (properties cmd.name cmd.group).execution_max_concurrent_requests in
      let (sem, sems) = get_semaphore cmd.group max s.semaphores in
      let (acquired, held) = try_acquire sem in
      let s' : State V W = record s { semaphores = insert cmd.group held sems } in
      let x = cmd.run ctx s.clock s.world in
      elim (Bool-cases acquired) [
        | inl taken ↦ rw taken (
            ap (release_in cmd.group) (end_of-in_state s' x)
            ∙ release_in-put_env cmd.group held s' (take_result g properties (env_of s') x) (
                ap (lookup cmd.group) (same_semaphores (env_of s') x)
                ∙ lookup-insert_self cmd.group held sems))
        | inr refused ↦ rw refused refl
      ]

module _ {V W : Type 0} (name : String) where
  breaker_of-put_breaker :
      (cb cb' : CircuitBreaker) (s : State V W) → breaker_of name cb (put_breaker name cb' s) ≡ cb'
  unfolding breaker_of
  breaker_of-put_breaker cb cb' s =
      ap (λ (o : Option CircuitBreaker). elim o [ some b ↦ b | none ↦ cb ])
        (lookup-insert_self name cb' s.circuit_breakers)

  conclude_in-conclude :
      (trial : Bool) (cb : CircuitBreaker) (s : State V W)
      (x : Call (Option GoError) × Env V W × Clock)
      → conclude_in name trial cb (put_env (put_breaker name cb s) x)
        ≡ put_outcome name s (conclude trial cb x)
  unfolding conclude_in conclude
  conclude_in-conclude trial cb s (panicked p, env, c) = refl
  conclude_in-conclude trial cb s (returned e, env, c) =
      let s' : State V W = record s { semaphores = env.semaphores; world = env.world; clock = c } in
      rw (breaker_of-put_breaker cb cb s') (
        ap
          (λ (m : CbMap).
            put_ending (returned (settle trial e c cb).0) env.response
              (record s' { circuit_breakers = m; clock = (settle trial e c cb).2 }))
          (insert-insert name cb (settle trial e c cb).1 s.circuit_breakers))

  proceed_in-proceed :
      (v : Verdict) (f : Clock → Env V W → Call (Option GoError) × Env V W × Clock)
      (f' : State V W → Ending V W) (cb : CircuitBreaker) (s : State V W)
      → ((t : State V W) → f' t ≡ put_env t (f t.clock (env_of t)))
      → proceed_in name v f' cb (put_breaker name cb s)
        ≡ put_outcome name s (proceed v f (env_of s) cb s.clock)
  unfolding proceed_in proceed
  proceed_in-proceed unguarded f f' cb s same = same (put_breaker name cb s)
  proceed_in-proceed forced f f' cb s same = refl
  proceed_in-proceed (allowed trial) f f' cb s same =
      ap (conclude_in name trial cb) (same (put_breaker name cb s))
      ∙ conclude_in-conclude trial cb s (f s.clock (env_of s))
  proceed_in-proceed rejected f f' cb s same =
      let (hs, c') = inc_error s.clock cb.health_of in
      ap
        (λ (m : CbMap).
          put_ending (returned (some circuit_open_error)) none
            (record s { circuit_breakers = m; clock = c' }))
        (insert-insert name cb (record cb { health_of = hs }) s.circuit_breakers)

  pub do_in-do_call :
      (f : Clock → Env V W → Call (Option GoError) × Env V W × Clock) (f' : State V W → Ending V W)
      (cb : CircuitBreaker) (s : State V W)
      → ((t : State V W) → f' t ≡ put_env t (f t.clock (env_of t)))
      → do_in name f' cb s ≡ put_outcome name s (do_call f (env_of s) cb s.clock)
  unfolding do_in do_call
  do_in-do_call f f' cb s same =
      let (v, cb', c') = admit s.clock cb in
      proceed_in-proceed v f f' cb' (record s { clock = c' }) same
