-- ===== src/Executor/Nested/Keeping.antt =====
-- executor.go, with nested calls: what a call keeps of the executor's state.
use Prim.Native.String.{String}
use mathlib.Core.Path.{subst}
use cuirass.Prelude.{
  ℕ, ◌≡◌, ◌≢◌, refl, sym, ap, ◌∙◌, Bool, true, false, Option, none, some, ==_iff, arith,
  if◌then◌else◌,
}
use cuirass.Prelude.Options.{◌>>=◌}
use cuirass.Prelude.Maps.{string_eq, lookup, lookup-insert}
use cuirass.Util.Errors.{GoError, Call, returned, panicked}
use cuirass.Util.Semaphore.{Semaphore, new_semaphore}
use cuirass.RequestCache.{RequestCache, ExecutedCommand, CacheKey, key_eq}
use cuirass.Metrics.Totality
use cuirass.SemaphoreFactory.{Semaphores, get_semaphore, reuse}
use cuirass.Executor.{State}
use cuirass.Executor.Logging.{Logged}
use cuirass.Executor.Nested.{Ending}

-- How many permits of a group are held.
abbrev pub held_in : Option Semaphore → ℕ
held_in none = 0
held_in (some s) = s.held

abbrev pub held_of : String → Semaphores → ℕ
held_of k m = held_in (lookup k m)

-- Every semaphore has the capacity of its group.
abbrev pub Fits : (String → ℕ) → Semaphores → Type 0
Fits max m = (k : String) (s : Semaphore) → lookup k m ≡ some s → s.capacity ≡ max k

-- What the cache of a request holds under a key.
abbrev pub held_under :
    {V : Type 0} → CacheKey → Option (RequestCache V) → Option (ExecutedCommand V)
held_under k o = o >>= lookup k

module _ {V : Type 0} (T : String → Option V → Type 0) where
  -- A reply with no error has a value as `T` says for the command.
  abbrev pub Fine : String → Option V → Option GoError → Type 0
  Fine name v e = e ≡ none → T name v

  abbrev pub FineCall : String → Call (Option V × Option GoError) → Type 0
  FineCall name (returned (v, e)) = Fine name v e
  FineCall name (panicked p) = Unit {0}

module _ {V W : Type 0} (max : String → ℕ) (T : String → Option V → Type 0) (G : W → Type 0)
    (Pins : CacheKey → ExecutedCommand V → Type 0) where
  -- The metrics are valid, each semaphore has its group's capacity, the world is as `G` says, every
  -- response in the cache is fine, and the cache holds what `Pins` says.
  pub record IsReady (s : State V W) : Type 0 where
    pub metrics_valid : Totality.IsValid s.metrics
    pub fits : Fits max s.semaphores
    pub world_good : G s.world
    pub pinned :
        (k : CacheKey) (ec : ExecutedCommand V) → Pins k ec → held_under k s.request_cache ≡ some ec
    pub cached_fine :
        (k : CacheKey) (ec : ExecutedCommand V)
        → held_under k s.request_cache ≡ some ec
        → Fine T k.command_name ec.response ec.err

  -- The state stays ready, as many permits of each group are held, the context keeps a log, and the
  -- cache holds what it held under the keys of `K`.
  pub record Keeps (K : CacheKey → Type 0) (s s' : State V W) : Type 0 where
    pub ready : IsReady s'
    pub same_held : (k : String) → held_of k s'.semaphores ≡ held_of k s.semaphores
    pub log_stays : s.request_log ≢ none → s'.request_log ≢ none
    pub still_cached :
        (k : CacheKey) (ec : ExecutedCommand V)
        → K k
        → held_under k s.request_cache ≡ some ec
        → held_under k s'.request_cache ≡ some ec

  -- A function of a command that does so from every ready state, and returns what is fine.
  abbrev pub Careful :
      (CacheKey → Type 0)
      → String
      → (State V W → Call (Option V × Option GoError) × State V W)
      → Type 0
  Careful K name f = (s : State V W) → IsReady s → Keeps K s (f s).1 × FineCall T name (f s).0

  -- How a function given to a breaker may end.
  abbrev pub Ends : (CacheKey → Type 0) → String → State V W → Ending V W → Type 0
  Ends K name s (r, v, t) = Keeps K s t × (r ≡ returned none → T name v)

  pub Keeps-trans :
      (K : CacheKey → Type 0) (s t u : State V W) → Keeps K s t → Keeps K t u → Keeps K s u
  Keeps-trans K s t u a b = record {
    ready = b.ready;
    same_held = λ k. b.same_held k ∙ a.same_held k;
    log_stays = λ q. b.log_stays (a.log_stays q);
    still_cached = λ k ec h e. b.still_cached k ec h (a.still_cached k ec h e);
  }

  -- A step that leaves the semaphores and the cache alone.
  pub same-Keeps :
      (K : CacheKey → Type 0) (s t : State V W)
      → IsReady s
      → Totality.IsValid t.metrics
      → t.semaphores ≡ s.semaphores
      → t.request_cache ≡ s.request_cache
      → t.world ≡ s.world
      → (s.request_log ≢ none → t.request_log ≢ none)
      → Keeps K s t
  same-Keeps K s t r v e e' w stays = record {
    ready = record {
      metrics_valid = v;
      fits = λ k sem h. r.fits k sem (ap (lookup k) (sym e) ∙ h);
      world_good = subst G (sym w) r.world_good;
      pinned = λ k ec p. ap (held_under k) e' ∙ r.pinned k ec p;
      cached_fine = λ k ec q. r.cached_fine k ec (ap (held_under k) (sym e') ∙ q);
    };
    same_held = λ k. ap (held_of k) e;
    log_stays = stays;
    still_cached = λ k ec h q. ap (held_under k) e' ∙ q;
  }

  pub Logged-Keeps :
      (K : CacheKey → Type 0) (s t : State V W) → IsReady s → Logged s t → Keeps K s t
  Logged-Keeps K s t r l =
      same-Keeps K s t r l.metrics_valid l.same_semaphores l.same_cache l.same_world l.log_stays

-- The semaphore that the factory hands out has the capacity of its group, and the map has it.
pub record Handed (max : String → ℕ) (group : String) (m : Semaphores) (r : Semaphore × Semaphores)
    : Type 0 where
  pub capacity_fits : r.0.capacity ≡ max group
  pub held_same : r.0.held ≡ held_of group m
  pub in_map :
      (k : String) → lookup k r.1 ≡ (if string_eq.beq group k then some r.0 else lookup k m)

reuse-Handed :
    (max : String → ℕ) (group : String) (m : Semaphores) (o : Option Semaphore)
    → Fits max m
    → lookup group m ≡ o
    → Handed max group m (reuse group (max group) m o)
unfolding reuse new_semaphore
reuse-Handed max group m none fits e = record {
  capacity_fits = refl;
  held_same = sym (ap held_in e);
  in_map = λ k. lookup-insert group k (new_semaphore (max group)) m;
}
reuse-Handed max group m (some s) fits e =
    rw ((==_iff (max group) s.capacity).1 (sym (fits group s e))) (record {
      capacity_fits = fits group s e;
      held_same = sym (ap held_in e);
      in_map = λ k. by_test k (string_eq.beq group k) (string_eq.beq_iff group k).0;
    })
  where
    by_test :
        (k : String) (b : Bool)
        → (b ≡ true → group ≡ k)
        → lookup k m ≡ (if b then some s else lookup k m)
    by_test k true q = ap (λ j. lookup j m) (sym (q refl)) ∙ e
    by_test k false q = refl

pub get_semaphore-Handed :
    (max : String → ℕ) (group : String) (m : Semaphores)
    → Fits max m
    → Handed max group m (get_semaphore group (max group) m)
unfolding get_semaphore
get_semaphore-Handed max group m fits = reuse-Handed max group m (lookup group m) fits refl

-- A semaphore of the capacity of its group is put into the map.
pub insert-Fits :
    (max : String → ℕ) (group : String) (sem : Semaphore) (m m' : Semaphores)
    → Fits max m
    → sem.capacity ≡ max group
    → ((k : String) → lookup k m' ≡ (if string_eq.beq group k then some sem else lookup k m))
    → Fits max m'
insert-Fits max group sem m m' fits c inside k s e =
    by_test (string_eq.beq group k) (string_eq.beq_iff group k).0 (sym (inside k) ∙ e)
  where
    by_test :
        (b : Bool)
        → (b ≡ true → group ≡ k)
        → (if b then some sem else lookup k m) ≡ some s
        → s.capacity ≡ max k
    by_test true q h = ground (arith, c, ap max (q refl), h)
    by_test false q h = fits k s h
