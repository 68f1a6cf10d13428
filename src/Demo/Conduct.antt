-- ===== src/Demo/Conduct.antt =====
-- examples/commands: what every call is to leave, and that a goroutine that ends leaves it.
use Prim.Native.String.{String}
use mathlib.Core.Path.{subst}
use cuirass.Prelude.{ℕ, ◌<◌, ◌≡◌, refl, sym, Bool, true, false, Option, none, some, if◌then◌else◌}
use cuirass.Prelude.Options.{Returns, returns}
use cuirass.Prelude.Maps.{string_eq, lookup}
use cuirass.Util.Errors.{GoError, returned}
use cuirass.RequestCache.{ExecutedCommand, CacheKey}
use cuirass.Command.{GoContext, CommandProperties, Command, default_fallback}
use cuirass.Util.Clock.{Clock}
use cuirass.Properties.{PropertyFactory}
use cuirass.Metrics.{new_metrics_properties, new_execution_metrics}
use cuirass.Executor.{Reply, new_executor_with_clock}
use cuirass.Executor.Nested.{call_function, exec_in}
use cuirass.Executor.Nested.Keeping.{IsReady, Keeps, Careful, Fine, FineCall, Keeps-trans}
use cuirass.Executor.Nested.Replying.{Anything}
use cuirass.Executor.Nested.Execs.{IsSound}
use cuirass.Demo.{
  UserAccount, PaymentInformation, Order, CreditCardAuthorizationResult, Value, authorization_value,
  Platform, Process, Exec, as_user, as_payment, as_order, DemoState, put_platform, select,
  in_goroutine, on_platform,
}

-- What the assertions on a reply find.
abbrev pub IsUser : Option Value → Type 0
IsUser v = (u : UserAccount) × (as_user v ≡ some u)

abbrev pub IsPayment : Option Value → Type 0
IsPayment v = (p : PaymentInformation) × (as_payment v ≡ some p)

abbrev pub IsOrder : Option Value → Type 0
IsOrder v = (o : Order) × (as_order v ≡ some (some o))

abbrev pub IsAuthorization : Option Value → Type 0
IsAuthorization v = (r : CreditCardAuthorizationResult) × (v ≡ some (authorization_value r))

-- The type of a command's values, by its name.
abbrev pub Typed : String → Option Value → Type 0
Typed name v =
    if string_eq.beq name "GetUserAccountCommand"
    then IsUser v
    else if string_eq.beq name "GetPaymentInformationCommand"
    then IsPayment v
    else if string_eq.beq name "GetOrderCommand"
    then IsOrder v
    else if string_eq.beq name "CreditCardCommand"
    then IsAuthorization v
    else Unit {0}

-- Nothing is known of what the cache holds.
abbrev pub NoPins : CacheKey → ExecutedCommand Value → Type 0
NoPins k ec = ⊥

module _ (g : GoContext) (properties : String → String → CommandProperties)
    (h : Platform g.Context) where
  open g use {Context}
  open h use {P}

  -- The commands of the examples are groups of their own.
  abbrev pub max_of : String → ℕ
  max_of group = (properties group group).execution_max_concurrent_requests

  -- No panic has ended the process.
  abbrev pub IsRunning : Process P → Type 0
  IsRunning w = w.crashed ≡ false

  abbrev pub the_exec : Exec Context P
  the_exec = exec_in g properties

-- What is said of the commands' values, and of the entries that the cache holds.
module _ (g : GoContext) (properties : String → String → CommandProperties) (h : Platform g.Context)
    (T : String → Option Value → Type 0) (Pins : CacheKey → ExecutedCommand Value → Type 0) where
  open g use {Context}
  open h use {P}

  abbrev pub Ready : DemoState h → Type 0
  Ready s = IsReady (max_of g properties h) T (IsRunning g properties h) Pins s

  abbrev pub Kept : DemoState h → DemoState h → Type 0
  Kept s s' = Keeps (max_of g properties h) T (IsRunning g properties h) Pins Anything s s'

  abbrev pub Sound : Command Context Value (DemoState h) → Type 0
  Sound cmd = IsSound g properties (max_of g properties h) T (IsRunning g properties h) Pins cmd

  -- What is left with a reply of the command `name`.
  abbrev pub Sends : String → DemoState h → Option (Reply Value × DemoState h) → Type 0
  Sends name s o = Returns (λ (reply, s'). Kept s s' × Fine T name reply.0 reply.1) o

  pub put_platform-Kept : (s : DemoState h) (p : P) → Ready s → Kept s (put_platform h p s)
  put_platform-Kept s p r = record {
    ready = record {
      metrics_valid = r.metrics_valid;
      fits = r.fits;
      world_good = r.world_good;
      pinned = r.pinned;
      cached_fine = r.cached_fine;
    };
    same_held = λ k. refl;
    log_stays = λ q. q;
    still_cached = λ k ec a e. e;
  }

  pub Kept-trans : (s t u : DemoState h) → Kept s t → Kept t u → Kept s u
  Kept-trans s t u =
      Keeps-trans (max_of g properties h) T (IsRunning g properties h) Pins Anything s t u

  -- Where the goroutine ends, its reply or the context's error is left.
  select-Kept :
      (name : String) (ctx : Context) (s : DemoState h) (o : Option (Reply Value × DemoState h))
      → Sends name s o
      → Kept s (select h ctx o s).1 × FineCall T name (select h ctx o s).0
  unfolding select
  select-Kept name ctx s o (returns (reply, s') k) =
      let (done, p) = h.is_done ctx s'.world.platform in
      (
        Kept-trans s s' (put_platform h p s') k.0 (put_platform-Kept s' p k.0.ready),
        by_choice done (h.err ctx p) k.1,
      )
    where
      by_choice :
          (b : Bool) (e : GoError)
          → Fine T name reply.0 reply.1
          → FineCall T name (if b then returned (none, some e) else returned reply)
      by_choice true e fine = λ q. cc q
      by_choice false e fine = fine

  select-clock :
      (name : String) (ctx : Context) (s : DemoState h) (o : Option (Reply Value × DemoState h))
      → Sends name s o
      → (select h ctx o s).2 ≡ (select h ctx o s).1.clock
  unfolding select
  select-clock name ctx s o (returns (reply, s') k) = refl

  -- The function of a command whose goroutine never panics.
  pub in_goroutine-Careful :
      (name : String) (body : Context → DemoState h → Option (Reply Value × DemoState h))
      → ((ctx : Context) (s : DemoState h) → Ready s → Sends name s (body ctx s))
      → (ctx : Context)
      → Careful
          (max_of g properties h)
          T
          (IsRunning g properties h)
          Pins
          Anything
          name
          (call_function (in_goroutine h body) ctx)
  unfolding in_goroutine
  in_goroutine-Careful name body sends ctx s r =
      let e = select-Kept name ctx s (body ctx s) (sends ctx s r) in
      (
        subst (λ c. Kept s (record (select h ctx (body ctx s) s).1 { clock = c }))
            (sym (select-clock name ctx s (body ctx s) (sends ctx s r))) e.0,
        e.1,
      )

  pub on_platform-Sends :
      (name : String) (f : P → Reply Value × P)
      → ((p : P) → Fine T name (f p).0.0 (f p).0.1)
      → (ctx : Context) (s : DemoState h) → Ready s
      → Sends name s (on_platform h f ctx s)
  on_platform-Sends name f fine ctx s r =
      returns _ (put_platform-Kept s (f s.world.platform).1 r, fine s.world.platform)

  -- A reply with an error is fine.
  pub failed-Fine : (name : String) (v : Option Value) (e : GoError) → Fine T name v (some e)
  failed-Fine name v e q = cc q

  pub default-Careful :
      (name : String) (ctx : Context)
      → Careful
          (max_of g properties h)
          T
          (IsRunning g properties h)
          Pins
          Anything
          name
          (call_function (default_fallback {V = Value}) ctx)
  default-Careful name ctx s r = (put_platform-Kept s s.world.platform r, failed-Fine name _ _)

module _ (g : GoContext) (properties : String → String → CommandProperties)
    (h : Platform g.Context) where
  open h use {P}

  -- A new executor is ready.
  pub new_executor_with_clock-Ready :
      (cfg : PropertyFactory) (clock wall : Clock) (p : P)
      → 0 < (new_metrics_properties cfg).rolling_percentile_bucket_size
      → Ready g properties h Typed NoPins (
          new_executor_with_clock cfg clock wall none none
            (record { platform = p; crashed = false }))
  unfolding new_executor_with_clock new_execution_metrics lookup
  new_executor_with_clock-Ready cfg clock wall p pos = record {
    metrics_valid = record { room = pos; ready = λ name m e. cc e };
    fits = λ k sem e. cc e;
    world_good = refl;
    pinned = λ k ec p. absurd p;
    cached_fine = λ k ec e. cc e;
  }
