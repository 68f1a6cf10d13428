-- ===== src/Executor/Nested/Finishing.antt =====
-- executor.go, with nested calls: the end of `Exec`.
use Prim.Native.String.{String}
use mathlib.Core.Path.{subst}
use mathlib.Core.Option.{some-injective}
use cuirass.Prelude.{
  ℕ, ◌≡◌, ◌≢◌, refl, sym, ap, ◌∙◌, Bool, true, false, Option, none, some, List, if◌then◌else◌,
}
use cuirass.Prelude.Maps.{string_eq, lookup, insert, lookup-insert}
use cuirass.Util.Clock.{later}
use cuirass.RequestLog.{ExecutionEvent}
use cuirass.RequestCache
use cuirass.RequestCache.{RequestCache, ExecutedCommand, CacheKey, key_eq, new_cache_key}
use cuirass.Command.{GoContext, CommandProperties, Command}
use cuirass.Executor.{
  State, Reply, usable_cache, get_request_cache, to_execution_info, remember_in, remember,
}
use cuirass.Executor.Endings.{may_cache}
use cuirass.Executor.Nested.Keeping.{held_under, IsReady, Keeps, Fine, Keeps-trans, same-Keeps}

module _ (g : GoContext) (properties : String → String → CommandProperties) {V W : Type 0}
    (max : String → ℕ) (T : String → Option V → Type 0) (G : W → Type 0)
    (Pins : CacheKey → ExecutedCommand V → Type 0) (cmd : Command g.Context V (State V W)) where
  -- The keys but that of the command, if its responses may be cached.
  abbrev pub Others : CacheKey → Type 0
  Others k = may_cache g properties cmd ≡ true → new_cache_key cmd.name cmd.cache_key ≢ k

  -- Nothing is pinned under the key of the command, if its responses may be cached.
  abbrev pub Unpinned : Type 0
  Unpinned =
      may_cache g properties cmd ≡ true
      → (ec : ExecutedCommand V) → ¬ Pins (new_cache_key cmd.name cmd.cache_key) ec

  added-Keeps :
      (s : State V W) (ec : ExecutedCommand V) (cache : RequestCache V)
      → IsReady max T G Pins s
      → may_cache g properties cmd ≡ true
      → s.request_cache ≡ some cache
      → Fine T cmd.name ec.response ec.err
      → Unpinned
      → Keeps max T G Pins Others s (record s {
        wall = later s.wall;
        request_cache = some (insert (new_cache_key cmd.name cmd.cache_key) ec cache);
      })
  added-Keeps s ec cache r may there fine own = record {
    ready = record {
      metrics_valid = r.metrics_valid;
      fits = r.fits;
      world_good = r.world_good;
      pinned = λ k x p.
          lookup-insert key k ec cache
          ∙ kept k (key_eq.beq key k) (key_eq.beq_iff key k).0
              (λ q. own may x (subst (λ j. Pins j x) (sym q) p))
          ∙ sym (ap (held_under k) there)
          ∙ r.pinned k x p;
      cached_fine = λ k x q.
          by_key k x (key_eq.beq key k) (key_eq.beq_iff key k).0
            (sym (lookup-insert key k ec cache) ∙ q);
    };
    same_held = λ k. refl;
    log_stays = λ q. q;
    still_cached = λ k x other q.
        lookup-insert key k ec cache
        ∙ kept k (key_eq.beq key k) (key_eq.beq_iff key k).0 (other may)
        ∙ sym (ap (held_under k) there)
        ∙ q;
  }
    where
      key : CacheKey
      key = new_cache_key cmd.name cmd.cache_key

      by_key :
          (k : CacheKey) (x : ExecutedCommand V) (b : Bool)
          → (b ≡ true → key ≡ k)
          → (if b then some ec else lookup k cache) ≡ some x
          → Fine T k.command_name x.response x.err
      by_key k x true same q =
          subst (λ (y : ExecutedCommand V). Fine T k.command_name y.response y.err)
            (some-injective ec x q)
            (subst (λ (j : CacheKey). Fine T j.command_name ec.response ec.err) (same refl) fine)
      by_key k x false same q = r.cached_fine k x (ap (held_under k) there ∙ q)

      kept :
          (k : CacheKey) (b : Bool)
          → (b ≡ true → key ≡ k)
          → key ≢ k
          → (if b then some ec else lookup k cache) ≡ lookup k cache
      kept k true same ne = absurd (ne (same refl))
      kept k false same ne = refl

  -- What `remember` is to keep, and give back.
  abbrev Remembers : Reply V → State V W → Reply V × State V W → Type 0
  Remembers reply s (reply', s') = (reply' ≡ reply) × Keeps max T G Pins Others s s'

  remember-Keeps :
      (start : ℕ) (events : List ExecutionEvent) (reply : Reply V) (s : State V W)
      → IsReady max T G Pins s
      → Fine T cmd.name reply.0 reply.1
      → Unpinned
      → Remembers reply s (remember g properties start events cmd reply s)
  unfolding remember remember_in get_request_cache usable_cache to_execution_info RequestCache.add
  remember-Keeps start events reply s r fine own = by_cache s.request_cache refl
    where
      same : Remembers reply s (reply, s)
      same = (refl, same-Keeps max T G Pins Others s s r r.metrics_valid refl refl refl (λ q. q))

      by_may :
          (cache : RequestCache V)
          → s.request_cache ≡ some cache
          → (b : Bool) → may_cache g properties cmd ≡ b
          → Remembers reply s
              (remember_in g properties start events cmd reply s (if b then some cache else none))
      by_may cache e true m = (refl, added-Keeps s _ cache r m e fine own)
      by_may cache e false m = same

      by_cache :
          (o : Option (RequestCache V))
          → s.request_cache ≡ o
          → Remembers reply s
              (remember_in g properties start events cmd reply s (usable_cache g properties cmd o))
      by_cache none e = same
      by_cache (some cache) e = by_may cache e (may_cache g properties cmd) refl

  -- What a call leaves: a fine reply, and a state that keeps what `K` says.
  abbrev pub Replies : (CacheKey → Type 0) → State V W → Reply V × State V W → Type 0
  Replies K s (reply, s') = Keeps max T G Pins K s s' × Fine T cmd.name reply.0 reply.1

  pub remembered-Replies :
      (start : ℕ) (events : List ExecutionEvent) (reply : Reply V) (s t : State V W)
      → Keeps max T G Pins Others s t
      → Fine T cmd.name reply.0 reply.1
      → Unpinned
      → Replies Others s (remember g properties start events cmd reply t)
  remembered-Replies start events reply s t k fine own =
      let m = remember-Keeps start events reply t k.ready fine own in
      (
        Keeps-trans max T G Pins Others s t _ k m.1,
        subst (λ (x : Reply V). Fine T cmd.name x.0 x.1) (sym m.0) fine,
      )
