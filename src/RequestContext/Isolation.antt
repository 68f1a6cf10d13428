-- ===== src/RequestContext/Isolation.antt =====
-- requestcache/context.go and requestlog/context.go: that requests do not share a cache or a log.
use cuirass.Prelude.{
  ℕ, zero, suc, ◌<◌, ◌≡◌, ◌≢◌, refl, ap, ◌∙◌, Option, none, some, List, [], ◌∷◌, ◌++◌, arith,
  length,
}
use cuirass.Prelude.{get_elem?}
use cuirass.RequestCache.{RequestCache, new_request_cache}
use cuirass.RequestLog.{RequestLog, new_request_log}
use cuirass.RequestContext.{
  request_cache_key, request_log_key, ContextValues, ValueLaws, Memory, as_cache, as_log,
  with_request_cache, with_request_log, cache_from_context, log_from_context,
}

keys_differ : request_log_key ≢ request_cache_key
keys_differ e = cc e

module _ {A : Type 0} where
  get_elem?-append_last : (xs : List A) (x : A) → get_elem? (xs ++ (x ∷ [])) (length xs) ≡ some x
  get_elem?-append_last [] x = refl
  get_elem?-append_last (y ∷ xs) x = get_elem?-append_last xs x

  get_elem?-append_lt :
      (xs : List A) (x : A) (i : ℕ) → i < length xs → get_elem? (xs ++ (x ∷ [])) i ≡ get_elem? xs i
  get_elem?-append_lt [] x i h = elim h [ ]
  get_elem?-append_lt (y ∷ xs) x zero h = refl
  get_elem?-append_lt (y ∷ xs) x (suc i) h = get_elem?-append_lt xs x i (omega arith)

  get_elem?-lt : (xs : List A) (i : ℕ) (x : A) → get_elem? xs i ≡ some x → i < length xs
  get_elem?-lt [] i x h = absurd (none_ne h)
    where
      none_ne : {x : A} → ◌≢◌ {A = Option A} none (some x)
      none_ne e = cc e
  get_elem?-lt (y ∷ xs) zero x h = omega arith
  get_elem?-lt (y ∷ xs) (suc i) x h = omega (arith, get_elem?-lt xs i x h)

-- A request: a context under `ctx` with a cache and a log of its own, as the program makes one.
abbrev pub new_request :
    (g : ContextValues) {V : Type 0} → g.Context → Memory V → g.Context × Memory V
new_request g ctx m = let (ctx', m') = with_request_cache g ctx m in with_request_log g ctx' m'

module _ (g : ContextValues) {V : Type 0} where
  -- The context has a cache and a log in the memory, which hold this.
  pub record Holds (ctx : g.Context) (m : Memory V) (cache : RequestCache V) (log : RequestLog)
      : Type 0 where
    pub cache_at : ℕ
    pub log_at : ℕ
    pub has_cache : cache_from_context g ctx ≡ some cache_at
    pub has_log : log_from_context g ctx ≡ some log_at
    pub cache_there : get_elem? m.caches cache_at ≡ some cache
    pub log_there : get_elem? m.logs log_at ≡ some log

module _ (g : ContextValues) (laws : ValueLaws g) {V : Type 0} where
  new_request-Holds :
      (ctx : g.Context) (m : Memory V)
      → (h : Holds g
          (new_request g ctx m).0
          (new_request g ctx m).1
          new_request_cache
          new_request_log)
        × (h.cache_at ≡ length m.caches)
        × (h.log_at ≡ length m.logs)
  unfolding with_request_cache with_request_log cache_from_context log_from_context as_cache as_log
  new_request-Holds ctx m = (
    record {
      cache_at = length m.caches;
      log_at = length m.logs;
      has_cache = ap as_cache (
          laws.value-with_value_ne _ request_log_key request_cache_key _ keys_differ
          ∙ laws.value-with_value ctx request_cache_key _);
      has_log = ap as_log (laws.value-with_value _ request_log_key _);
      cache_there = get_elem?-append_last m.caches new_request_cache;
      log_there = get_elem?-append_last m.logs new_request_log;
    },
    refl,
    refl,
  )

  -- A request that is made under any context gets an empty cache and an empty log. A request from
  -- before keeps its own, with what they hold, and the two share neither.
  pub new_request-Holds_apart :
      (ctx parent : g.Context) (m : Memory V) (cache : RequestCache V) (log : RequestLog)
      → Holds g ctx m cache log
      → (old : Holds g ctx (new_request g parent m).1 cache log) × (new : Holds g
          (new_request g parent m).0
          (new_request g parent m).1
          new_request_cache
          new_request_log)
        × (old.cache_at ≢ new.cache_at)
        × (old.log_at ≢ new.log_at)
  unfolding with_request_cache with_request_log
  new_request-Holds_apart ctx parent m cache log h =
      let cache_in = get_elem?-lt m.caches h.cache_at cache h.cache_there in
      let new = new_request-Holds parent m in
      let log_in = get_elem?-lt m.logs h.log_at log h.log_there in
      (
        record {
          cache_at = h.cache_at;
          log_at = h.log_at;
          has_cache = h.has_cache;
          has_log = h.has_log;
          cache_there =
              get_elem?-append_lt m.caches new_request_cache h.cache_at cache_in ∙ h.cache_there;
          log_there = get_elem?-append_lt m.logs new_request_log h.log_at log_in ∙ h.log_there;
        },
        new.0,
        λ e. omega (arith, e, cache_in, new.1),
        λ e. omega (arith, e, log_in, new.2),
      )
