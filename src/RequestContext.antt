-- ===== src/RequestContext.antt =====
-- requestcache/context.go and requestlog/context.go: the cache and the log that a request's context
-- points to. A pointer is an index into the memory's caches or logs; `none` is nil.
pub mod Isolation
use cuirass.Prelude.{ℕ, ◌+◌, ◌≡◌, ◌≢◌, Option, none, some, List, [], ◌∷◌, ◌++◌, length}
use cuirass.RequestCache.{RequestCache, new_request_cache}
use cuirass.RequestLog.{RequestLog, new_request_log}

-- The keys of the two packages, which are 0 in a type of each package, and the keys of others.
pub data Key : Type 0 where
  request_cache_key request_log_key : Key
  other_key : ℕ → Key

-- What a context may hold under a key: a pointer of one of the two types, or something else.
pub data Value : Type 0 where
  cache_pointer log_pointer other_value : ℕ → Value

-- golang.org/x/net/context, the values of contexts.
pub record ContextValues : Type 1 where
  pub Context : Type 0
  pub with_value : Context → Key → Value → Context
  pub value : Context → Key → Option Value

-- What its documentation says of them.
pub record ValueLaws (g : ContextValues) : Type 0 where
  pub value-with_value :
      (ctx : g.Context) (k : Key) (v : Value) → g.value (g.with_value ctx k v) k ≡ some v
  pub value-with_value_ne :
      (ctx : g.Context) (k j : Key) (v : Value)
      → k ≢ j
      → g.value (g.with_value ctx k v) j ≡ g.value ctx j

pub record Memory (V : Type 0) : Type 0 where
  pub caches : List (RequestCache V)
  pub logs : List RequestLog

-- The type assertions of the two functions `FromContext`.
unfoldable pub as_cache : Option Value → Option ℕ
as_cache (some (cache_pointer a)) = some a
as_cache _ = none

unfoldable pub as_log : Option Value → Option ℕ
as_log (some (log_pointer a)) = some a
as_log _ = none

module _ (g : ContextValues) where
  open g use {Context, with_value, value}

  unfoldable pub with_request_cache : {V : Type 0} → Context → Memory V → Context × Memory V
  with_request_cache ctx m = (
    with_value ctx request_cache_key (cache_pointer (length m.caches)),
    record m { caches = m.caches ++ (new_request_cache ∷ []) },
  )

  unfoldable pub with_request_log : {V : Type 0} → Context → Memory V → Context × Memory V
  with_request_log ctx m = (
    with_value ctx request_log_key (log_pointer (length m.logs)),
    record m { logs = m.logs ++ (new_request_log ∷ []) },
  )

  unfoldable pub cache_from_context : Context → Option ℕ
  unfolding as_cache
  cache_from_context ctx = as_cache (value ctx request_cache_key)

  unfoldable pub log_from_context : Context → Option ℕ
  unfolding as_log
  log_from_context ctx = as_log (value ctx request_log_key)
