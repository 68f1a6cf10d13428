-- ===== src/RequestCache.antt =====
-- requestcache/cache.go. The map is from a command's name and its cache key. A pointer to an
-- executed command is a value here, since `Get` copies it and nothing changes it.
use Prim.Native.String.{String}
use cuirass.Prelude.{
  ◌≡◌, ◌↔◌, Bool, true, ◌&&◌, Option, some, List, [], ◌∷◌, ◌++◌, arith, if◌then◌else◌,
}
use cuirass.Prelude.Maps.{Eq, string_eq, lookup, insert, lookup-insert}
use cuirass.Util.Errors.{GoError}
use cuirass.RequestLog.{ExecutionInfo, response_from_cache, new_execution_info}

pub record CacheKey : Type 0 where
  pub command_name : String
  pub key : String

abbrev pub new_cache_key : String → String → CacheKey
new_cache_key name key = record { command_name = name; key = key }

abbrev pub same_key : CacheKey → CacheKey → Bool
same_key a b = string_eq.beq a.command_name b.command_name && string_eq.beq a.key b.key

pub same_key_iff : (a b : CacheKey) → (same_key a b ≡ true) ↔ (a ≡ b)
same_key_iff a b =
    ground (arith, string_eq.beq_iff a.command_name b.command_name, string_eq.beq_iff a.key b.key)

instance abbrev pub key_eq : Eq CacheKey
key_eq = record { beq = same_key; beq_iff = same_key_iff }

-- A response is an `interface{}`: a value of the program that uses the library, or nil.
pub record ExecutedCommand (V : Type 0) : Type 0 where
  pub response : Option V
  pub err : Option GoError
  pub info : ExecutionInfo

abbrev pub RequestCache : Type 0 → Type 0
RequestCache V = List (CacheKey × ExecutedCommand V)

abbrev pub new_request_cache : {V : Type 0} → RequestCache V
new_request_cache = []

module _ {V : Type 0} where
  unfoldable pub get : String → String → RequestCache V → Option (ExecutedCommand V)
  get name key cache = lookup (new_cache_key name key) cache

  -- What `Add` stores: the events with the one for a cached response behind them, and no time.
  abbrev pub cached : ExecutionInfo → Option V → Option GoError → ExecutedCommand V
  cached info r err = record {
    response = r;
    err = err;
    info = new_execution_info info.command_name 0 (info.events ++ (response_from_cache ∷ []));
  }

  unfoldable pub add :
      String → String → ExecutionInfo → Option V → Option GoError → RequestCache V → RequestCache V
  add name key info r err cache = insert (new_cache_key name key) (cached info r err) cache

  -- After `Add`, `Get` finds the response and the error that were added under the same name and
  -- key, with the events followed by that of a cached response and with the time 0; under any other
  -- name or key it finds what it found before.
  pub get-add :
      (name key name' key' : String) (info : ExecutionInfo) (r : Option V) (err : Option GoError)
      (cache : RequestCache V)
      → get name' key' (add name key info r err cache) ≡ (
          if same_key (new_cache_key name key) (new_cache_key name' key')
          then some (cached info r err)
          else get name' key' cache)
  unfolding get add
  get-add name key name' key' info r err cache =
      lookup-insert (new_cache_key name key) (new_cache_key name' key') (cached info r err) cache
