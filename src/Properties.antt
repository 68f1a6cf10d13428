-- ===== src/Properties.antt =====
-- commandproperties.go and propertiescache.go. A property is what it reads when it is asked; the
-- prefix of the names alone is read once, when the properties of a command are made.
pub mod Resolution
pub mod Caching
use Prim.Native.String.{String, ◌++◌ as ◌<>◌}
use cuirass.Prelude.{
  ℕ, ◌*◌, ◌≡◌, Bool, true, false, ◌&&◌, Option, none, some, List, [], ◌∷◌, arith, ◌↔◌,
}
use cuirass.Prelude.Maps.{Eq, string_eq, lookup, insert}
use cuirass.Num.BucketSize.{millisecond}
use cuirass.CircuitBreaker.{CircuitBreakerProperties}
use cuirass.Command.{CommandProperties}

-- github.com/arjantop/vaquita: what the property factory of a configuration reads at a moment. Each
-- function is given the name and what to fall back to: a default, or the value of the next property
-- in the chain. Durations have a unit in front of that.
pub record PropertyFactory : Type 0 where
  pub get_string : String → String → String
  pub get_bool : String → Bool → Bool
  pub get_int : String → ℕ → ℕ
  pub get_duration : String → ℕ → ℕ → ℕ
  pub chained_bool : String → Bool → Bool
  pub chained_int : String → ℕ → ℕ
  pub chained_duration : String → ℕ → ℕ → ℕ

abbrev pub execution_timeout_default : ℕ
execution_timeout_default = 0

abbrev pub execution_max_concurrent_requests_default : ℕ
execution_max_concurrent_requests_default = 100

abbrev pub fallback_enabled_default : Bool
fallback_enabled_default = true

abbrev pub request_cache_enabled_default : Bool
request_cache_enabled_default = true

abbrev pub request_log_enabled_default : Bool
request_log_enabled_default = true

abbrev pub circuit_breaker_enabled_default : Bool
circuit_breaker_enabled_default = true

abbrev pub circuit_breaker_request_volume_threshold_default : ℕ
circuit_breaker_request_volume_threshold_default = 20

abbrev pub circuit_breaker_sleep_window_default : ℕ
circuit_breaker_sleep_window_default = 5000 * millisecond

abbrev pub circuit_breaker_error_threshold_percentage_default : ℕ
circuit_breaker_error_threshold_percentage_default = 50

abbrev pub circuit_breaker_force_open_default : Bool
circuit_breaker_force_open_default = false

abbrev pub circuit_breaker_force_closed_default : Bool
circuit_breaker_force_closed_default = false

-- The two names of a property: that of the command or the group, and that of all of them.
abbrev pub own_name : String → String → String → String
own_name prefix command_name property_name =
    prefix <> ("." <> (command_name <> ("." <> property_name)))

abbrev pub default_name : String → String → String
default_name prefix property_name = prefix <> (".default." <> property_name)

module _ (f : PropertyFactory) (prefix command_name property_name : String) where
  unfoldable pub new_bool_property : Bool → Bool
  new_bool_property default =
      f.chained_bool (own_name prefix command_name property_name)
        (f.get_bool (default_name prefix property_name) default)

  unfoldable pub new_int_property : ℕ → ℕ
  new_int_property default =
      f.chained_int (own_name prefix command_name property_name)
        (f.get_int (default_name prefix property_name) default)

  unfoldable pub new_duration_property : ℕ → ℕ
  new_duration_property default =
      f.chained_duration (own_name prefix command_name property_name) millisecond
        (f.get_duration (default_name prefix property_name) millisecond default)

-- What the properties of a command read from the configuration as it is later on.
abbrev pub PropertyReader : Type 0
PropertyReader = PropertyFactory → CommandProperties

unfoldable pub property_prefix : PropertyFactory → String
property_prefix f = f.get_string "cuirass.config.prefix" "cuirass"

-- The properties under a prefix.
unfoldable pub read_properties : String → String → String → PropertyReader
read_properties property_prefix command_name command_group f =
    let prefix = property_prefix <> ".command" in
    record {
      execution_timeout =
          new_duration_property f prefix command_name
            "execution.isolation.thread.timeoutInMilliseconds" execution_timeout_default;
      execution_max_concurrent_requests =
          new_int_property f prefix command_group
            "execution.isolation.semaphore.maxConcurrentRequests"
            execution_max_concurrent_requests_default;
      fallback_enabled =
          new_bool_property f prefix command_name "fallback.enabled" fallback_enabled_default;
      request_cache_enabled =
          new_bool_property f prefix command_name "requestCache.enabled"
            request_cache_enabled_default;
      request_log_enabled =
          new_bool_property f prefix command_name "requestLog.enabled" request_log_enabled_default;
      circuit_breaker = record {
        enabled =
            new_bool_property f prefix command_name "circuitbreaker.enabled"
              circuit_breaker_enabled_default;
        request_volume_threshold =
            new_int_property f prefix command_name "circuitbreaker.requestVolumeThreshold"
              circuit_breaker_request_volume_threshold_default;
        sleep_window =
            new_duration_property f prefix command_name "circuitbreaker.sleepWindowInMilliseconds"
              circuit_breaker_sleep_window_default;
        error_threshold_percentage =
            new_int_property f prefix command_name "circuitbreaker.errorThresholdPercentage"
              circuit_breaker_error_threshold_percentage_default;
        force_open =
            new_bool_property f prefix command_name "circuitbreaker.forceOpen"
              circuit_breaker_force_open_default;
        force_closed =
            new_bool_property f prefix command_name "circuitbreaker.forceClosed"
              circuit_breaker_force_closed_default;
      };
    }

unfoldable pub new_command_properties : PropertyFactory → String → String → PropertyReader
new_command_properties f command_name command_group =
    read_properties (property_prefix f) command_name command_group

-- The key of the cache. A configuration is a value that can be compared.
pub record PropertyKey (Config : Type 0) : Type 0 where
  pub name : String
  pub group : String
  pub cfg : Config

-- The package's variable `cache`.
abbrev pub PropertyCache : Type 0 → Type 0
PropertyCache Config = List (PropertyKey Config × PropertyReader)

module _ {Config : Type 0} ⦃e : Eq Config⦄ where
  abbrev pub same_property_key : PropertyKey Config → PropertyKey Config → Bool
  same_property_key a b =
      string_eq.beq a.name b.name && string_eq.beq a.group b.group && e.beq a.cfg b.cfg

  pub same_property_key_iff : (a b : PropertyKey Config) → (same_property_key a b ≡ true) ↔ (a ≡ b)
  same_property_key_iff a b = ground (
    arith,
    string_eq.beq_iff a.name b.name,
    string_eq.beq_iff a.group b.group,
    e.beq_iff a.cfg b.cfg,
  )

  instance abbrev pub property_key_eq : Eq (PropertyKey Config)
  property_key_eq = record { beq = same_property_key; beq_iff = same_property_key_iff }

  -- By what the cache holds for the key.
  unfoldable pub cached_or_new :
      PropertyKey Config
      → PropertyFactory
      → PropertyCache Config
      → Option PropertyReader
      → PropertyReader × PropertyCache Config
  cached_or_new k f cache (some p) = (p, cache)
  cached_or_new k f cache none =
      let p = new_command_properties f k.name k.group in (p, insert k p cache)

  -- `GetProperties`, with what the configuration's factory reads now.
  unfoldable pub get_properties :
      Config
      → PropertyFactory
      → String
      → String
      → PropertyCache Config
      → PropertyReader × PropertyCache Config
  unfolding cached_or_new
  get_properties cfg f name group cache =
      let k : PropertyKey Config = record { name = name; group = group; cfg = cfg } in
      cached_or_new k f cache (lookup k cache)
