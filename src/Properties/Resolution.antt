-- ===== src/Properties/Resolution.antt =====
-- commandproperties.go: which settings of a configuration the properties of a command come from.
use Prim.Native.String.{String, ◌++◌ as ◌<>◌}
use cuirass.Prelude.{ℕ, ◌≡◌, ap, ◌∙◌, Bool, true, false, Option, none, some}
use cuirass.Num.BucketSize.{millisecond}
use cuirass.Command.{CommandProperties}
use cuirass.Properties.{
  PropertyFactory, new_bool_property, new_int_property, new_duration_property, read_properties,
}

abbrev pub or_else {ℓ} : {A : Type ℓ} → Option A → A → A
or_else none d = d
or_else (some a) d = a

-- The names of a setting, of one command or group and of all of them.
abbrev pub own_setting : String → String → String → String
own_setting prefix name property = prefix <> ("." <> (name <> ("." <> property)))

abbrev pub shared_setting : String → String → String
shared_setting prefix property = prefix <> (".default." <> property)

-- What vaquita documents of a factory: a setting that is there and can be parsed is the value, and
-- otherwise the default, or the next property of the chain.
pub record Settings (f : PropertyFactory) : Type 0 where
  pub bool_at : String → Option Bool
  pub int_at : String → Option ℕ
  pub duration_at : String → ℕ → Option ℕ
  pub get_bool_lem : (n : String) (d : Bool) → f.get_bool n d ≡ or_else (bool_at n) d
  pub get_int_lem : (n : String) (d : ℕ) → f.get_int n d ≡ or_else (int_at n) d
  pub get_duration_lem : (n : String) (u d : ℕ) → f.get_duration n u d ≡ or_else (duration_at n u) d
  pub chained_bool_lem : (n : String) (d : Bool) → f.chained_bool n d ≡ or_else (bool_at n) d
  pub chained_int_lem : (n : String) (d : ℕ) → f.chained_int n d ≡ or_else (int_at n) d
  pub chained_duration_lem :
      (n : String) (u d : ℕ) → f.chained_duration n u d ≡ or_else (duration_at n u) d

module _ (f : PropertyFactory) (s : Settings f) (prefix : String) where
  -- The first of the two settings of a property that is there, or its default.
  abbrev pub bool_setting : String → String → Bool → Bool
  bool_setting name property d =
      or_else (s.bool_at (own_setting prefix name property))
        (or_else (s.bool_at (shared_setting prefix property)) d)

  abbrev pub int_setting : String → String → ℕ → ℕ
  int_setting name property d =
      or_else (s.int_at (own_setting prefix name property))
        (or_else (s.int_at (shared_setting prefix property)) d)

  abbrev pub milliseconds_setting : String → String → ℕ → ℕ
  milliseconds_setting name property d =
      or_else (s.duration_at (own_setting prefix name property) millisecond)
        (or_else (s.duration_at (shared_setting prefix property) millisecond) d)

  bool_lem :
      (name property : String) (d : Bool)
      → new_bool_property f prefix name property d ≡ bool_setting name property d
  unfolding new_bool_property
  bool_lem name property d =
      s.chained_bool_lem _ _
      ∙ ap (or_else (s.bool_at (own_setting prefix name property))) (s.get_bool_lem _ d)

  int_lem :
      (name property : String) (d : ℕ)
      → new_int_property f prefix name property d ≡ int_setting name property d
  unfolding new_int_property
  int_lem name property d =
      s.chained_int_lem _ _
      ∙ ap (or_else (s.int_at (own_setting prefix name property))) (s.get_int_lem _ d)

  milliseconds_lem :
      (name property : String) (d : ℕ)
      → new_duration_property f prefix name property d ≡ milliseconds_setting name property d
  unfolding new_duration_property
  milliseconds_lem name property d =
      s.chained_duration_lem _ _ _
      ∙ ap (or_else (s.duration_at (own_setting prefix name property) millisecond))
          (s.get_duration_lem _ _ d)

-- The properties of a command: each by its own setting, of
-- the command, or of its group for the concurrent requests; else by that of all commands; else 0
-- (no timeout), 100, true, true and true, and for the breaker true, 20, 5000 ms, 50 %, false, false.
abbrev pub settled :
    (f : PropertyFactory) → Settings f → String → String → String → CommandProperties
settled f s prefix name group = record {
  execution_timeout =
      milliseconds_setting f s prefix name "execution.isolation.thread.timeoutInMilliseconds" 0;
  execution_max_concurrent_requests =
      int_setting f s prefix group "execution.isolation.semaphore.maxConcurrentRequests" 100;
  fallback_enabled = bool_setting f s prefix name "fallback.enabled" true;
  request_cache_enabled = bool_setting f s prefix name "requestCache.enabled" true;
  request_log_enabled = bool_setting f s prefix name "requestLog.enabled" true;
  circuit_breaker = record {
    enabled = bool_setting f s prefix name "circuitbreaker.enabled" true;
    request_volume_threshold =
        int_setting f s prefix name "circuitbreaker.requestVolumeThreshold" 20;
    sleep_window =
        milliseconds_setting f s prefix name "circuitbreaker.sleepWindowInMilliseconds" 5000000000;
    error_threshold_percentage =
        int_setting f s prefix name "circuitbreaker.errorThresholdPercentage" 50;
    force_open = bool_setting f s prefix name "circuitbreaker.forceOpen" false;
    force_closed = bool_setting f s prefix name "circuitbreaker.forceClosed" false;
  };
}

-- With a factory that behaves as documented, each property of a command reads its own setting if it
-- is there, else the setting for all commands, else its default. Its own setting is that of the
-- command's name, but that of the group for the number of concurrent requests.
pub read_properties-eq-settled :
    (f : PropertyFactory) (s : Settings f) (prefix name group : String)
    → read_properties prefix name group f ≡ settled f s (prefix <> ".command") name group
unfolding read_properties
read_properties-eq-settled f s prefix name group = simp (
  bool_lem f s (prefix <> ".command"),
  int_lem f s (prefix <> ".command"),
  milliseconds_lem f s (prefix <> ".command"),
)
