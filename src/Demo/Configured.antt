-- ===== src/Demo/Configured.antt =====
-- examples/main.go: the server under its own configuration.
use Prim.Native.String.{String, ◌++◌ as ◌<>◌}
use cuirass.Prelude.{
  ℕ, ◌*◌, ◌<◌, ◌≡◌, refl, ap, ◌∙◌, Bool, true, false, Option, none, some, List, length, arith,
  if◌then◌else◌,
}
use cuirass.Prelude.Options.{◌>>=◌, Returns}
use cuirass.Prelude.Maps.{string_eq, lookup}
use cuirass.Util.Clock.{Clock}
use cuirass.Properties.{
  PropertyFactory, own_name, default_name, property_prefix, new_command_properties,
}
use cuirass.Properties.Resolution.{
  Settings, or_else, own_setting, shared_setting, read_properties-eq-settled,
}
use cuirass.Num.BucketSize.{millisecond}
use cuirass.Metrics.{new_metrics_properties}
use cuirass.Command.{GoContext, CommandProperties}
use cuirass.Executor.{new_executor_with_clock}
use cuirass.Executor.Nested.{exec_in}
use cuirass.Executor.Nested.Keeping.{held_of}
use cuirass.Demo.{Platform}
use cuirass.Demo.Requests.{main_settings, serve_all}
use cuirass.Demo.Serving.{serve_all-new}

-- What a command's properties read, as `Properties` reads them.
abbrev pub properties_of : PropertyFactory → String → String → CommandProperties
properties_of f name group = new_command_properties f name group f

abbrev timeout_name : String
timeout_name = "execution.isolation.thread.timeoutInMilliseconds"

-- The timeouts of the commands of the server, in nanoseconds; 0 is none.
pub record MainTimeouts (f : PropertyFactory) : Type 0 where
  pub credit_card :
      (group : String) → (properties_of f "CreditCardCommand" group).execution_timeout ≡ 3000000000
  pub user_account :
      (group : String)
      → (properties_of f "GetUserAccountCommand" group).execution_timeout ≡ 50000000
  pub payment_information :
      (group : String)
      → (properties_of f "GetPaymentInformationCommand" group).execution_timeout ≡ 0
  pub order : (group : String) → (properties_of f "GetOrderCommand" group).execution_timeout ≡ 0

module _ (f : PropertyFactory) (s : Settings f) (parse_bool : String → Option Bool)
    (parse_int : String → Option ℕ) where
  -- The factory reads the configuration of main, which does not set the prefix. Its two texts are parsed
  -- as numbers, and not as truth values; a duration is a number of milliseconds.
  pub record ReadsMain : Type 0 where
    pub bool_at_lem : (n : String) → s.bool_at n ≡ (lookup n main_settings >>= parse_bool)
    pub int_at_lem : (n : String) → s.int_at n ≡ (lookup n main_settings >>= parse_int)
    pub duration_at_lem :
        (n : String)
        → s.duration_at n millisecond
          ≡ (lookup n main_settings >>= parse_int >>= (λ k. some (k * millisecond)))
    pub default_prefix : f.get_string "cuirass.config.prefix" "cuirass" ≡ "cuirass"
    pub parsed : (parse_int "3000" ≡ some 3000) × (parse_int "50" ≡ some 50)
    pub not_bool : (parse_bool "3000" ≡ none) × (parse_bool "50" ≡ none)

  no_bool : ReadsMain → (n : String) → s.bool_at n ≡ none
  unfolding lookup
  no_bool r n = r.bool_at_lem n ∙ by_names (string_eq.beq _ n) (string_eq.beq _ n)
    where
      by_names :
          (a b : Bool)
          → ((if a then some "3000" else if b then some "50" else none) >>= parse_bool) ≡ none
      by_names true b = r.not_bool.0
      by_names false true = r.not_bool.1
      by_names false false = refl

  fallback_enabled_main :
      ReadsMain → (name : String) → (properties_of f name name).fallback_enabled ≡ true
  unfolding new_command_properties
  fallback_enabled_main r name =
      let prefix = property_prefix f <> ".command" in
      ap (λ (p : CommandProperties). p.fallback_enabled)
        (read_properties-eq-settled f s (property_prefix f) name name)
      ∙ rw
          (
            no_bool r (own_name prefix name "fallback.enabled"),
            no_bool r (default_name prefix "fallback.enabled"),
          )
          refl

  room_main : ReadsMain → 0 < (new_metrics_properties f).rolling_percentile_bucket_size
  unfolding new_metrics_properties lookup
  room_main r =
      let none_set = r.int_at_lem "metrics.rollingPercentile.bucketSize" in
      rw (s.get_int_lem "metrics.rollingPercentile.bucketSize" 100, none_set) (omega arith)

  -- The setting of a command's timeout, where none is set for all commands.
  timeout_main :
      ReadsMain
      → (name group : String)
      → (properties_of f name group).execution_timeout
        ≡ or_else
            (lookup (own_setting "cuirass.command" name timeout_name) main_settings
              >>= parse_int
              >>= (λ k. some (k * millisecond)))
            0
  unfolding new_command_properties property_prefix lookup
  timeout_main r name group =
      ap (λ (p : CommandProperties). p.execution_timeout)
        (read_properties-eq-settled f s (property_prefix f) name group)
      ∙ rw (r.default_prefix, r.duration_at_lem (shared_setting "cuirass.command" timeout_name))
          (ap (λ o. or_else o 0)
            (r.duration_at_lem (own_setting "cuirass.command" name timeout_name)))

  main_timeouts : ReadsMain → MainTimeouts f
  unfolding lookup
  main_timeouts r = record {
    credit_card = λ group. timeout_main r "CreditCardCommand" group ∙ rw r.parsed.0 refl;
    user_account = λ group. timeout_main r "GetUserAccountCommand" group ∙ rw r.parsed.1 refl;
    payment_information = λ group. timeout_main r "GetPaymentInformationCommand" group;
    order = λ group. timeout_main r "GetOrderCommand" group;
  }

  -- Under the configuration of main, read by a factory that behaves as documented, the timeout of
  -- CreditCardCommand is 3 s, that of GetUserAccountCommand 50 ms, and the two other commands have none.
  -- The server answers any requests one after the other: a text is written for each, no panic ends the
  -- process, and after them no permit is held.
  pub serve_all_main :
      (g : GoContext) (h : Platform g.Context) (clock wall : Clock) (p : h.P)
      (ctxs : List g.Context)
      → ReadsMain
      → MainTimeouts f
        × Returns
            (λ (texts, s').
              (length texts ≡ length ctxs)
              × (s'.world.crashed ≡ false)
              × ((k : String) → held_of k s'.semaphores ≡ 0))
            (serve_all h (exec_in g (properties_of f)) ctxs (
              new_executor_with_clock f clock wall none none
                (record { platform = p; crashed = false })))
  serve_all_main g h clock wall p ctxs r = (
    main_timeouts r,
    serve_all-new g (properties_of f) h (fallback_enabled_main r) f clock wall p ctxs (room_main r),
  )
