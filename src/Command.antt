-- ===== src/Command.antt =====
-- command.go, the values of commandproperties.go, and what a command is given: a context.
use Prim.Native.String.{String}
use cuirass.Prelude.{ℕ, Bool, not, Option, none, some}
use cuirass.Prelude.Maps.{string_eq}
use cuirass.Util.Clock.{Clock}
use cuirass.Util.Errors.{GoError, fallback_not_implemented, Call, returned}
use cuirass.CircuitBreaker.{CircuitBreakerProperties}

-- golang.org/x/net/context, of which the program uses this: a derived context with a timeout, and
-- that context after its cancel function was called. Values of a context are not in it.
pub record GoContext : Type 1 where
  pub Context : Type 0
  pub with_timeout : Context → ℕ → Context
  pub cancelled : Context → Context

-- What the properties of a command hold while a call reads them.
pub record CommandProperties : Type 0 where
  pub execution_timeout : ℕ
  pub execution_max_concurrent_requests : ℕ
  pub fallback_enabled : Bool
  pub request_cache_enabled : Bool
  pub request_log_enabled : Bool
  pub circuit_breaker : CircuitBreakerProperties

-- A function of a command acts on a world `W` and reads the clock. It returns a value or nil, and
-- an error or nil, or it panics.
abbrev pub CommandFunc : Type 0 → Type 0 → Type 0 → Type 0
CommandFunc C V W = C → Clock → W → Call (Option V × Option GoError) × W × Clock

pub record Command (C V W : Type 0) : Type 0 where
  pub name : String
  pub group : String
  pub run : CommandFunc C V W
  pub fallback : CommandFunc C V W
  pub cache_key : String

pub record CommandBuilder (C V W : Type 0) : Type 0 where
  pub name : String
  pub group : String
  pub run : CommandFunc C V W
  pub fallback : Option (CommandFunc C V W)
  pub cache_key : String

module _ {C V W : Type 0} where
  unfoldable pub is_cacheable : Command C V W → Bool
  is_cacheable cmd = not (string_eq.beq cmd.cache_key "")

  unfoldable pub new_command : String → CommandFunc C V W → CommandBuilder C V W
  new_command name run = record {
    name = name;
    group = name;
    run = run;
    fallback = none;
    cache_key = "";
  }

  unfoldable pub set_group : String → CommandBuilder C V W → CommandBuilder C V W
  set_group name b = record b { group = name }

  unfoldable pub set_fallback : CommandFunc C V W → CommandBuilder C V W → CommandBuilder C V W
  set_fallback fallback b = record b { fallback = some fallback }

  unfoldable pub set_cache_key : String → CommandBuilder C V W → CommandBuilder C V W
  set_cache_key key b = record b { cache_key = key }

  -- The fallback of a command that was given none.
  abbrev pub default_fallback : CommandFunc C V W
  default_fallback ctx c w = (returned (none, some fallback_not_implemented), w, c)

  unfoldable pub build : CommandBuilder C V W → Command C V W
  build b = record {
    name = b.name;
    group = b.group;
    run = b.run;
    fallback = elim b.fallback [ some f ↦ f | none ↦ default_fallback ];
    cache_key = b.cache_key;
  }
