-- ===== src/Examples/Values.antt =====
-- The data that the examples share: a breaker's properties, a context library over the whole
-- numbers, two commands and a state of the executor.
use Prim.Native.String.{String}
use cuirass.Num.Float.{Float64}
use cuirass.Num.RollingPercentile.Range.{RankLaws}
use cuirass.Prelude.{
  ◌-◌, ◌/◌, ◌^◌, ◌<◌, ◌≡◌, refl, leb, ℕ, ◌+◌, ◌*◌, true, false, none, some, [], arith,
}
use cuirass.Util.Clock.{Clock, later}
use cuirass.Util.Errors.{text_value, returned, panicked}
use cuirass.CircuitBreaker.{CircuitBreakerProperties}
use cuirass.Prelude.Maps.{lookup}
use cuirass.Properties.{PropertyFactory}
use cuirass.Metrics.{ExecutionMetrics, new_metrics_properties}
use cuirass.Metrics.Totality
use cuirass.Command.{GoContext, CommandProperties, Command}
use cuirass.Executor.{State}

abbrev pub breaker_properties : CircuitBreakerProperties
breaker_properties = record {
  enabled = true;
  request_volume_threshold = 2;
  sleep_window = 5000;
  error_threshold_percentage = 50;
  force_open = false;
  force_closed = false;
}

-- A clock that ticks a microsecond with every reading.
abbrev pub ticks : Clock
ticks i = 1000 * i

-- A context is its deadline, and a cancelled one has it behind it.
abbrev pub deadlines : GoContext
deadlines = record { Context = ℕ; with_timeout = λ ctx t. ctx + t; cancelled = λ ctx. 0 }

abbrev pub command_properties : String → String → CommandProperties
command_properties name group = record {
  execution_timeout = 50;
  execution_max_concurrent_requests = 1;
  fallback_enabled = true;
  request_cache_enabled = true;
  request_log_enabled = true;
  circuit_breaker = breaker_properties;
}

-- A command that panics after it has acted on the world; its fallback returns the world.
abbrev pub flaky : Command ℕ ℕ ℕ
flaky = record {
  name = "flaky";
  group = "web";
  run = λ ctx c w. (panicked (text_value "down"), w + 1, later c);
  fallback = λ ctx c w. (returned (some w, none), w, c);
  cache_key = "key";
}

abbrev pub metrics : ExecutionMetrics
metrics = record {
  props = record { rolling_percentile_bucket_size = 100; health_snapshot_interval = 500 };
  command_metrics = [];
}

pub metrics-IsValid : Totality.IsValid metrics
unfolding lookup
metrics-IsValid = record { room = omega arith; ready = λ name m e. cc e }

abbrev pub fresh_state : State ℕ ℕ
fresh_state = record {
  circuit_breakers = [];
  semaphores = [];
  metrics = metrics;
  request_cache = some [];
  request_log = some [];
  clock = ticks;
  wall = ticks;
  world = 0;
}

-- float64 stands in as the whole numbers here.
abbrev pub whole : Float64
whole = record {
  Float = ℕ;
  of_int = λ n. n;
  sub = λ a b. a - b;
  mul = λ a b. a * b;
  div = λ a b. a / b;
  floor = λ a. a;
  ceil = λ a. a;
  to_int = λ a. a;
  leb = leb;
}

small_percentile : (p n : ℕ) → leb 100 p ≡ false → p / 100 * n < 2 ^ 63
small_percentile p n h = let e : p / 100 ≡ 0 = ground arith in rw e (omega arith)

leb_self : (n : ℕ) → leb n n ≡ true
leb_self n = ground arith

pub whole-RankLaws : RankLaws whole
whole-RankLaws = record {
  floor_le_ceil = λ p n small number above below. omega arith;
  ceil_lt = λ p n small number above below. small_percentile p n below;
  whole_number = leb_self;
  half_number = refl;
}

-- A configuration that sets nothing.
abbrev pub cfg : PropertyFactory
cfg = record {
  get_string = λ n d. d;
  get_bool = λ n d. d;
  get_int = λ n d. d;
  get_duration = λ n u d. d;
  chained_bool = λ n d. d;
  chained_int = λ n d. d;
  chained_duration = λ n u d. d;
}

pub cfg-room : 0 < (new_metrics_properties cfg).rolling_percentile_bucket_size
unfolding new_metrics_properties
cfg-room = omega arith
