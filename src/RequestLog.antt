-- ===== src/RequestLog.antt =====
-- requestlog/log.go. A log is the list of its infos, the oldest first;
-- durations are int64 patterns. The lock makes each method atomic and leaves no trace here.
pub mod Aggregation
pub mod Order
pub mod Text
use Prim.Native.String.{String, ◌++◌ as ◌<>◌}
use cuirass.Prelude.{
  ℕ, ◌+◌, ◌-◌, Bool, true, false, Option, none, some, List, [], ◌∷◌, ◌++◌, ltb, if◌then◌else◌,
  length, get_elem?,
}
use cuirass.Prelude.Words.{ltb_int64, add_int64, div_int64}
use cuirass.Prelude.Options.{◌>>=◌}
use cuirass.Prelude.Maps.{lookup, insert, string_eq}
use cuirass.Num.BucketSize.{millisecond}

pub data ExecutionEvent : Type 0 where
  success failure timeout short_circuited semaphore_rejected response_from_cache fallback_success
        fallback_failure :
      ExecutionEvent

-- The constants are bytes, from 0 on.
abbrev pub code : ExecutionEvent → ℕ
code success = 0
code failure = 1
code timeout = 2
code short_circuited = 3
code semaphore_rejected = 4
code response_from_cache = 5
code fallback_success = 6
code fallback_failure = 7

unfoldable pub event_string : ExecutionEvent → String
event_string success = "SUCCESS"
event_string failure = "FAILURE"
event_string timeout = "TIMEOUT"
event_string short_circuited = "SHORT_CIRCUITED"
event_string semaphore_rejected = "SEMAPHORE_REJECTED"
event_string response_from_cache = "RESPONSE_FROM_CACHE"
event_string fallback_success = "FALLBACK_SUCCESS"
event_string fallback_failure = "FALLBACK_FAILURE"

pub record ExecutionInfo : Type 0 where
  pub command_name : String
  pub raw_time : ℕ
  pub events : List ExecutionEvent

unfoldable pub new_execution_info : String → ℕ → List ExecutionEvent → ExecutionInfo
new_execution_info command_name execution_time events = record {
  command_name = command_name;
  raw_time = execution_time;
  events = events;
}

-- `ExecutionTime`: a negative duration is corrected to 0.
unfoldable pub execution_time : ExecutionInfo → ℕ
execution_time info = if ltb_int64 info.raw_time 0 then 0 else info.raw_time

abbrev pub RequestLog : Type 0
RequestLog = List ExecutionInfo

abbrev pub new_request_log : RequestLog
new_request_log = []

unfoldable pub add_execution_info : ExecutionInfo → RequestLog → RequestLog
add_execution_info info l = l ++ (info ∷ [])

unfoldable pub size : RequestLog → ℕ
size l = length l

-- `none` is the panic of an index out of range, -1 of an empty log included.
unfoldable pub last_request : RequestLog → Option ExecutionInfo
last_request l = if ltb 0 (length l) then get_elem? l (length l - 1) else none

-- The loop of `writeCommand` over the events, behind the first one.
write_more_events : List ExecutionEvent → String
write_more_events [] = ""
write_more_events (e ∷ es) = ", " <> (event_string e <> write_more_events es)

write_events : List ExecutionEvent → String
write_events [] = ""
write_events (e ∷ es) = event_string e <> write_more_events es

unfoldable pub write_command : ExecutionInfo → String
unfolding write_events write_more_events event_string
write_command info = info.command_name <> ("[" <> (write_events info.events <> "]"))

pub record AggregatedCommand : Type 0 where
  pub count : ℕ
  pub total_time : ℕ

unfoldable pub new_aggregated_command : ℕ → AggregatedCommand
new_aggregated_command t = record { count = 1; total_time = t }

-- The two variables of `String`: `commandOrder` and the map `aggregatedCommands`.
pub record Aggregate : Type 0 where
  pub order : List String
  pub commands : List (String × AggregatedCommand)

-- The body of the loop of `String`, for a log entry that was written as `cmd`, by what the map
-- holds for it.
unfoldable pub enter : String → ℕ → Aggregate → Option AggregatedCommand → Aggregate
enter cmd time a (some ac) =
    let ac' : AggregatedCommand = record {
      count = ac.count + 1;
      total_time = add_int64 ac.total_time time;
    } in
    record a { commands = insert cmd ac' a.commands }
enter cmd time a none = record {
  order = a.order ++ (cmd ∷ []);
  commands = insert cmd (new_aggregated_command time) a.commands;
}

unfoldable pub aggregate_one : String → ℕ → Aggregate → Aggregate
unfolding enter
aggregate_one cmd time a = enter cmd time a (lookup cmd a.commands)

-- The loop of `String`.
unfoldable pub aggregate_from : Aggregate → RequestLog → Aggregate
aggregate_from a [] = a
aggregate_from a (info ∷ l) =
    aggregate_from (aggregate_one (write_command info) (execution_time info) a) l

abbrev pub aggregate : RequestLog → Aggregate
aggregate l = aggregate_from (record { order = []; commands = [] }) l

-- strconv.FormatInt and strconv.Itoa, in base 10.
module _ (format_int : ℕ → String) where
  unfoldable pub write_command_with_time : String → AggregatedCommand → String
  write_command_with_time cmd ac =
      cmd
      <> ("["
          <> (format_int (div_int64 ac.total_time millisecond)
              <> ("ms]" <> (if ltb 1 ac.count then "x" <> format_int ac.count else ""))))

  -- The second loop of `String`, past its first round or not. A command of the order that the map
  -- did not hold would be a nil pointer: `none`.
  unfoldable pub write_all : Bool → List String → List (String × AggregatedCommand) → Option String
  write_all past_first [] m = some ""
  write_all past_first (cmd ∷ cmds) m = do
    ac ← lookup cmd m
    rest ← write_all true cmds m
    some ((if past_first then ", " else "") <> (write_command_with_time cmd ac <> rest))

  unfoldable pub log_string : RequestLog → Option String
  log_string l = let a = aggregate l in write_all false a.order a.commands
