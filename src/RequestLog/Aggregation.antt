-- ===== src/RequestLog/Aggregation.antt =====
-- requestlog/log.go: what the first loop of `String` gathers of a log.
use Prim.Native.String.{String}
use cuirass.Prelude.{
  ℕ, ◌+◌, ◌%◌, ◌^◌, ◌<◌, ◌≡◌, refl, ap, ◌∙◌, Bool, true, false, Option, none, some, [], ◌∷◌, arith,
  ◌==◌, if◌then◌else◌, Bool-cases, inl, inr,
}
use mathlib.Core.Path.{ap₂}
use cuirass.Prelude.Words.{add_int64}
use cuirass.Prelude.Maps.{string_eq, lookup, lookup-insert}
use cuirass.RequestLog.{
  ExecutionInfo, RequestLog, execution_time, write_command, AggregatedCommand, Aggregate,
  new_aggregated_command, enter, aggregate_one, aggregate_from, aggregate,
}

abbrev eq : String → String → Bool
eq = string_eq.beq

-- How many infos of a log are written as `cmd`, and how long they took together.
abbrev pub occurrences : String → RequestLog → ℕ
occurrences cmd [] = 0
occurrences cmd (info ∷ l) = (if eq (write_command info) cmd then 1 else 0) + occurrences cmd l

abbrev pub time_spent : String → RequestLog → ℕ
time_spent cmd [] = 0
time_spent cmd (info ∷ l) =
    (if eq (write_command info) cmd then execution_time info else 0) + time_spent cmd l

-- The raw times are int64 patterns.
abbrev pub HasDurations : RequestLog → Type 0
HasDurations [] = Unit {0}
HasDurations (info ∷ l) = (info.raw_time < 2 ^ 64) × HasDurations l

execution_time-lt : (info : ExecutionInfo) → info.raw_time < 2 ^ 64 → execution_time info < 2 ^ 64
unfolding execution_time
execution_time-lt info h = ground arith

-- A command that was met once more.
abbrev bumped : ℕ → Option AggregatedCommand → AggregatedCommand
bumped t (some ac) = record { count = ac.count + 1; total_time = add_int64 ac.total_time t }
bumped t none = record { count = 1; total_time = t }

lookup-enter :
    (cmd written : String) (t : ℕ) (a : Aggregate) (o : Option AggregatedCommand)
    → lookup cmd (enter written t a o).commands
      ≡ (if eq written cmd then some (bumped t o) else lookup cmd a.commands)
unfolding enter new_aggregated_command
lookup-enter cmd written t a (some ac) = lookup-insert written cmd (bumped t (some ac)) a.commands
lookup-enter cmd written t a none = lookup-insert written cmd (bumped t none) a.commands

-- What the map holds for a command after a round for it, and after a round for another.
lookup-one_same :
    (cmd written : String) (t : ℕ) (a : Aggregate)
    → eq written cmd ≡ true
    → lookup cmd (aggregate_one written t a).commands ≡ some (bumped t (lookup cmd a.commands))
unfolding aggregate_one
lookup-one_same cmd written t a h =
    lookup-enter cmd written t a (lookup written a.commands)
    ∙ rw h (ap (λ k. some (bumped t (lookup k a.commands))) ((string_eq.beq_iff written cmd).0 h))

lookup-one_other :
    (cmd written : String) (t : ℕ) (a : Aggregate)
    → eq written cmd ≡ false
    → lookup cmd (aggregate_one written t a).commands ≡ lookup cmd a.commands
unfolding aggregate_one
lookup-one_other cmd written t a h =
    lookup-enter cmd written t a (lookup written a.commands) ∙ rw h refl

abbrev pub gather : ℕ → ℕ → AggregatedCommand
gather count time = record { count = count; total_time = time }

gathered_more :
    (cmd : String) (l : RequestLog) (a : Aggregate) (count time : ℕ)
    → HasDurations l
    → time < 2 ^ 64
    → lookup cmd a.commands ≡ some (gather count time)
    → lookup cmd (aggregate_from a l).commands
      ≡ some (gather (count + occurrences cmd l) ((time + time_spent cmd l) % 2 ^ 64))
unfolding aggregate_from
gathered_more cmd [] a count time d b h = h ∙ ap some (ap₂ gather (omega arith) (omega arith))
gathered_more cmd (info ∷ l) a count time d b h = elim (Bool-cases (eq (write_command info) cmd)) [
  | inl e ↦
      gathered_more cmd l (aggregate_one (write_command info) t a) (count + 1) (add_int64 time t)
        d.1 (omega arith) (lookup-one_same cmd (write_command info) t a e ∙ rw h refl)
      ∙ rw e (ap some (ap₂ gather (omega arith) (omega arith)))
  | inr e ↦
      gathered_more cmd l (aggregate_one (write_command info) t a) count time d.1 b
        (lookup-one_other cmd (write_command info) t a e ∙ h)
      ∙ rw e (ap some (ap₂ gather (omega arith) (omega arith)))
]
  where
    t : ℕ
    t = execution_time info

-- What the map holds for a command with `count` infos.
abbrev pub found : ℕ → ℕ → Option AggregatedCommand
found count time = if count == 0 then none else some (gather count (time % 2 ^ 64))

gathered_from_none :
    (cmd : String) (l : RequestLog) (a : Aggregate)
    → HasDurations l
    → lookup cmd a.commands ≡ none
    → lookup cmd (aggregate_from a l).commands ≡ found (occurrences cmd l) (time_spent cmd l)
unfolding aggregate_from
gathered_from_none cmd [] a d h = h
gathered_from_none cmd (info ∷ l) a d h = elim (Bool-cases (eq (write_command info) cmd)) [
  | inl e ↦
      gathered_more cmd l (aggregate_one (write_command info) t a) 1 t d.1
        (execution_time-lt info d.0) (lookup-one_same cmd (write_command info) t a e ∙ rw h refl)
      ∙ rw e (some_case (occurrences cmd l) _)
  | inr e ↦
      gathered_from_none cmd l (aggregate_one (write_command info) t a) d.1
        (lookup-one_other cmd (write_command info) t a e ∙ h)
      ∙ rw e (ap₂ found (omega arith) (omega arith))
]
  where
    t : ℕ
    t = execution_time info

    some_case :
        (n time : ℕ)
        → some (gather (1 + n) time) ≡ (if 1 + n == 0 then none else some (gather (1 + n) time))
    some_case n time = ground arith

-- What the log's string is made from: for each command as it is written, the number of its infos
-- in the log and the sum of their times (as an int64), and nothing for one that is not in the log.
-- The raw times of the log are int64 patterns.
pub lookup-aggregate :
    (cmd : String) (l : RequestLog)
    → HasDurations l
    → lookup cmd (aggregate l).commands ≡ found (occurrences cmd l) (time_spent cmd l)
unfolding lookup
lookup-aggregate cmd l d = gathered_from_none cmd l (record { order = []; commands = [] }) d refl
