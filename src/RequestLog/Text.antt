-- ===== src/RequestLog/Text.antt =====
-- requestlog/log.go: the string of a log.
use Prim.Native.String.{String, ◌++◌ as ◌<>◌}
use text.Mathlib.TextLemmas.{append-nil, nil-append}
use cuirass.Prelude.{
  ℕ, ◌%◌, ◌^◌, ◌≡◌, refl, sym, ap, ◌∙◌, Bool, true, false, none, some, List, [], ◌∷◌, ltb, ◌==◌,
  if◌then◌else◌, map,
}
use cuirass.Prelude.Words.{div_int64}
use cuirass.Prelude.Maps.{string_eq, lookup, contains, beq_self}
use cuirass.Num.BucketSize.{millisecond}
use cuirass.RequestLog.{
  RequestLog, write_command, AggregatedCommand, aggregate, write_command_with_time, write_all,
  log_string,
}
use cuirass.RequestLog.Aggregation.{
  occurrences, time_spent, HasDurations, gather, found, lookup-aggregate,
}
use cuirass.RequestLog.Order.{
  distinct, is_some, if_true_left, if_true_right, aggregate-IsNamed, order-aggregate,
}

-- The texts of a list, with ", " between two of them.
unfoldable pub joined : List String → String
joined [] = ""
joined (t ∷ []) = t
joined (t ∷ u ∷ us) = t <> (", " <> joined (u ∷ us))

-- The texts of a list, with ", " in front of each.
trailing : List String → String
trailing [] = ""
trailing (t ∷ ts) = ", " <> (t <> trailing ts)

joined-cons : (t : String) (ts : List String) → t <> trailing ts ≡ joined (t ∷ ts)
unfolding joined trailing
joined-cons t [] = append-nil t
joined-cons t (u ∷ us) = ap (λ v. t <> (", " <> v)) (joined-cons u us)

found_some :
    (count time : ℕ)
    → is_some (found count time) ≡ true
    → found count time ≡ some (gather count (time % 2 ^ 64))
found_some count time h = by_test (count == 0) h
  where
    by_test :
        (b : Bool)
        → is_some (if b then none else some (gather count (time % 2 ^ 64))) ≡ true
        → (if b then none else some (gather count (time % 2 ^ 64)))
          ≡ some (gather count (time % 2 ^ 64))
    by_test true h = cc
    by_test false h = refl

-- What the map holds for a command of the order.
lookup-named :
    (l : RequestLog) (cmd : String)
    → HasDurations l
    → contains (aggregate l).order cmd ≡ true
    → lookup cmd (aggregate l).commands
      ≡ some (gather (occurrences cmd l) (time_spent cmd l % 2 ^ 64))
lookup-named l cmd d h =
    let e = lookup-aggregate cmd l d in
    e
    ∙ found_some (occurrences cmd l) (time_spent cmd l)
        (ap is_some (sym e) ∙ sym (aggregate-IsNamed l cmd) ∙ h)

module _ (format_int : ℕ → String) where
  -- What the string has of a command: its infos as they are written, the whole milliseconds that they
  -- took together, summed as an int64, and how many they are, if more than one.
  abbrev pub piece : RequestLog → String → String
  piece l cmd =
      cmd
      <> ("["
          <> (format_int (div_int64 (time_spent cmd l % 2 ^ 64) millisecond)
              <> ("ms]"
                  <> (if ltb 1 (occurrences cmd l)
                      then "x" <> format_int (occurrences cmd l)
                      else ""))))

  write_all-trailing :
      (l : RequestLog) (cmds : List String) (m : List (String × AggregatedCommand))
      → ((k : String)
          → contains cmds k ≡ true
          → lookup k m ≡ some (gather (occurrences k l) (time_spent k l % 2 ^ 64)))
      → write_all format_int true cmds m ≡ some (trailing (map (piece l) cmds))
  unfolding write_all write_command_with_time trailing contains
  write_all-trailing l [] m h = refl
  write_all-trailing l (cmd ∷ cmds) m h =
      rw
        (
          h cmd (if_true_left _ (beq_self cmd)),
          write_all-trailing l cmds m (λ k e. h k (if_true_right (string_eq.beq cmd k) e)),
        )
        refl

  write_all-joined :
      (l : RequestLog) (cmds : List String) (m : List (String × AggregatedCommand))
      → ((k : String)
          → contains cmds k ≡ true
          → lookup k m ≡ some (gather (occurrences k l) (time_spent k l % 2 ^ 64)))
      → write_all format_int false cmds m ≡ some (joined (map (piece l) cmds))
  unfolding write_all write_command_with_time contains joined
  write_all-joined l [] m h = refl
  write_all-joined l (cmd ∷ cmds) m h =
      rw
        (
          h cmd (if_true_left _ (beq_self cmd)),
          write_all-trailing l cmds m (λ k e. h k (if_true_right (string_eq.beq cmd k) e)),
        )
        (ap some (nil-append _ ∙ joined-cons (piece l cmd) (map (piece l) cmds)))

  -- The string of a log names each command once, as `writeCommand` writes its infos, in the order in
  -- which the log has them first, with ", " between two commands. Behind a command are the
  -- milliseconds that its infos took together, as an int64, and their number if there are several.
  -- `String` does not panic. The raw times of the log are int64 patterns.
  pub log_string_lem :
      (l : RequestLog)
      → HasDurations l
      → log_string format_int l ≡ some (joined (map (piece l) (distinct [] (map write_command l))))
  unfolding log_string
  log_string_lem l d =
      write_all-joined l (aggregate l).order (aggregate l).commands (λ k h. lookup-named l k d h)
      ∙ ap (λ order. some (joined (map (piece l) order))) (order-aggregate l)
