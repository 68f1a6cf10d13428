-- ===== src/Num/Window.antt =====
-- A window of time that num/rollingnumber.go stands for: the counts of its slots, the youngest first.
pub mod Recent
pub mod History
pub mod Retention
use cuirass.Prelude.{
  ℕ, ◌+◌, ◌-◌, ◌/◌, ◌%◌, ◌^◌, List, [], ◌∷◌, ◌++◌, ltb, if◌then◌else◌, length, take, replicate,
}
use cuirass.Prelude.Words.{add_int64}

pub record Window : Type 0 where
  pub slot : ℕ
  pub start : ℕ
  pub counts : List ℕ

-- After `k` new slots the oldest `k` counts are forgotten.
abbrev pub forget : ℕ → List ℕ → List ℕ
forget k counts = take (length counts) (replicate k 0 ++ counts)

abbrev pub total : List ℕ → ℕ
total [] = 0
total (v ∷ vs) = v + total vs

abbrev pub bump : List ℕ → List ℕ
bump [] = []
bump (v ∷ vs) = add_int64 v 1 ∷ vs

abbrev pub slots_behind : ℕ → Window → ℕ
slots_behind now w = (now - w.start) / w.slot

abbrev pub refresh : ℕ → Window → Window
refresh now w =
    if ltb 0 (slots_behind now w)
    then record w { start = now; counts = forget (slots_behind now w) w.counts }
    else w

abbrev pub count : ℕ → Window → Window
count now w = let w' = refresh now w in record w' { counts = bump w'.counts }

-- An int64, as `Sum` returns it.
abbrev pub sum_counts : ℕ → Window → ℕ
sum_counts now w = total (refresh now w).counts % 2 ^ 64

abbrev pub clear : ℕ → Window → Window
clear now w = record w { start = now; counts = replicate (length w.counts) 0 }

pub data Op : Type 0 where
  increment_op sum_op reset_op : ℕ → Op

-- Calls in order, each with the time of its clock reading, and what the sums among them return.
abbrev pub run : Window → List Op → List ℕ
run w [] = []
run w (increment_op now ∷ ops) = run (count now w) ops
run w (sum_op now ∷ ops) = sum_counts now w ∷ run (refresh now w) ops
run w (reset_op now ∷ ops) = run (clear now w) ops
