-- ===== src/CircuitBreaker/Goroutines.antt =====
-- circuitbreaker/circuitbreaker.go, run by several goroutines at once: each atomic access to the flag
-- and to the time of the last trial is a step of its own. No property forces the state here. The
-- health may be found good or bad at any time, and the clock may go on between two steps. What `Do` and
-- `IsOpen` do to the counters is left out: the mutexes of the two rolling numbers, for which a goroutine
-- may wait, and the compare-and-swap of the time of the snapshot in `Health`.
pub mod Spacing
pub mod Race
pub mod Alone
use cuirass.Prelude.{
  ℕ, ◌≤◌, ◌<◌, ◌≡◌, ◌≢◌, Bool, true, false, not, ◌&&◌, ◌||◌, List, [], ◌∷◌, ◌==◌, if◌then◌else◌,
}
use cuirass.Prelude.Words.{add_int64, ltb_int64}
use cuirass.CircuitBreaker.{int_true, int_false}

-- The words that the goroutines share. `trials` is no word of the program: the times of the trials
-- that were allowed, the latest first.
pub record Shared : Type 0 where
  pub circuit_open : ℕ
  pub last_trial_time : ℕ
  pub clock : ℕ
  pub trials : List ℕ

-- Who has called `IsOpen`: `isTrialCallAllowed`, with what it has loaded and the time; then
-- `isRequestAllowed`, with what that returned; or a caller that only asks.
pub data Caller : Type 0 where
  trial_check : (last timestamp : ℕ) → Caller
  request_check : (trial : Bool) → Caller
  observer : Caller

-- Where a goroutine stands.
pub data Pc : Type 0 where
  idle : Pc
  loaded : (last : ℕ) → Pc  -- in `isTrialCallAllowed`, before its reading of the clock
  checking : Caller → Pc  -- in `IsOpen`, before the load of the flag
  judging : Caller → Pc  -- before the compare-and-swap that opens the circuit
  opening : Caller → Pc  -- behind it, before the reading of the clock
  stamping : Caller → (time : ℕ) → Pc  -- before the store of that time
  answered : Caller → (is_open : Bool) → Pc  -- `IsOpen` has returned
  running : (trial : Bool) → Pc  -- in the function that `Do` was given
  closing : Pc  -- behind a trial that succeeded, before the store to the flag

abbrev pub is_rested : ℕ → ℕ → ℕ → Bool
is_rested sleep_window last timestamp = ltb_int64 (add_int64 last sleep_window) timestamp

-- One atomic step of one goroutine.
pub data Move (sleep_window : ℕ) (m : Shared) : Pc → Shared → Pc → Type 0 where
  observe : Move sleep_window m idle m (checking observer)
  load_last : Move sleep_window m idle m (loaded m.last_trial_time)
  read_clock : {l : ℕ} → Move sleep_window m (loaded l) m (checking (trial_check l m.clock))
  load_open :
      {k : Caller}
      → m.circuit_open ≡ int_true
      → Move sleep_window m (checking k) m (answered k true)
  find_healthy :
      {k : Caller}
      → m.circuit_open ≢ int_true
      → Move sleep_window m (checking k) m (answered k false)
  find_failing :
      {k : Caller} → m.circuit_open ≢ int_true → Move sleep_window m (checking k) m (judging k)
  cas_open :
      {k : Caller}
      → m.circuit_open ≡ int_false
      → Move sleep_window m (judging k) (record m { circuit_open = int_true }) (opening k)
  cas_open_lost :
      {k : Caller}
      → m.circuit_open ≢ int_false
      → Move sleep_window m (judging k) m (answered k true)
  read_opening : {k : Caller} → Move sleep_window m (opening k) m (stamping k m.clock)
  store_opening :
      {k : Caller} {t : ℕ}
      → Move sleep_window m (stamping k t) (record m { last_trial_time = t }) (answered k true)
  no_trial :
      {l t : ℕ} {b : Bool}
      → (b && is_rested sleep_window l t) ≡ false
      → Move sleep_window m (answered (trial_check l t) b) m (checking (request_check false))
  cas_trial :
      {l t : ℕ} {b : Bool}
      → (b && is_rested sleep_window l t) ≡ true
      → m.last_trial_time ≡ l
      → Move sleep_window m
          (answered (trial_check l t) b)
          (record m { last_trial_time = t; trials = t ∷ m.trials })
          (checking (request_check true))
  cas_trial_lost :
      {l t : ℕ} {b : Bool}
      → (b && is_rested sleep_window l t) ≡ true
      → m.last_trial_time ≢ l
      → Move sleep_window m (answered (trial_check l t) b) m (checking (request_check false))
  run_function :
      {trial b : Bool}
      → (not b || trial) ≡ true
      → Move sleep_window m (answered (request_check trial) b) m (running trial)
  fail_fast :
      {trial b : Bool}
      → (not b || trial) ≡ false
      → Move sleep_window m (answered (request_check trial) b) m idle
  observed : {b : Bool} → Move sleep_window m (answered observer b) m idle
  function_ends : {trial : Bool} → Move sleep_window m (running trial) m idle
  succeed : {trial : Bool} → trial ≡ true → Move sleep_window m (running trial) m closing
  close : Move sleep_window m closing (record m { circuit_open = int_false }) idle

-- Any number of goroutines; a new call of `Do` may take the place of one that is `idle`.
pub record System : Type 0 where
  pub mem : Shared
  pub pc : ℕ → Pc

abbrev pub set_pc : (ℕ → Pc) → ℕ → Pc → ℕ → Pc
set_pc pc i p j = if i == j then p else pc j

pub data Step (sleep_window : ℕ) (s : System) : System → Type 0 where
  pick :
      (i : ℕ) {m : Shared} {p : Pc}
      → Move sleep_window s.mem (s.pc i) m p
      → Step sleep_window s (record { mem = m; pc = set_pc s.pc i p })
  tick :
      {t : ℕ}
      → s.mem.clock ≤ t
      → Step sleep_window s (record s { mem = record s.mem { clock = t } })

pub data Reach (sleep_window : ℕ) (s : System) : System → Type 0 where
  here : Reach sleep_window s s
  next : {t u : System} → Reach sleep_window s t → Step sleep_window t u → Reach sleep_window s u

-- A new breaker, at the time `now`.
abbrev pub fresh : ℕ → System
fresh now = record {
  mem = record { circuit_open = int_false; last_trial_time = 0; clock = now; trials = [] };
  pc = λ _. idle;
}
