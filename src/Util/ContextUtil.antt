-- ===== src/Util/ContextUtil.antt =====
-- util/contextutil/execute.go: `DoWithCancel`, in atomic steps of the caller, of the goroutine that it
-- starts, and of the context. `Do` is the same with a cancel function that does nothing.
pub mod Waiting
use cuirass.Prelude.{ℕ, ◌+◌, ◌≡◌, Option, none, some}
use cuirass.Util.Errors.{GoError, PanicValue}

-- The goroutine that runs `f`: still in it, or with what `f` returned sent to the channel. A panic
-- of `f` there ends the program.
pub data Worker : Type 0 where
  busy : Worker
  ended : (err : Option GoError) → Worker

-- Where the caller stands: at the `select`; behind its first case, before the call of `cancel`;
-- before the receive there; returned; or the program was ended by a panic of `f`.
pub data Caller : Type 0 where
  selecting cancelling draining : Caller
  finished : (err : Option GoError) → Caller
  crashed : PanicValue → Caller

-- The channel has room for one element. `ctx_err` is none until the context is done, and
-- `cancels` counts the calls of `cancel`.
pub record Wait : Type 0 where
  pub caller : Caller
  pub worker : Worker
  pub channel : Option (Option GoError)
  pub ctx_err : Option GoError
  pub cancels : ℕ

pub data Step (s : Wait) : Wait → Type 0 where
  f_returns :
      (err : Option GoError)
      → s.worker ≡ busy
      → s.channel ≡ none
      → Step s (record s { worker = ended err; channel = some err })
  f_panics : (p : PanicValue) → s.worker ≡ busy → Step s (record s { caller = crashed p })
  context_done : (err : GoError) → s.ctx_err ≡ none → Step s (record s { ctx_err = some err })
  select_done :
      {err : GoError}
      → s.caller ≡ selecting
      → s.ctx_err ≡ some err
      → Step s (record s { caller = cancelling })
  call_cancel :
      s.caller ≡ cancelling → Step s (record s { caller = draining; cancels = s.cancels + 1 })
  drain :
      {err : Option GoError}
      → s.caller ≡ draining
      → s.channel ≡ some err
      → Step s (record s { caller = finished s.ctx_err; channel = none })
  select_result :
      {err : Option GoError}
      → s.caller ≡ selecting
      → s.channel ≡ some err
      → Step s (record s { caller = finished err; channel = none })

pub data Reach (s : Wait) : Wait → Type 0 where
  here : Reach s s
  next : {t u : Wait} → Reach s t → Step t u → Reach s u

-- At the `select`, under a context that may be done already.
abbrev pub begin : Option GoError → Wait
begin ctx_err = record {
  caller = selecting;
  worker = busy;
  channel = none;
  ctx_err = ctx_err;
  cancels = 0;
}
