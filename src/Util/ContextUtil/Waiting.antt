-- ===== src/Util/ContextUtil/Waiting.antt =====
-- util/contextutil/execute.go: what a call of `DoWithCancel` waits for.
use mathlib.Core.Path.{subst}
use cuirass.Prelude.{Bool, true, false, ℕ, ◌≤◌, ◌<◌, ◌≡◌, refl, ap, ◌∙◌, Option, none, some, arith}
use cuirass.Util.Errors.{GoError}
use cuirass.Util.ContextUtil.{
  Worker, busy, ended, Caller, selecting, cancelling, draining, finished, crashed, Wait, Step,
  f_returns, f_panics, context_done, select_done, call_cancel, drain, select_result, Reach, here,
  next, begin,
}

-- What the worker has put into the channel.
abbrev pub sent : Worker → Option (Option GoError)
sent busy = none
sent (ended err) = some err

-- How a finished call returns: what `f` returned, with no cancel; or the error of the context, with
-- one cancel before it. The worker is at its end then, and nothing is left in the channel.
pub data Returned (s : Wait) (err : Option GoError) : Type 0 where
  result : s.worker ≡ ended err → s.channel ≡ none → s.cancels ≡ 0 → Returned s err
  timed_out :
      {f_err : Option GoError} {ctx_err : GoError}
      → s.worker ≡ ended f_err
      → s.channel ≡ none
      → s.cancels ≡ 1
      → s.ctx_err ≡ err
      → err ≡ some ctx_err
      → Returned s err

abbrev Holds : Wait → Caller → Type 0
Holds s selecting = (s.channel ≡ sent s.worker) × (s.cancels ≡ 0)
Holds s cancelling =
    (s.channel ≡ sent s.worker) × (s.cancels ≡ 0) × ((e : GoError) × (s.ctx_err ≡ some e))
Holds s draining =
    (s.channel ≡ sent s.worker) × (s.cancels ≡ 1) × ((e : GoError) × (s.ctx_err ≡ some e))
Holds s (finished err) = Returned s err
Holds s (crashed p) = Unit {0}

sent-some :
    (w : Worker) (c : Option (Option GoError)) (err : Option GoError)
    → c ≡ sent w
    → c ≡ some err
    → w ≡ ended err
sent-some busy c err e q = cc (e, q)
sent-some (ended e') c err e q = cc (e, q)

module _ (s : Wait) where
  after_f_returns :
      (err : Option GoError) (k : Caller)
      → s.worker ≡ busy
      → s.caller ≡ k
      → Holds s k
      → Holds (record s { worker = ended err; channel = some err }) k
  after_f_returns err selecting w e h = (refl, h.1)
  after_f_returns err cancelling w e h = (refl, h.1, h.2)
  after_f_returns err draining w e h = (refl, h.1, h.2)
  after_f_returns err (finished e') w e (result q c n) = cc (w, q)
  after_f_returns err (finished e') w e (timed_out q c n x y) = cc (w, q)
  after_f_returns err (crashed p) w e h = tt

  after_done :
      (err : GoError) (k : Caller)
      → s.ctx_err ≡ none
      → Holds s k
      → Holds (record s { ctx_err = some err }) k
  after_done err selecting q h = h
  after_done err cancelling q h = (h.0, h.1, (err, refl))
  after_done err draining q h = (h.0, h.1, (err, refl))
  after_done err (finished e') q (result w c n) = result w c n
  after_done err (finished e') q (timed_out w c n x y) = cc (q, x, y)
  after_done err (crashed p) q h = tt

Step-Holds : {s t : Wait} → Step s t → Holds s s.caller → Holds t t.caller
Step-Holds {s} (f_returns err w c) h = after_f_returns s err s.caller w refl h
Step-Holds (f_panics p w) h = tt
Step-Holds {s} (context_done err q) h = after_done s err s.caller q h
Step-Holds {s} (select_done {err} e q) h = let h' = subst (Holds s) e h in (h'.0, h'.1, (err, q))
Step-Holds {s} (call_cancel e) h = let h' = subst (Holds s) e h in (h'.0, omega (arith, h'.1), h'.2)
Step-Holds {s} (drain {err} e q) h =
    let h' = subst (Holds s) e h in
    let (ctx_err, done) = h'.2 in
    timed_out (sent-some s.worker s.channel err h'.0 q) refl h'.1 refl done
Step-Holds {s} (select_result {err} e q) h =
    let h' = subst (Holds s) e h in result (sent-some s.worker s.channel err h'.0 q) refl h'.1

Reach-Holds : {s t : Wait} → Reach s t → Holds s s.caller → Holds t t.caller
Reach-Holds here h = h
Reach-Holds (next r st) h = Step-Holds st (Reach-Holds r h)

-- However the caller, the goroutine and the context interleave: when `DoWithCancel` returns, the
-- goroutine that it started is at its end and the channel is empty. It returns what `f` returned,
-- with no call of `cancel`, or else the error of the context, which is done, after one call of it.
pub reach-Returned :
    (ctx_err : Option GoError) (s : Wait) (err : Option GoError)
    → Reach (begin ctx_err) s
    → s.caller ≡ finished err
    → Returned s err
reach-Returned ctx_err s err r e = subst (Holds s) e (Reach-Holds r (refl, refl))

-- How many steps the caller has left at most.
abbrev pub caller_rank : Caller → ℕ
caller_rank selecting = 3
caller_rank cancelling = 2
caller_rank draining = 1
caller_rank (finished err) = 0
caller_rank (crashed p) = 0

abbrev pub is_over : Caller → Bool
is_over (finished err) = true
is_over (crashed p) = true
is_over _ = false

-- The caller has a next step, which lowers the number of those left.
pub record Advances (s : Wait) : Type 0 where
  pub after : Wait
  pub step : Step s after
  pub few : caller_rank s.caller ≤ 3
  pub nearer : caller_rank after.caller < caller_rank s.caller

advance :
    (s : Wait) (err : Option GoError) (k : Caller)
    → s.caller ≡ k
    → is_over k ≡ false
    → s.worker ≡ ended err
    → Holds s k
    → Advances s
advance s err selecting e o w h = record {
  after = _;
  step = select_result {err = err} e (h.0 ∙ ap sent w);
  few = rw e (omega arith);
  nearer = rw e (omega arith);
}
advance s err cancelling e o w h = record {
  after = _;
  step = call_cancel e;
  few = rw e (omega arith);
  nearer = rw e (omega arith);
}
advance s err draining e o w h = record {
  after = _;
  step = drain {err = err} e (h.0 ∙ ap sent w);
  few = rw e (omega arith);
  nearer = rw e (omega arith);
}
advance s err (finished e') e o w h = cc o
advance s err (crashed p) e o w h = cc o

-- A call of `DoWithCancel` does not hang once `f` has returned: until it is over, its caller has a
-- next step, and that step lowers the number of steps left to it, which is three at most.
pub reach-Advances :
    (ctx_err : Option GoError) (s : Wait) (err : Option GoError)
    → Reach (begin ctx_err) s
    → s.worker ≡ ended err
    → is_over s.caller ≡ false
    → Advances s
reach-Advances ctx_err s err r w o = advance s err s.caller refl o w (Reach-Holds r (refl, refl))
