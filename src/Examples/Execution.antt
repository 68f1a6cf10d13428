-- ===== src/Examples/Execution.antt =====
-- Runs of the executor.
use cuirass.Executor.Sessions.{AllFree, exec_all, exec_all-new}
use cuirass.Prelude.{length, ◌≡◌, refl, none, some, [], ◌∷◌}
use cuirass.Prelude.Options.{Returns}
use cuirass.RequestLog.{failure, fallback_success}
use cuirass.Util.Errors.{text_value, panicked}
use cuirass.Command.{is_cacheable}
use cuirass.Executor.{exec, new_executor_with_clock, finish}
use cuirass.Executor.Panics.{event_of_panic}
use cuirass.Executor.Answers.{Answered, finish-Answered}
use cuirass.Executor.Endings.{Caches}
use cuirass.Executor.Remembering.{Stores, finish-Stores}
use cuirass.Executor.Outcomes.{Untouched, exec_twice}
use cuirass.Examples.Values.{
  ticks, deadlines, command_properties, flaky, metrics-IsValid, fresh_state, cfg, cfg-room,
}

fresh_state-Caches : Caches deadlines command_properties flaky fresh_state
unfolding is_cacheable
fresh_state-Caches = record { allowed_cache = refl; cache = []; in_context = refl }

-- A panic with a fallback is cached.
exec_twice_example :
    Returns
      (λ (reply, s').
        Returns
          (λ (reply', s''). (reply' ≡ reply) × Untouched deadlines command_properties flaky s' s'')
          (exec deadlines command_properties 9 flaky s'))
      (exec deadlines command_properties 7 flaky fresh_state)
exec_twice_example =
    exec_twice deadlines command_properties flaky 7 9 fresh_state metrics-IsValid refl
      fresh_state-Caches

finish-Answered_example :
    Returns
      (Answered deadlines command_properties flaky fresh_state
        ((some 0, none), failure ∷ fallback_success ∷ []))
      (finish deadlines command_properties 7 flaky 3 none
        (panicked (text_value "down"))
        fresh_state)
unfolding event_of_panic
finish-Answered_example =
    finish-Answered deadlines command_properties flaky 7 3 none (panicked (text_value "down"))
      fresh_state metrics-IsValid

finish-Stores_example :
    Returns (Stores deadlines command_properties flaky []) (
      finish deadlines command_properties 7 flaky 3 none (panicked (text_value "down")) fresh_state)
finish-Stores_example =
    finish-Stores deadlines command_properties flaky 7 3 none (panicked (text_value "down"))
      fresh_state metrics-IsValid refl fresh_state-Caches

exec_all-new_example :
    Returns
      (λ (replies, s'). (length replies ≡ 2) × AllFree s'.semaphores)
      (exec_all deadlines command_properties
        ((7, flaky) ∷ (9, flaky) ∷ [])
        (new_executor_with_clock cfg ticks ticks none (some []) 0))
exec_all-new_example =
    exec_all-new deadlines command_properties cfg ticks ticks none (some []) 0
      ((7, flaky) ∷ (9, flaky) ∷ []) cfg-room
