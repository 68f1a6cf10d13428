-- ===== src/Examples/Demonstration.antt =====
-- Runs of the demonstration, whose commands call the executor from their functions.
use Prim.Native.String.{String}
use cuirass.Prelude.{Option, some, Bool, true, if◌then◌else◌}
use cuirass.Prelude.{ℕ, ◌+◌, ◌*◌, ◌%◌, ◌≡◌, refl, false, none, [], ◌∷◌, arith, length, ltb}
use cuirass.Prelude.Options.{◌>>=◌, Returns}
use cuirass.Util.Errors.{deadline_exceeded}
use cuirass.Metrics.{all_metrics}
use cuirass.Num.RollingPercentile.{all_values}
use cuirass.Executor.{new_executor_with_clock}
use cuirass.Executor.Nested.{exec_in}
use cuirass.Executor.Nested.Keeping.{held_of}
use cuirass.Executor.Nested.Finishing.{Replies}
use cuirass.Executor.Nested.Replying.{Anything}
use cuirass.Executor.Nested.Execs.{exec_in-Replies}
use cuirass.Demo.{Platform, UserAccount, PaymentInformation, DemoState}
use cuirass.Demo.Accounts.{new_get_user_account_command, the_cookie}
use cuirass.Demo.Payments.{new_get_payment_information_command}
use cuirass.Demo.Orders.{new_get_order_command}
use cuirass.Demo.CreditCards.{new_credit_card_command}
use cuirass.Demo.Conduct.{
  NoPins, IsUser, IsPayment, IsOrder, IsAuthorization, Typed, max_of, IsRunning, Ready,
  new_executor_with_clock-Ready,
}
use cuirass.Demo.Soundness.{new_get_order_command-Sound}
use cuirass.Demo.Typing.{Typed-replies}
use mathlib.Core.Path.{subst}
use cuirass.Prelude.{sym, ap, ◌∙◌}
use cuirass.RequestCache.{ExecutedCommand, CacheKey, key_eq, new_cache_key}
use cuirass.Command.{is_cacheable, build, set_cache_key, set_fallback, new_command}
use cuirass.Executor.Endings.{may_cache}
use cuirass.Executor.Nested.Keeping.{held_under, Fine}
use cuirass.Demo.{Value, user_value}
use cuirass.Demo.Consistency.{OrdersOf, AccountPinned, IsOrderOf, IsOrderOf-account}
use cuirass.Demo.Serving.{serve_all-new}
use cuirass.Demo.Requests.{main_settings, serve_all}
use cuirass.Demo.Configured.{properties_of, MainTimeouts, serve_all_main}
use cuirass.Properties.{PropertyFactory}
use cuirass.Properties.Resolution.{or_else, Settings}
use cuirass.Prelude.Maps.{string_eq, lookup}
use cuirass.Demo.Reports.{AreLines, monitor_round, monitor_round-Returns}
use cuirass.Examples.Values.{
  ticks, deadlines, command_properties, whole, whole-RankLaws, cfg, cfg-room,
}
use cuirass.Examples.Reporting.{busy_state}

-- Draws that follow from a seed; no context is done.
abbrev seeded : Platform ℕ
seeded = record {
  P = ℕ;
  Float = ℕ;
  intn = λ n p. (p % n, 7 * p + 1);
  float64 = λ p. (p % 10000, 7 * p + 1);
  above = λ x n. ltb n x;
  below = λ x n. ltb x n;
  sleep = λ d p. p;
  is_done = λ ctx p. (false, p);
  err = λ ctx p. deadline_exceeded;
  cookie_string = λ cookie. cookie.name;
  itoa = λ n. "n";
  Rat = String;
  set_string = λ s. s;
}

abbrev first_state : DemoState seeded
first_state =
    new_executor_with_clock cfg ticks ticks none none (record { platform = 3; crashed = false })

first_state-Ready : Ready deadlines command_properties seeded Typed NoPins first_state
first_state-Ready =
    new_executor_with_clock-Ready deadlines command_properties seeded cfg ticks ticks 3 cfg-room

serve_all-new_example :
    Returns
      (λ (texts, s').
        (length texts ≡ 2)
        × (s'.world.crashed ≡ false)
        × ((k : String) → held_of k s'.semaphores ≡ 0))
      (serve_all seeded (exec_in deadlines command_properties) (7 ∷ 9 ∷ []) first_state)
serve_all-new_example =
    serve_all-new deadlines command_properties seeded (λ name. refl) cfg ticks ticks 3 (7 ∷ 9 ∷ [])
      cfg-room

exec_in-Replies_example :
    Returns
      (Replies deadlines command_properties
        (max_of deadlines command_properties seeded)
        Typed
        (IsRunning deadlines command_properties seeded)
        NoPins
        (new_get_order_command seeded (exec_in deadlines command_properties) 5)
        Anything
        first_state)
      (exec_in deadlines command_properties 7
        (new_get_order_command seeded (exec_in deadlines command_properties) 5)
        first_state)
exec_in-Replies_example =
    exec_in-Replies deadlines command_properties (max_of deadlines command_properties seeded) Typed
      (IsRunning deadlines command_properties seeded) NoPins
      (new_get_order_command seeded (exec_in deadlines command_properties) 5) 7 first_state
      (new_get_order_command-Sound deadlines command_properties seeded (λ name. refl) 5)
      first_state-Ready

abbrev account : UserAccount
account = record { id = 1; name = "a"; account_type = 1 }

abbrev card : PaymentInformation
card = record {
  user_account = account;
  credit_card_number = "4";
  expiration = record { month = 1; year = 2 };
}

Typed-replies_example :
    Returns
      (λ (reply, s'). reply.1 ≡ none → IsUser reply.0)
      (exec_in deadlines command_properties 7
        (new_get_user_account_command seeded the_cookie)
        first_state)
    × Returns
        (λ (reply, s'). reply.1 ≡ none → IsPayment reply.0)
        (exec_in deadlines command_properties 7
          (new_get_payment_information_command seeded account)
          first_state)
    × Returns
        (λ (reply, s'). reply.1 ≡ none → IsOrder reply.0)
        (exec_in deadlines command_properties 7
          (new_get_order_command seeded (exec_in deadlines command_properties) 5)
          first_state)
    × Returns
        (λ (reply, s'). reply.1 ≡ none → IsAuthorization reply.0)
        (exec_in deadlines command_properties 7
          (new_credit_card_command seeded (exec_in deadlines command_properties) none card "123.45")
          first_state)
Typed-replies_example =
    Typed-replies deadlines command_properties seeded (λ name. refl) 7 first_state account 5 none
      card "123.45" first_state-Ready

monitor_round-Returns_example :
    Returns
      (λ (lines, s'). AreLines (λ n. "n") (all_metrics busy_state.metrics) lines)
      (monitor_round whole (λ vs. vs) (λ n. "n") busy_state)
unfolding all_values all_metrics
monitor_round-Returns_example =
    monitor_round-Returns whole (λ vs. vs) (λ n. "n") whole-RankLaws (λ vs. refl) busy_state
      (omega arith, tt)

-- A factory over the texts of main.
abbrev parse_number : String → Option ℕ
parse_number t =
    if string_eq.beq t "3000" then some 3000 else if string_eq.beq t "50" then some 50 else none

abbrev parse_truth : String → Option Bool
parse_truth t = if string_eq.beq t "true" then some true else none

abbrev main_duration : String → ℕ → Option ℕ
main_duration n u = lookup n main_settings >>= parse_number >>= (λ k. some (k * u))

abbrev main_factory : PropertyFactory
main_factory = record {
  get_string = λ n d. d;
  get_bool = λ n d. or_else (lookup n main_settings >>= parse_truth) d;
  get_int = λ n d. or_else (lookup n main_settings >>= parse_number) d;
  get_duration = λ n u d. or_else (main_duration n u) d;
  chained_bool = λ n d. or_else (lookup n main_settings >>= parse_truth) d;
  chained_int = λ n d. or_else (lookup n main_settings >>= parse_number) d;
  chained_duration = λ n u d. or_else (main_duration n u) d;
}

abbrev main_factory_settings : Settings main_factory
main_factory_settings = record {
  bool_at = λ n. lookup n main_settings >>= parse_truth;
  int_at = λ n. lookup n main_settings >>= parse_number;
  duration_at = main_duration;
  get_bool_lem = λ n d. refl;
  get_int_lem = λ n d. refl;
  get_duration_lem = λ n u d. refl;
  chained_bool_lem = λ n d. refl;
  chained_int_lem = λ n d. refl;
  chained_duration_lem = λ n u d. refl;
}

serve_all_main_example :
    MainTimeouts main_factory
    × Returns
        (λ (texts, s').
          (length texts ≡ 2)
          × (s'.world.crashed ≡ false)
          × ((k : String) → held_of k s'.semaphores ≡ 0))
        (serve_all seeded (exec_in deadlines (properties_of main_factory)) (7 ∷ 9 ∷ []) (
          new_executor_with_clock main_factory ticks ticks none none
            (record { platform = 3; crashed = false })))
serve_all_main_example =
    serve_all_main main_factory main_factory_settings parse_truth parse_number deadlines seeded
      ticks ticks 3 (7 ∷ 9 ∷ [])
      (record {
        bool_at_lem = λ n. refl;
        int_at_lem = λ n. refl;
        duration_at_lem = λ n. refl;
        default_prefix = refl;
        parsed = (refl, refl);
        not_bool = (refl, refl);
      })

abbrev entry : ExecutedCommand Value
entry = record {
  response = some (user_value account);
  err = none;
  info = record { command_name = "GetUserAccountCommand"; raw_time = 0; events = [] };
}

abbrev account_key : CacheKey
account_key = new_cache_key "GetUserAccountCommand" "name"

-- The account was fetched in this request.
abbrev with_account : DemoState seeded
with_account = record first_state { request_cache = some ((account_key, entry) ∷ []) }

with_account-Ready :
    Ready deadlines command_properties seeded
      (OrdersOf account)
      (AccountPinned seeded entry)
      with_account
unfolding lookup new_executor_with_clock
with_account-Ready = record {
  metrics_valid = first_state-Ready.metrics_valid;
  fits = first_state-Ready.fits;
  world_good = refl;
  pinned = λ k x (same, same').
      ap (λ j. held_under j with_account.request_cache) same ∙ ap some (sym same');
  cached_fine = λ k x q. by_test k x (key_eq.beq account_key k) (key_eq.beq_iff account_key k).0 q;
}
  where
    by_test :
        (k : CacheKey) (x : ExecutedCommand Value) (b : Bool)
        → (b ≡ true → account_key ≡ k)
        → (if b then some entry else none) ≡ some x
        → Fine (OrdersOf account) k.command_name x.response x.err
    by_test k x true same q =
        λ e. subst (λ (j : CacheKey). OrdersOf account j.command_name x.response) (same refl) tt
    by_test k x false same q = cc q

account_cacheable :
    may_cache deadlines command_properties (new_get_user_account_command seeded the_cookie) ≡ true
unfolding is_cacheable new_get_user_account_command build set_cache_key set_fallback new_command
account_cacheable = refl

IsOrderOf-account_example :
    Returns
      (λ (reply, s'). reply.1 ≡ none → IsOrderOf account reply.0)
      (exec_in deadlines command_properties 7
        (new_get_order_command seeded (exec_in deadlines command_properties) 5)
        with_account)
IsOrderOf-account_example =
    IsOrderOf-account deadlines command_properties seeded account entry refl refl account_cacheable
      refl 7 5 with_account with_account-Ready
