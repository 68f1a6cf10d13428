-- ===== src/Demo/Requests.antt =====
-- examples/main.go: the requests that the server answers.
use Prim.Native.String.{String, ◌++◌ as ◌<>◌}
use cuirass.Prelude.{◌+◌, Option, none, some, List, [], ◌∷◌}
use cuirass.Prelude.Options.{◌>>=◌}
use cuirass.Util.Errors.{GoError}
use cuirass.RequestLog.{log_string}
use cuirass.Executor.{Reply}
use cuirass.Demo.{
  PaymentInformation, Order, Value, Platform, Exec, as_user, as_payment, as_order, DemoState,
  put_platform,
}
use cuirass.Demo.Accounts.{new_get_user_account_command, the_cookie}
use cuirass.Demo.Payments.{new_get_payment_information_command}
use cuirass.Demo.Orders.{new_get_order_command}
use cuirass.Demo.CreditCards.{new_credit_card_command}

-- The configuration of the server's executor.
abbrev pub main_settings : List (String × String)
main_settings =
    ("cuirass.command.CreditCardCommand.execution.isolation.thread.timeoutInMilliseconds", "3000")
    ∷ (
      "cuirass.command.GetUserAccountCommand.execution.isolation.thread.timeoutInMilliseconds",
      "50",
    )
    ∷ []

module _ {C : Type 0} (h : Platform C) where
  -- What is written to a client of "/payment".
  unfoldable pub written : DemoState h → Option String
  written s = do
    log ← s.request_log
    text ← log_string h.itoa log
    some ("Request => " <> (text <> "\n"))

module _ {C : Type 0} (h : Platform C) (exec : Exec C h.P) where
  open h use {intn, set_string}

  -- How a step of `simulateRequest` ends: with the error that is printed, and with which it returns, or
  -- none; or with a panic.
  abbrev pub Step : Type 0
  Step = Option (Option GoError × DemoState h)

  -- The last call, by the order and the payment information.
  unfoldable pub pay : C → Option Order → PaymentInformation → DemoState h → Step
  pay ctx order payment s = do
    ((v, e), s') ← exec ctx (new_credit_card_command h exec order payment (set_string "123.45")) s
    some (e, s')

  -- By the reply of the order's command, which is asserted behind that of the payment.
  unfoldable pub with_order : C → Option Value → Reply Value → DemoState h → Step
  with_order ctx payment (v, some e) s = some (some e, s)
  with_order ctx payment (v, none) s = do
    order ← as_order v
    payment_information ← as_payment payment
    pay ctx order payment_information s

  -- By the reply of the payment's command.
  unfoldable pub with_payment : C → Reply Value → DemoState h → Step
  with_payment ctx (v, some e) s = some (some e, s)
  with_payment ctx (v, none) s = do
    let (n, p) = intn 20000 s.world.platform
    (reply, s') ← exec ctx (new_get_order_command h exec (n + 9100)) (put_platform h p s)
    with_order ctx v reply s'

  -- By the reply of the account's command.
  unfoldable pub with_user : C → Reply Value → DemoState h → Step
  with_user ctx (v, some e) s = some (some e, s)
  with_user ctx (v, none) s = do
    user ← as_user v
    (reply, s') ← exec ctx (new_get_payment_information_command h user) s
    with_payment ctx reply s'

  unfoldable pub simulate_request : C → DemoState h → Step
  simulate_request ctx s = do
    (reply, s') ← exec ctx (new_get_user_account_command h the_cookie) s
    with_user ctx reply s'

  -- The handler of "/payment": a new context, with a cache and a log of its own.
  unfoldable pub handle_payment : C → DemoState h → Option (String × DemoState h)
  handle_payment ctx s = do
    (e, s') ← simulate_request ctx (record s { request_cache = some []; request_log = some [] })
    text ← written h s'
    some (text, s')

  -- Requests one after the other, and what is written for them.
  unfoldable pub serve_all : List C → DemoState h → Option (List String × DemoState h)
  serve_all [] s = some ([], s)
  serve_all (ctx ∷ ctxs) s = do
    (text, s') ← handle_payment ctx s
    (texts, s'') ← serve_all ctxs s'
    some (text ∷ texts, s'')
