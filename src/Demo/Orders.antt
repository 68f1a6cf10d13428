-- ===== src/Demo/Orders.antt =====
-- examples/commands/getordercommand.go.
use cuirass.Prelude.{ℕ, Bool, true, false, Option, none, some, if◌then◌else◌}
use cuirass.Prelude.Options.{◌>>=◌}
use cuirass.Util.Errors.{GoError, other}
use cuirass.Command.{Command, new_command, build}
use cuirass.Executor.{Reply}
use cuirass.Demo.{
  Order, Value, order_value, Platform, Exec, as_user, DemoState, put_platform, pause, draw_above,
  in_goroutine,
}
use cuirass.Demo.Accounts.{new_get_user_account_command, the_cookie}

module _ {C : Type 0} (h : Platform C) where
  open h use {P}

  -- By the reply of the account's command.
  unfoldable pub order_for :
      ℕ → Reply Value → DemoState h → Option ((Option Order × Option GoError) × DemoState h)
  order_for order_id (v, some e) s = some ((none, some e), s)
  order_for order_id (v, none) s = do
    user ← as_user v
    some ((some (record { order_id = order_id; user = user }), none), s)

  -- What is drawn before the order is made: whether that fails.
  unfoldable pub draw_order : P → Bool × P
  draw_order p =
      let p1 = pause h 200 50 p in
      let (fails, p2) = draw_above h 9999 p1 in
      let (slow, p3) = draw_above h 9500 p2 in
      let p4 = if slow then pause h 300 25 p3 else p3 in if fails then (true, p2) else (false, p4)

module _ {C : Type 0} (h : Platform C) (exec : Exec C h.P) where
  unfoldable pub new_order :
      C → ℕ → DemoState h → Option ((Option Order × Option GoError) × DemoState h)
  new_order ctx order_id s = do
    (reply, s') ← exec ctx (new_get_user_account_command h the_cookie) s
    order_for h order_id reply s'

  -- What the command does in its goroutine. The interface `r` is not nil where the order in it is.
  unfoldable pub fetch_order : ℕ → C → DemoState h → Option (Reply Value × DemoState h)
  fetch_order order_id ctx s =
      let (fails, p) = draw_order h s.world.platform in
      elim fails [
        | true ↦ some ((none, some (other "Failure getting Order")), put_platform h p s)
        | false ↦ do
          ((o, e), s') ← new_order ctx order_id (put_platform h p s)
          some ((some (order_value o), e), s')
      ]

  unfoldable pub new_get_order_command : ℕ → Command C Value (DemoState h)
  unfolding build new_command
  new_get_order_command order_id =
      build (new_command "GetOrderCommand" (in_goroutine h (fetch_order order_id)))
