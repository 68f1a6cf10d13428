-- ===== src/Demo/Typing.antt =====
-- examples/commands: that the assertions on the values of replies hold.
use Prim.Native.String.{String}
use cuirass.Prelude.{ℕ, ◌≡◌, true, Option, none}
use cuirass.Prelude.Options.{Returns, Returns-map}
use cuirass.Prelude.Maps.{string_eq}
use cuirass.Command.{GoContext, CommandProperties, new_command, set_fallback, set_cache_key, build}
use cuirass.Executor.Nested.{exec_in}
use cuirass.Executor.Nested.Execs.{exec_in-Replies}
use cuirass.Demo.{UserAccount, PaymentInformation, Order, Platform, DemoState}
use cuirass.Demo.Accounts.{new_get_user_account_command, the_cookie}
use cuirass.Demo.Payments.{new_get_payment_information_command}
use cuirass.Demo.Orders.{new_get_order_command}
use cuirass.Demo.CreditCards.{new_credit_card_command}
use cuirass.Demo.Conduct.{
  NoPins, IsUser, IsPayment, IsOrder, IsAuthorization, Typed, max_of, IsRunning, Ready, the_exec,
}
use cuirass.Demo.Soundness.{
  exec_user-Sends, new_get_payment_information_command-Sound, new_get_order_command-Sound,
  new_credit_card_command-Sound,
}

module _ (g : GoContext) (properties : String → String → CommandProperties) (h : Platform g.Context)
    (on : (name : String) → (properties name name).fallback_enabled ≡ true) where
  open g use {Context}
  open h use {P}

  -- From a ready state, a reply of each of the four commands that comes with no error holds a
  -- value of the type that its callers assert: an account, payment information, an order that is
  -- not nil, and an authorization result. Failures have a fallback.
  pub Typed-replies :
      (ctx : Context) (s : DemoState h) (user : UserAccount) (order_id : ℕ) (order : Option Order)
      (payment : PaymentInformation) (amount : h.Rat)
      → Ready g properties h Typed NoPins s
      → Returns
          (λ (reply, s'). reply.1 ≡ none → IsUser reply.0)
          (exec_in g properties ctx (new_get_user_account_command h the_cookie) s)
        × Returns
            (λ (reply, s'). reply.1 ≡ none → IsPayment reply.0)
            (exec_in g properties ctx (new_get_payment_information_command h user) s)
        × Returns
            (λ (reply, s'). reply.1 ≡ none → IsOrder reply.0)
            (exec_in g properties ctx (new_get_order_command h (exec_in g properties) order_id) s)
        × Returns
            (λ (reply, s'). reply.1 ≡ none → IsAuthorization reply.0)
            (exec_in g properties ctx
              (new_credit_card_command h (exec_in g properties) order payment amount)
              s)
  unfolding new_get_user_account_command new_get_payment_information_command new_get_order_command
      new_credit_card_command build set_cache_key set_fallback new_command
  Typed-replies ctx s user order_id order payment amount r = (
    Returns-map (exec_user-Sends g properties h on ctx s r) (λ (reply, s') k. k.1),
    Returns-map
        (exec_in-Replies g properties (max_of g properties h) Typed (IsRunning g properties h)
          NoPins (new_get_payment_information_command h user) ctx s
          (new_get_payment_information_command-Sound g properties h on user) r)
        (λ (reply, s') k. k.1),
    Returns-map
        (exec_in-Replies g properties (max_of g properties h) Typed (IsRunning g properties h)
          NoPins (new_get_order_command h (the_exec g properties h) order_id) ctx s
          (new_get_order_command-Sound g properties h on order_id) r)
        (λ (reply, s') k. k.1),
    Returns-map
        (exec_in-Replies g properties (max_of g properties h) Typed (IsRunning g properties h)
          NoPins (new_credit_card_command h (the_exec g properties h) order payment amount) ctx s
          (new_credit_card_command-Sound g properties h on order payment amount) r)
        (λ (reply, s') k. k.1),
  )
