-- ===== src/Demo/Payments.antt =====
-- examples/commands/getpaymentinformationcommand.go.
use Prim.Native.String.{String}
use cuirass.Prelude.{ℕ, none, some, if◌then◌else◌}
use cuirass.Util.Errors.{other}
use cuirass.Command.{Command, new_command, build}
use cuirass.Executor.{Reply}
use cuirass.Demo.{
  UserAccount, PaymentInformation, Value, payment_value, Platform, DemoState, pause, draw_above,
  in_goroutine, on_platform,
}

abbrev pub new_payment_information : UserAccount → String → ℕ → ℕ → PaymentInformation
new_payment_information user_account credit_card_number expiration_month expiration_year = record {
  user_account = user_account;
  credit_card_number = credit_card_number;
  expiration = record { month = expiration_month; year = expiration_year };
}

module _ {C : Type 0} (h : Platform C) where
  open h use {P}

  -- What the command does in its goroutine.
  unfoldable pub fetch_payment : UserAccount → P → Reply Value × P
  fetch_payment user p =
      let p1 = pause h 10 2 p in
      let (fails, p2) = draw_above h 9999 p1 in
      let (slow, p3) = draw_above h 9800 p2 in
      let p4 = if slow then pause h 100 25 p3 else p3 in
      if fails then ((none, some (other "Failure getting PaymentInformation")), p2) else (
        (some (payment_value (new_payment_information user "4444888833337777" 12 15)), none),
        p4,
      )

  unfoldable pub new_get_payment_information_command : UserAccount → Command C Value (DemoState h)
  unfolding build new_command
  new_get_payment_information_command user = build (
      new_command "GetPaymentInformationCommand"
        (in_goroutine h (on_platform h (fetch_payment user))))
