-- ===== src/Demo/CreditCards.antt =====
-- examples/commands/creditcardcommand.go.
use Prim.Native.String.{String, ◌++◌ as ◌<>◌}
use cuirass.Prelude.{ℕ, ◌*◌, Bool, true, false, not, Option, none, some, if◌then◌else◌}
use cuirass.Prelude.Options.{◌>>=◌}
use cuirass.Num.BucketSize.{millisecond}
use cuirass.Command.{Command, new_command, build}
use cuirass.Executor.{Reply}
use cuirass.Demo.{
  PaymentInformation, Order, CreditCardAuthorizationResult, Value, authorization_value, Platform,
  Exec, as_user, DemoState, put_platform, pause, draw_above, draw_below, in_goroutine,
}
use cuirass.Demo.Accounts.{new_get_user_account_command, the_cookie}

unfoldable pub new_success_response : String → String → CreditCardAuthorizationResult
new_success_response transaction_id authorization_code = record {
  success = true;
  authorization_code = authorization_code;
  transaction_id = transaction_id;
  error_message = "";
}

unfoldable pub new_failed_response : String → CreditCardAuthorizationResult
new_failed_response message = record {
  success = false;
  authorization_code = "";
  transaction_id = "";
  error_message = message;
}

abbrev pub auth_capture : ℕ
auth_capture = 0

-- `Result`, whose values come from `NewResult` alone.
pub record AuthResult : Type 0 where
  pub approved : Bool

abbrev pub new_result : Bool → AuthResult
new_result approved = record { approved = approved }

unfoldable pub is_approved : AuthResult → Bool
is_approved r = r.approved

unfoldable pub is_declined : AuthResult → Bool
is_declined r = not r.approved

abbrev pub response_text : AuthResult → String
response_text r = ""

abbrev pub reason_response_code : AuthResult → ℕ
reason_response_code r = 0

-- `Target`, a struct with no fields.
pub data Target : Type 0 where
  new_target : Target

abbrev pub target_of : AuthResult → Target
target_of r = new_target

abbrev pub transaction_id_of : Target → String
transaction_id_of t = "transactionId"

abbrev pub authorization_code_of : Target → String
authorization_code_of t = "authorizedCode"

module _ {C : Type 0} (h : Platform C) where
  open h use {P, Rat, sleep, itoa}

  -- `Submit` of the gateway, a struct with no fields.
  unfoldable pub submit : String → String → String → ℕ → Rat → Option Order → P → AuthResult × P
  submit credit_card_number expiration_month expiration_year kind amount order p =
      let p1 = pause h 700 800 p in
      let (slow, p2) = draw_above h 9900 p1 in
      let p3 = if slow then sleep (8000 * millisecond) p2 else p2 in
      let (approved, p4) = draw_below h 8000 p3 in
      if approved then (new_result true, p4) else (new_result false, p4)

  -- The variable `r`, by what the gateway answered; nil where it is neither.
  unfoldable pub response_for : AuthResult → Option Value
  response_for result =
      if is_approved result
      then some (
          authorization_value (
            new_success_response (transaction_id_of (target_of result))
              (authorization_code_of (target_of result))))
      else if is_declined result
      then some (
          authorization_value (
            new_failed_response
              (itoa (reason_response_code result) <> (":" <> response_text result))))
      else none

  -- By the reply of the account's command. Nothing is done by the type of the account, which is read.
  unfoldable pub authorize :
      Option Order
      → PaymentInformation
      → Rat
      → Reply Value
      → DemoState h
      → Option (Reply Value × DemoState h)
  authorize order payment amount (v, some e) s = some ((none, some e), s)
  authorize order payment amount (v, none) s = do
    user ← as_user v
    let (result, p) =
        submit payment.credit_card_number (itoa payment.expiration.month)
          (itoa payment.expiration.year) auth_capture amount order s.world.platform
    some ((response_for result, none), put_platform h p s)

  module _ (exec : Exec C P) where
    -- What the command does in its goroutine.
    unfoldable pub charge :
        Option Order
        → PaymentInformation
        → Rat
        → C
        → DemoState h
        → Option (Reply Value × DemoState h)
    charge order payment amount ctx s = do
      (reply, s') ← exec ctx (new_get_user_account_command h the_cookie) s
      authorize order payment amount reply s'

    unfoldable pub new_credit_card_command :
        Option Order → PaymentInformation → Rat → Command C Value (DemoState h)
    unfolding build new_command
    new_credit_card_command order payment amount =
        build (new_command "CreditCardCommand" (in_goroutine h (charge order payment amount)))
