-- ===== src/Demo/Soundness.antt =====
-- examples/commands: that the commands are sound, with the executor's own `Exec` under them.
use Prim.Native.String.{String}
use mathlib.Core.Path.{subst}
use cuirass.Prelude.{
  ℕ, ◌≡◌, refl, sym, Bool, true, false, Option, none, some, if◌then◌else◌, Bool-cases, inl, inr,
}
use cuirass.Prelude.Options.{◌>>=◌, Returns, returns, >>=-Returns, Returns-map}
use cuirass.Prelude.Maps.{string_eq}
use cuirass.Util.Errors.{GoError, other}
use cuirass.Command.{GoContext, CommandProperties, new_command, set_fallback, set_cache_key, build}
use cuirass.Executor.{Reply}
use cuirass.Executor.Nested.Keeping.{Fine}
use cuirass.Executor.Nested.Execs.{exec_in-Replies}
use cuirass.Demo.{
  UserAccount, PaymentInformation, Order, Value, order_value, Cookie, Platform, as_user, as_payment,
  as_order, DemoState, put_platform, on_platform,
}
use cuirass.Demo.Accounts.{fetch_user, user_fallback, new_get_user_account_command, the_cookie}
use cuirass.Demo.Payments.{fetch_payment, new_get_payment_information_command}
use cuirass.Demo.Orders.{order_for, new_order, draw_order, fetch_order, new_get_order_command}
use cuirass.Demo.CreditCards.{
  AuthResult, is_approved, is_declined, response_for, authorize, charge, new_credit_card_command,
}
use cuirass.Demo.Conduct.{
  NoPins, IsAuthorization, Typed, max_of, IsRunning, Ready, Kept, Sound, the_exec, Sends,
  put_platform-Kept, Kept-trans, in_goroutine-Careful, on_platform-Sends, default-Careful,
  failed-Fine,
}

module _ (g : GoContext) (properties : String → String → CommandProperties)
    (h : Platform g.Context) where
  open g use {Context}
  open h use {P}

  abbrev FineSent : String → Reply Value × P → Type 0
  FineSent name (reply, p) = Fine Typed name reply.0 reply.1

  -- One of two ends, the first of which is an error.
  choice-Fine :
      (name : String) (b : Bool) (e : GoError) (v : Option Value) (p q : P)
      → Typed name v
      → FineSent name (if b then ((none, some e), p) else ((v, none), q))
  choice-Fine name true e v p q typed = failed-Fine g properties h Typed NoPins name none e
  choice-Fine name false e v p q typed = λ x. typed

  fetch_user-Fine : (p : P) → FineSent "GetUserAccountCommand" (fetch_user h p)
  unfolding fetch_user as_user
  fetch_user-Fine p = choice-Fine "GetUserAccountCommand" _ _ _ _ _ (_, refl)

  fetch_payment-Fine :
      (user : UserAccount) (p : P)
      → FineSent "GetPaymentInformationCommand" (fetch_payment h user p)
  unfolding fetch_payment as_payment
  fetch_payment-Fine user p = choice-Fine "GetPaymentInformationCommand" _ _ _ _ _ (_, refl)

  module _ (on : (name : String) → (properties name name).fallback_enabled ≡ true) where
    pub new_get_user_account_command-Sound :
        (cookie : Cookie)
        → Sound g properties h Typed NoPins (new_get_user_account_command h cookie)
    unfolding new_get_user_account_command build set_cache_key set_fallback new_command
        user_fallback as_user
    new_get_user_account_command-Sound cookie = record {
      fallback_on = on "GetUserAccountCommand";
      same_max = refl;
      careful_run =
          in_goroutine-Careful g properties h Typed NoPins "GetUserAccountCommand"
            (on_platform h (fetch_user h))
            (on_platform-Sends g properties h Typed NoPins "GetUserAccountCommand" (fetch_user h)
              fetch_user-Fine);
      careful_fallback = λ ctx s r.
          (put_platform-Kept g properties h Typed NoPins s s.world.platform r, λ q. (_, refl));
    }

    pub new_get_payment_information_command-Sound :
        (user : UserAccount)
        → Sound g properties h Typed NoPins (new_get_payment_information_command h user)
    unfolding new_get_payment_information_command build new_command
    new_get_payment_information_command-Sound user = record {
      fallback_on = on "GetPaymentInformationCommand";
      same_max = refl;
      careful_run =
          in_goroutine-Careful g properties h Typed NoPins "GetPaymentInformationCommand"
            (on_platform h (fetch_payment h user))
            (on_platform-Sends g properties h Typed NoPins "GetPaymentInformationCommand"
              (fetch_payment h user) (fetch_payment-Fine user));
      careful_fallback = default-Careful g properties h Typed NoPins "GetPaymentInformationCommand";
    }

    -- What a call for the account of the user leaves.
    pub exec_user-Sends :
        (ctx : Context) (s : DemoState h)
        → Ready g properties h Typed NoPins s
        → Sends g properties h Typed NoPins "GetUserAccountCommand" s
            ((the_exec g properties h) ctx (new_get_user_account_command h the_cookie) s)
    unfolding new_get_user_account_command build set_cache_key set_fallback new_command
    exec_user-Sends ctx s r =
        exec_in-Replies g properties (max_of g properties h) Typed (IsRunning g properties h) NoPins
          (new_get_user_account_command h the_cookie) ctx s
          (new_get_user_account_command-Sound the_cookie) r

    order_for-Sends :
        (order_id : ℕ) (reply : Reply Value) (s : DemoState h)
        → Ready g properties h Typed NoPins s
        → Fine Typed "GetUserAccountCommand" reply.0 reply.1
        → Returns
            (λ (x, s'). (s' ≡ s) × Fine Typed "GetOrderCommand" (some (order_value x.0)) x.1)
            (order_for h order_id reply s)
    unfolding order_for as_order
    order_for-Sends order_id (v, some e) s r fine = returns _ (refl, λ q. cc q)
    order_for-Sends order_id (v, none) s r fine =
        rw (fine refl).1 (returns _ (refl, λ q. (_, refl)))

    new_order-Sends :
        (ctx : Context) (order_id : ℕ) (s : DemoState h)
        → Ready g properties h Typed NoPins s
        → Returns
            (λ (x, s').
              Kept g properties h Typed NoPins s s'
              × Fine Typed "GetOrderCommand" (some (order_value x.0)) x.1)
            (new_order h (the_exec g properties h) ctx order_id s)
    unfolding new_order
    new_order-Sends ctx order_id s r = >>=-Returns (exec_user-Sends ctx s r) (λ (reply, s') k.
        Returns-map (order_for-Sends order_id reply s' k.0.ready k.1)
          (λ (x, s'') o. (subst (Kept g properties h Typed NoPins s) (sym o.0) k.0, o.1)))

    fetch_order-Sends :
        (order_id : ℕ) (ctx : Context) (s : DemoState h)
        → Ready g properties h Typed NoPins s
        → Sends g properties h Typed NoPins "GetOrderCommand" s
            (fetch_order h (the_exec g properties h) order_id ctx s)
    unfolding fetch_order
    fetch_order-Sends order_id ctx s r =
        by_draw (draw_order h s.world.platform).0 (draw_order h s.world.platform).1
      where
        by_draw :
            (b : Bool) (p : P)
            → Sends g properties h Typed NoPins "GetOrderCommand" s (elim b [
              | true ↦ some ((none, some (other "Failure getting Order")), put_platform h p s)
              | false ↦ do
                ((o, e), s') ←
                    new_order h (the_exec g properties h) ctx order_id (put_platform h p s)
                some ((some (order_value o), e), s')
            ])
        by_draw true p = returns _ (put_platform-Kept g properties h Typed NoPins s p r, λ q. cc q)
        by_draw false p =
            let k = put_platform-Kept g properties h Typed NoPins s p r in
            >>=-Returns (new_order-Sends ctx order_id (put_platform h p s) k.ready) (λ (x, s'') k'.
              returns _
                (Kept-trans g properties h Typed NoPins s (put_platform h p s) s'' k k'.0, k'.1))

    pub new_get_order_command-Sound :
        (order_id : ℕ)
        → Sound g properties h Typed NoPins
            (new_get_order_command h (the_exec g properties h) order_id)
    unfolding new_get_order_command build new_command
    new_get_order_command-Sound order_id = record {
      fallback_on = on "GetOrderCommand";
      same_max = refl;
      careful_run =
          in_goroutine-Careful g properties h Typed NoPins "GetOrderCommand"
            (fetch_order h (the_exec g properties h) order_id) (fetch_order-Sends order_id);
      careful_fallback = default-Careful g properties h Typed NoPins "GetOrderCommand";
    }

    -- The gateway approves or declines.
    response_for-IsAuthorization : (result : AuthResult) → IsAuthorization (response_for h result)
    unfolding response_for is_approved is_declined
    response_for-IsAuthorization result = elim (Bool-cases result.approved) [
      | inl approves ↦ rw approves (_, refl)
      | inr declines ↦ rw declines (_, refl)
    ]

    authorize-Sends :
        (order : Option Order) (payment : PaymentInformation) (amount : h.Rat) (reply : Reply Value)
        (s : DemoState h)
        → Ready g properties h Typed NoPins s
        → Fine Typed "GetUserAccountCommand" reply.0 reply.1
        → Sends g properties h Typed NoPins "CreditCardCommand" s
            (authorize h order payment amount reply s)
    unfolding authorize
    authorize-Sends order payment amount (v, some e) s r fine =
        returns _ (put_platform-Kept g properties h Typed NoPins s s.world.platform r, λ q. cc q)
    authorize-Sends order payment amount (v, none) s r fine = rw (fine refl).1 (
        returns _ (
          put_platform-Kept g properties h Typed NoPins s _ r,
          λ q. response_for-IsAuthorization _,
        ))

    charge-Sends :
        (order : Option Order) (payment : PaymentInformation) (amount : h.Rat) (ctx : Context)
        (s : DemoState h)
        → Ready g properties h Typed NoPins s
        → Sends g properties h Typed NoPins "CreditCardCommand" s
            (charge h (the_exec g properties h) order payment amount ctx s)
    unfolding charge
    charge-Sends order payment amount ctx s r =
        >>=-Returns (exec_user-Sends ctx s r) (λ (reply, s') k.
          Returns-map (authorize-Sends order payment amount reply s' k.0.ready k.1)
            (λ (x, s'') k'. (Kept-trans g properties h Typed NoPins s s' s'' k.0 k'.0, k'.1)))

    pub new_credit_card_command-Sound :
        (order : Option Order) (payment : PaymentInformation) (amount : h.Rat)
        → Sound g properties h Typed NoPins
            (new_credit_card_command h (the_exec g properties h) order payment amount)
    unfolding new_credit_card_command build new_command
    new_credit_card_command-Sound order payment amount = record {
      fallback_on = on "CreditCardCommand";
      same_max = refl;
      careful_run =
          in_goroutine-Careful g properties h Typed NoPins "CreditCardCommand"
            (charge h (the_exec g properties h) order payment amount)
            (charge-Sends order payment amount);
      careful_fallback = default-Careful g properties h Typed NoPins "CreditCardCommand";
    }
