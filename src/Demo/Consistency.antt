-- ===== src/Demo/Consistency.antt =====
-- examples/commands: within a request, the commands that ask for the account again get the one that
-- the request's cache has.
use Prim.Native.String.{String}
use mathlib.Core.Path.{subst, ap₂}
use cuirass.Prelude.{ℕ, ◌≡◌, refl, sym, ◌∙◌, Bool, true, false, Option, none, some, if◌then◌else◌}
use cuirass.Prelude.Options.{◌>>=◌, Returns, returns, >>=-Returns, Returns-map}
use cuirass.Prelude.Maps.{string_eq}
use cuirass.Util.Errors.{other}
use cuirass.RequestCache.{ExecutedCommand, CacheKey, new_cache_key}
use cuirass.Command.{GoContext, CommandProperties, new_command, set_fallback, set_cache_key, build}
use cuirass.Executor.{Reply}
use cuirass.Executor.Endings.{may_cache}
use cuirass.Executor.Nested.{exec_in}
use cuirass.Executor.Nested.Keeping.{Fine}
use cuirass.Executor.Nested.Execs.{stored_in, stored_in_lem, exec_in-Replies, exec_in-Replayed}
use cuirass.Demo.{
  UserAccount, Order, Value, user_value, order_value, Platform, as_user, as_order, DemoState,
  put_platform,
}
use cuirass.Demo.Accounts.{new_get_user_account_command, the_cookie}
use cuirass.Demo.Orders.{order_for, new_order, draw_order, fetch_order, new_get_order_command}
use cuirass.Demo.Conduct.{
  max_of, IsRunning, Ready, Kept, Sound, the_exec, Sends, put_platform-Kept, Kept-trans,
  in_goroutine-Careful, default-Careful,
}

-- An order of the account.
abbrev pub IsOrderOf : UserAccount → Option Value → Type 0
IsOrderOf user v = (o : Order) × (as_order v ≡ some (some o)) × (o.user ≡ user)

-- What is said of orders alone.
abbrev pub OrdersOf : UserAccount → String → Option Value → Type 0
OrdersOf user name v = if string_eq.beq name "GetOrderCommand" then IsOrderOf user v else Unit {0}

-- The cache has the entry under the key of the account's command.
abbrev pub AccountPinned :
    {C : Type 0} → Platform C → ExecutedCommand Value → CacheKey → ExecutedCommand Value → Type 0
AccountPinned h ec k x =
    (k ≡ new_cache_key "GetUserAccountCommand" (h.cookie_string the_cookie)) × (x ≡ ec)

module _ (g : GoContext) (properties : String → String → CommandProperties) (h : Platform g.Context)
    (user : UserAccount) (ec : ExecutedCommand Value)
    (replied : ec.response ≡ some (user_value user)) (no_error : ec.err ≡ none)
    (cacheable : may_cache g properties (new_get_user_account_command h the_cookie) ≡ true) where
  open g use {Context}

  abbrev T : String → Option Value → Type 0
  T = OrdersOf user

  abbrev Pins : CacheKey → ExecutedCommand Value → Type 0
  Pins = AccountPinned h ec

  abbrev the_reply : Reply Value
  the_reply = (some (user_value user), none)

  -- The account's command is answered from the cache.
  exec_user-Kept :
      (ctx : Context) (s : DemoState h)
      → Ready g properties h T Pins s
      → Returns
          (λ (reply, s'). Kept g properties h T Pins s s' × (reply ≡ the_reply))
          (the_exec g properties h ctx (new_get_user_account_command h the_cookie) s)
  unfolding new_get_user_account_command build set_cache_key set_fallback new_command
  exec_user-Kept ctx s r =
      Returns-map
        (exec_in-Replayed g properties (max_of g properties h) T (IsRunning g properties h) Pins
          (new_get_user_account_command h the_cookie) ctx s ec r found)
        (λ (reply, s') k. (k.0, k.1 ∙ ap₂ (λ v e. (v, e)) replied no_error))
    where
      found :
          stored_in g properties
            (max_of g properties h)
            T
            (IsRunning g properties h)
            Pins
            (new_get_user_account_command h the_cookie)
            s
          ≡ some ec
      found =
          stored_in_lem g properties (max_of g properties h) T (IsRunning g properties h) Pins
            (new_get_user_account_command h the_cookie) s
          ∙ rw cacheable (
              r.pinned (new_cache_key "GetUserAccountCommand" (h.cookie_string the_cookie)) ec
                (refl, refl))

  new_order-OrdersOf :
      (ctx : Context) (order_id : ℕ) (s : DemoState h)
      → Ready g properties h T Pins s
      → Returns
          (λ (x, s').
            Kept g properties h T Pins s s' × Fine T "GetOrderCommand" (some (order_value x.0)) x.1)
          (new_order h (the_exec g properties h) ctx order_id s)
  unfolding new_order order_for as_user as_order
  new_order-OrdersOf ctx order_id s r = >>=-Returns (exec_user-Kept ctx s r) (λ (reply, s') k.
      subst
        (λ (x : Reply Value).
          Returns
            (λ (y, t).
              Kept g properties h T Pins s t
              × Fine T "GetOrderCommand" (some (order_value y.0)) y.1)
            (order_for h order_id x s'))
        (sym k.1) (returns _ (k.0, λ q. (_, refl, refl))))

  module _ (on : (properties "GetOrderCommand" "GetOrderCommand").fallback_enabled ≡ true) where
    fetch_order-OrdersOf :
        (order_id : ℕ) (ctx : Context) (s : DemoState h)
        → Ready g properties h T Pins s
        → Sends g properties h T Pins "GetOrderCommand" s
            (fetch_order h (the_exec g properties h) order_id ctx s)
    unfolding fetch_order
    fetch_order-OrdersOf order_id ctx s r =
        by_draw (draw_order h s.world.platform).0 (draw_order h s.world.platform).1
      where
        by_draw :
            (b : Bool) (p : h.P)
            → Sends g properties h T Pins "GetOrderCommand" s (elim b [
              | true ↦ some ((none, some (other "Failure getting Order")), put_platform h p s)
              | false ↦ do
                ((o, e), s') ←
                    new_order h (the_exec g properties h) ctx order_id (put_platform h p s)
                some ((some (order_value o), e), s')
            ])
        by_draw true p = returns _ (put_platform-Kept g properties h T Pins s p r, λ q. cc q)
        by_draw false p =
            let k = put_platform-Kept g properties h T Pins s p r in
            >>=-Returns (new_order-OrdersOf ctx order_id (put_platform h p s) k.ready)
              (λ (x, s'') k'.
                returns _
                  (Kept-trans g properties h T Pins s (put_platform h p s) s'' k k'.0, k'.1))

    new_get_order_command-Sound :
        (order_id : ℕ)
        → Sound g properties h T Pins (new_get_order_command h (the_exec g properties h) order_id)
    unfolding new_get_order_command build new_command
    new_get_order_command-Sound order_id = record {
      fallback_on = on;
      same_max = refl;
      careful_run =
          in_goroutine-Careful g properties h T Pins "GetOrderCommand"
            (fetch_order h (the_exec g properties h) order_id) (fetch_order-OrdersOf order_id);
      careful_fallback = default-Careful g properties h T Pins "GetOrderCommand";
    }

    -- Where the request's cache holds an account, with no error, under the key of the account's
    -- command, whose responses may be cached, an order that is fetched in that request with no
    -- error is an order of that account. Fallbacks of the order's command are enabled, and orders
    -- that the cache may hold are the account's.
    pub IsOrderOf-account :
        (ctx : Context) (order_id : ℕ) (s : DemoState h)
        → Ready g properties h (OrdersOf user) (AccountPinned h ec) s
        → Returns
            (λ (reply, s'). reply.1 ≡ none → IsOrderOf user reply.0)
            (exec_in g properties ctx (new_get_order_command h (exec_in g properties) order_id) s)
    unfolding new_get_order_command build new_command
    IsOrderOf-account ctx order_id s r =
        Returns-map
          (exec_in-Replies g properties (max_of g properties h) T (IsRunning g properties h) Pins
            (new_get_order_command h (the_exec g properties h) order_id) ctx s
            (new_get_order_command-Sound order_id) r)
          (λ (reply, s') k. k.1)
