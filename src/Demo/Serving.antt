-- ===== src/Demo/Serving.antt =====
-- examples/main.go: that the server answers each request.
use Prim.Native.String.{String, ◌++◌ as ◌<>◌}
use cuirass.Prelude.{
  suc, ◌+◌, ◌<◌, ◌≡◌, ◌≢◌, refl, ap, ◌∙◌, true, false, Option, none, some, List, [], ◌∷◌, length,
}
use cuirass.Prelude.Maps.{string_eq, lookup}
use cuirass.Util.Clock.{Clock}
use cuirass.Properties.{PropertyFactory}
use cuirass.Metrics.{new_metrics_properties}
use cuirass.Prelude.Options.{◌>>=◌, Returns, returns, >>=-Returns, Returns-map}
use cuirass.Util.Errors.{GoError}
use cuirass.RequestLog.{RequestLog, log_string}
use cuirass.RequestLog.Order.{log_string_total}
use cuirass.Command.{GoContext, CommandProperties, new_command, set_fallback, set_cache_key, build}
use cuirass.Executor.{Reply, new_executor_with_clock}
use cuirass.Executor.Nested.Keeping.{Fine, held_of}
use cuirass.Executor.Nested.Execs.{exec_in-Replies}
use cuirass.Demo.{PaymentInformation, Order, Value, Platform, DemoState, put_platform}
use cuirass.Demo.Accounts.{new_get_user_account_command, the_cookie}
use cuirass.Demo.Payments.{new_get_payment_information_command}
use cuirass.Demo.Orders.{new_get_order_command}
use cuirass.Demo.CreditCards.{new_credit_card_command}
use cuirass.Demo.Requests.{
  pay, with_order, with_payment, with_user, simulate_request, written, handle_payment, serve_all,
}
use cuirass.Demo.Conduct.{
  NoPins, IsPayment, Typed, max_of, IsRunning, Ready, new_executor_with_clock-Ready, Kept, the_exec,
  put_platform-Kept, Kept-trans,
}
use cuirass.Demo.Soundness.{
  new_get_user_account_command-Sound, new_get_payment_information_command-Sound,
  new_get_order_command-Sound, new_credit_card_command-Sound,
}

module _ (g : GoContext) (properties : String → String → CommandProperties) (h : Platform g.Context)
    (on : (name : String) → (properties name name).fallback_enabled ≡ true) where
  open g use {Context}

  -- A step that ends, with an error to print or none.
  abbrev Ended : DemoState h → Option (Option GoError × DemoState h) → Type 0
  Ended s o = Returns (λ (e, s'). Kept g properties h Typed NoPins s s') o

  Ended-after :
      (s t : DemoState h) {o : Option (Option GoError × DemoState h)}
      → Kept g properties h Typed NoPins s t
      → Ended t o
      → Ended s o
  Ended-after s t k e =
      Returns-map e (λ (x, u) k'. Kept-trans g properties h Typed NoPins s t u k k')

  stops :
      (s : DemoState h) (e : Option GoError)
      → Ready g properties h Typed NoPins s
      → Ended s (some (e, s))
  stops s e r = returns _ (put_platform-Kept g properties h Typed NoPins s s.world.platform r)

  pay-Ended :
      (ctx : Context) (order : Option Order) (payment : PaymentInformation) (s : DemoState h)
      → Ready g properties h Typed NoPins s
      → Ended s (pay h (the_exec g properties h) ctx order payment s)
  unfolding pay
  pay-Ended ctx order payment s r =
      let cmd =
        new_credit_card_command h (the_exec g properties h) order payment (h.set_string "123.45") in
      >>=-Returns
        (exec_in-Replies g properties (max_of g properties h) Typed (IsRunning g properties h)
          NoPins cmd ctx s
          (new_credit_card_command-Sound g properties h on order payment (h.set_string "123.45")) r)
        (λ (reply, s') k. returns _ k.0)

  with_order-Ended :
      (ctx : Context) (payment : Option Value) (reply : Reply Value) (s : DemoState h)
      → Ready g properties h Typed NoPins s
      → IsPayment payment
      → Fine Typed "GetOrderCommand" reply.0 reply.1
      → Ended s (with_order h (the_exec g properties h) ctx payment reply s)
  unfolding with_order
  with_order-Ended ctx payment (v, some e) s r is fine = stops s (some e) r
  with_order-Ended ctx payment (v, none) s r is fine =
      rw ((fine refl).1, is.1) (pay-Ended ctx _ is.0 s r)

  with_payment-Ended :
      (ctx : Context) (reply : Reply Value) (s : DemoState h)
      → Ready g properties h Typed NoPins s
      → Fine Typed "GetPaymentInformationCommand" reply.0 reply.1
      → Ended s (with_payment h (the_exec g properties h) ctx reply s)
  unfolding with_payment new_get_order_command build new_command
  with_payment-Ended ctx (v, some e) s r fine = stops s (some e) r
  with_payment-Ended ctx (v, none) s r fine =
      let (n, p) = h.intn 20000 s.world.platform in
      let k = put_platform-Kept g properties h Typed NoPins s p r in
      >>=-Returns
        (exec_in-Replies g properties (max_of g properties h) Typed (IsRunning g properties h)
          NoPins (new_get_order_command h (the_exec g properties h) (n + 9100)) ctx
          (put_platform h p s) (new_get_order_command-Sound g properties h on (n + 9100)) k.ready)
        (λ (reply, s') k'.
          Ended-after s s' (Kept-trans g properties h Typed NoPins s (put_platform h p s) s' k k'.0)
            (with_order-Ended ctx v reply s' k'.0.ready (fine refl) k'.1))

  with_user-Ended :
      (ctx : Context) (reply : Reply Value) (s : DemoState h)
      → Ready g properties h Typed NoPins s
      → Fine Typed "GetUserAccountCommand" reply.0 reply.1
      → Ended s (with_user h (the_exec g properties h) ctx reply s)
  unfolding with_user new_get_payment_information_command build new_command
  with_user-Ended ctx (v, some e) s r fine = stops s (some e) r
  with_user-Ended ctx (v, none) s r fine = rw (fine refl).1 (
      >>=-Returns
        (exec_in-Replies g properties (max_of g properties h) Typed (IsRunning g properties h)
          NoPins (new_get_payment_information_command h (fine refl).0) ctx s
          (new_get_payment_information_command-Sound g properties h on (fine refl).0) r)
        (λ (reply, s') k. Ended-after s s' k.0 (with_payment-Ended ctx reply s' k.0.ready k.1)))

  pub simulate_request-Ended :
      (ctx : Context) (s : DemoState h)
      → Ready g properties h Typed NoPins s
      → Ended s (simulate_request h (the_exec g properties h) ctx s)
  unfolding simulate_request new_get_user_account_command build set_cache_key set_fallback
      new_command
  simulate_request-Ended ctx s r =
      >>=-Returns
        (exec_in-Replies g properties (max_of g properties h) Typed (IsRunning g properties h)
          NoPins (new_get_user_account_command h the_cookie) ctx s
          (new_get_user_account_command-Sound g properties h on the_cookie) r)
        (λ (reply, s') k. Ended-after s s' k.0 (with_user-Ended ctx reply s' k.0.ready k.1))

  -- What a request leaves: a state from which the next is answered, with as many permits held.
  abbrev pub Serves : DemoState h → DemoState h → Type 0
  Serves s s' =
      Ready g properties h Typed NoPins s'
      × ((k : String) → held_of k s'.semaphores ≡ held_of k s.semaphores)

  fresh-Ready :
      (s : DemoState h)
      → Ready g properties h Typed NoPins s
      → Ready g properties h Typed NoPins
          (record s { request_cache = some []; request_log = some [] })
  unfolding lookup
  fresh-Ready s r = record {
    metrics_valid = r.metrics_valid;
    fits = r.fits;
    world_good = r.world_good;
    pinned = λ k ec p. absurd p;
    cached_fine = λ k ec e. cc e;
  }

  -- There is something to write where there is a log.
  written-Returns : (s : DemoState h) → s.request_log ≢ none → Returns (λ x. Unit {0}) (written h s)
  unfolding written
  written-Returns s some_log = by_log s.request_log some_log
    where
      by_log :
          (o : Option RequestLog)
          → o ≢ none
          → Returns
              (λ x. Unit {0})
              (do log ← o; text ← log_string h.itoa log; some ("Request => " <> (text <> "\n")))
      by_log none n = absurd (n refl)
      by_log (some log) n = rw (log_string_total h.itoa log).1 (returns _ tt)

  -- From a ready state, each request for a payment is answered: no panic ends the process or leaves a
  -- call, every permit is given back, and the state stays ready.
  pub handle_payment-Returns :
      (ctx : Context) (s : DemoState h)
      → Ready g properties h Typed NoPins s
      → Returns (λ (text, s'). Serves s s') (handle_payment h (the_exec g properties h) ctx s)
  unfolding handle_payment
  handle_payment-Returns ctx s r =
      >>=-Returns (simulate_request-Ended ctx _ (fresh-Ready s r)) (λ (e, s') k.
        >>=-Returns (written-Returns s' (k.log_stays (λ q. cc q)))
          (λ text u. returns _ (k.ready, k.same_held)))

  serve_all-Returns :
      (ctxs : List Context) (s : DemoState h)
      → Ready g properties h Typed NoPins s
      → Returns
          (λ (texts, s'). (length texts ≡ length ctxs) × Serves s s')
          (serve_all h (the_exec g properties h) ctxs s)
  unfolding serve_all
  serve_all-Returns [] s r = returns _ (refl, (r, λ k. refl))
  serve_all-Returns (ctx ∷ ctxs) s r =
      >>=-Returns (handle_payment-Returns ctx s r) (λ (text, s') (r', same).
        >>=-Returns (serve_all-Returns ctxs s' r')
          (λ (texts, s'') (n, (r'', same')). returns _ (ap suc n, (r'', λ k. same' k ∙ same k))))

  -- The demonstration's server, on a new executor whose percentile buckets have room, and with the
  -- fallbacks enabled, answers any requests one after the other, whatever is drawn and whichever
  -- contexts are done: a text is written for each, no panic ends the process or leaves a call of
  -- `Exec`, also of a nested one, and after them no permit is held.
  pub serve_all-new :
      (cfg : PropertyFactory) (clock wall : Clock) (p : h.P) (ctxs : List Context)
      → 0 < (new_metrics_properties cfg).rolling_percentile_bucket_size
      → Returns
          (λ (texts, s').
            (length texts ≡ length ctxs)
            × (s'.world.crashed ≡ false)
            × ((k : String) → held_of k s'.semaphores ≡ 0))
          (serve_all h (the_exec g properties h) ctxs (
            new_executor_with_clock cfg clock wall none none
              (record { platform = p; crashed = false })))
  unfolding new_executor_with_clock lookup
  serve_all-new cfg clock wall p ctxs pos =
      Returns-map
        (serve_all-Returns ctxs
          (new_executor_with_clock cfg clock wall none none
            (record { platform = p; crashed = false }))
          (new_executor_with_clock-Ready g properties h cfg clock wall p pos))
        (λ (texts, s') (n, (r, same)). (n, r.world_good, same))
