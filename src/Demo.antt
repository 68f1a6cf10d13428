-- ===== src/Demo.antt =====
-- examples/: a request that four commands answer, two of which call the executor themselves. What they
-- use of the standard library is a parameter, `Platform`, with a state of its own, `P`.
pub mod Accounts
pub mod Payments
pub mod Orders
pub mod CreditCards
pub mod Requests
pub mod Reports
pub mod Conduct
pub mod Soundness
pub mod Typing
pub mod Serving
pub mod Configured
pub mod Consistency
use Prim.Native.String.{String}
use cuirass.Prelude.{ℕ, ◌+◌, ◌*◌, Bool, true, false, Option, none, some, if◌then◌else◌}
use cuirass.Util.Clock.{Clock}
use cuirass.Util.Errors.{GoError, text_value, Call, returned, panicked}
use cuirass.Num.BucketSize.{millisecond}
use cuirass.Command.{CommandFunc, Command}
use cuirass.Executor.{State, Reply}

pub record UserAccount : Type 0 where
  pub id : ℕ
  pub name : String
  pub account_type : ℕ

pub record Expiration : Type 0 where
  pub month : ℕ
  pub year : ℕ

pub record PaymentInformation : Type 0 where
  pub user_account : UserAccount
  pub credit_card_number : String
  pub expiration : Expiration

pub record Order : Type 0 where
  pub order_id : ℕ
  pub user : UserAccount

pub record CreditCardAuthorizationResult : Type 0 where
  pub success : Bool
  pub authorization_code : String
  pub transaction_id : String
  pub error_message : String

-- What an interface{} of the commands holds, by its dynamic type. Only the pointer to an order may be
-- nil.
pub data Value : Type 0 where
  user_value : UserAccount → Value
  payment_value : PaymentInformation → Value
  order_value : Option Order → Value
  authorization_value : CreditCardAuthorizationResult → Value

-- net/http's Cookie.
pub record Cookie : Type 0 where
  pub name : String
  pub value : String

-- math/rand, time.Sleep, the choice that a `select` makes when the context may be done, `Err` of a
-- context that is, `String` of a cookie, strconv.Itoa, and math/big's Rat. `above x n` is `x > n / 10000`, `below` the
-- same with `<`.
pub record Platform (C : Type 0) : Type 1 where
  pub P : Type 0
  pub Float : Type 0
  pub intn : ℕ → P → ℕ × P
  pub float64 : P → Float × P
  pub above : Float → ℕ → Bool
  pub below : Float → ℕ → Bool
  pub sleep : ℕ → P → P
  pub is_done : C → P → Bool × P
  pub err : C → P → GoError
  pub cookie_string : Cookie → String
  pub itoa : ℕ → String
  pub Rat : Type 0
  pub set_string : String → Rat

-- The process, and whether a panic that nobody recovers has ended it. Behind that, what the model
-- says is of no process any more.
pub record Process (P : Type 0) : Type 0 where
  pub platform : P
  pub crashed : Bool

-- The part of the executor's interface that the commands use: `Exec`. `none` is a panic.
abbrev pub Exec : Type 0 → Type 0 → Type 0
Exec C P =
    C
    → Command C Value (State Value (Process P))
    → State Value (Process P)
    → Option (Reply Value × State Value (Process P))

-- The assertions `.(*UserAccount)`, `.(*PaymentInformation)` and `.(*Order)`, whose `none` is a panic.
unfoldable pub as_user : Option Value → Option UserAccount
as_user (some (user_value u)) = some u
as_user _ = none

unfoldable pub as_payment : Option Value → Option PaymentInformation
as_payment (some (payment_value p)) = some p
as_payment _ = none

unfoldable pub as_order : Option Value → Option (Option Order)
as_order (some (order_value o)) = some o
as_order _ = none

module _ {C : Type 0} (h : Platform C) where
  open h use {P, intn, float64, above, below, sleep, is_done, err}

  abbrev pub DemoState : Type 0
  DemoState = State Value (Process P)

  abbrev pub put_platform : P → DemoState → DemoState
  put_platform p s = record s { world = record s.world { platform = p } }

  abbrev pub crash : DemoState → DemoState
  crash s = record s { world = record s.world { crashed = true } }

  -- `time.Sleep(time.Duration(rand.Intn(n)+k) * time.Millisecond)`.
  unfoldable pub pause : ℕ → ℕ → P → P
  pause n k p = let (x, p') = intn n p in sleep ((x + k) * millisecond) p'

  -- `rand.Float64() > n / 10000`, and the same with `<`.
  unfoldable pub draw_above : ℕ → P → Bool × P
  draw_above n p = let (x, p') = float64 p in (above x n, p')

  unfoldable pub draw_below : ℕ → P → Bool × P
  draw_below n p = let (x, p') = float64 p in (below x n, p')

  -- How the function of a command ends when its goroutine has: by the `select`. The goroutine runs to
  -- its end before it, also where the context is done and nobody waits for it.
  unfoldable pub select :
      C → Option (Reply Value × DemoState) → DemoState → Call (Reply Value) × DemoState × Clock
  select ctx (some (reply, s')) s =
      let (done, p) = is_done ctx s'.world.platform in
      let s'' = put_platform p s' in
      (if done then returned (none, some (err ctx p)) else returned reply, s'', s''.clock)
  select ctx none s = (panicked (text_value "exit status 2"), crash s, s.clock)

  -- The function of a command, by what it does in its goroutine: the result that it sends, with the
  -- variable `r` as it leaves it, or a panic, which nobody recovers there.
  unfoldable pub in_goroutine :
      (C → DemoState → Option (Reply Value × DemoState)) → CommandFunc C Value DemoState
  in_goroutine body ctx c s = select ctx (body ctx s) s

  -- A goroutine that draws and sleeps alone.
  abbrev pub on_platform : (P → Reply Value × P) → C → DemoState → Option (Reply Value × DemoState)
  on_platform f ctx s = let (reply, p) = f s.world.platform in some (reply, put_platform p s)
