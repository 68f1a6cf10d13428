-- ===== src/Demo/Accounts.antt =====
-- examples/commands/getuseraccountcommand.go.
use Prim.Native.String.{String}
use cuirass.Prelude.{ℕ, none, some, if◌then◌else◌}
use cuirass.Util.Errors.{other, returned}
use cuirass.Command.{CommandFunc, Command, new_command, set_fallback, set_cache_key, build}
use cuirass.Executor.{Reply}
use cuirass.Demo.{
  UserAccount, Value, user_value, Cookie, Platform, DemoState, pause, draw_above, in_goroutine,
  on_platform,
}

abbrev pub new_user_account : ℕ → String → ℕ → UserAccount
new_user_account id name account_type = record { id = id; name = name; account_type = account_type }

pub record UserCookie : Type 0 where
  pub id : ℕ
  pub name : String
  pub account_type : ℕ

unfoldable pub from_http_cookie : Cookie → UserCookie
from_http_cookie cookie = record { id = 9999; name = "Jane Doe"; account_type = 0 }

module _ {C : Type 0} (h : Platform C) where
  open h use {P, cookie_string}

  -- What the command does in its goroutine.
  unfoldable pub fetch_user : P → Reply Value × P
  fetch_user p =
      let p1 = pause h 10 2 p in
      let (fails, p2) = draw_above h 9500 p1 in
      let (slow, p3) = draw_above h 9500 p2 in
      let p4 = if slow then pause h 300 25 p3 else p3 in
      if fails
      then ((none, some (other "Failure getting UserAccount")), p2)
      else ((some (user_value (new_user_account 1234 "John Doe" 5)), none), p4)

  unfoldable pub user_fallback : UserCookie → CommandFunc C Value (DemoState h)
  user_fallback cookie ctx c s = (
    returned (some (user_value (new_user_account cookie.id cookie.name cookie.account_type)), none),
    s,
    c,
  )

  unfoldable pub new_get_user_account_command : Cookie → Command C Value (DemoState h)
  unfolding build set_cache_key set_fallback new_command
  new_get_user_account_command cookie = build (
      set_cache_key (cookie_string cookie) (
        set_fallback (user_fallback (from_http_cookie cookie))
          (new_command "GetUserAccountCommand" (in_goroutine h (on_platform h fetch_user)))))

-- The cookie of every call that the examples make.
abbrev pub the_cookie : Cookie
the_cookie = record { name = "name"; value = "value" }
