-- ===== src/Handler/Auth/Login.antt =====
-- What a login may do, on every branch.
use zzte.Strings.{trim_space}
use zzte.Config.Password.{UserAccount, Bcrypt, check_password}
use zzte.Handler.Response.{success, unauthorized, too_many_requests, internal_error}
use zzte.Handler.Users.{Users}
use zzte.Handler.Auth.Limits.{check_rate_limit, is_locked}
use zzte.Handler.Auth.{
  LoginRequest, LoginReply, LoginState, Claims, Context, get_client_ip, credentials, try_password,
  login,
}
use zzte.Prelude.{Option, Text, arith, false, int_eq, lookup, nat_eq, some, text_eq, true, ◌≡◌}

module _ (bcrypt : Bcrypt) (sign : Claims → Option Text) where
  -- A login that answers with success was let through by the rate limit and by the lock, answers
  -- with the trimmed name of the request, which an account has, and gave the password of that
  -- account.
  pub login_sound :
      (c : Context) (req : LoginRequest) (users : Users) (s : LoginState) (reply : LoginReply)
      → (login bcrypt sign c (some req) users s).1 ≡ success reply
      → let username = trim_space req.username in
        let limits = check_rate_limit c.now (get_client_ip c.origin) s.auth in
        (limits.0.0 ≡ false)
        × ((is_locked c.now username limits.1).0 ≡ false)
        × (reply.username ≡ username)
        × ((user : UserAccount) × (lookup username users ≡ some user)
            × (check_password bcrypt req.password user.password ≡ true))
  unfolding login try_password credentials success too_many_requests unauthorized internal_error
  login_sound c req users s reply h = ground arith
