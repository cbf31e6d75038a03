-- ===== src/Examples/Auth.antt =====
-- Logins, locks, limits, and the middleware.
use zzte.Strings.{to_lower, trim_space, has_prefix, strip_prefix, split}
use zzte.Config.Password.{UserAccount, is_password_hashed, hash_password, check_password}
use zzte.Handler.Response.{Response, success, message_response}
use zzte.Handler.Auth.Limits.{
  check_rate_limit, is_locked, lockout_at, rate_at, reset_failures, lockout_duration,
}
use zzte.Handler.Auth.Rate.{attempts, attempts-window}
use zzte.Handler.Auth.Lockout.{failures, five_failures}
use zzte.Handler.Auth.Login.{login_sound}
use zzte.Handler.Auth.Locked.{Attempt, after, AllRefused, login-after_failures}
use zzte.Handler.Auth.Limits.{register_failure, fail_once}
use zzte.Handler.Response.{unauthorized}
use zzte.Handler.Auth.Access.{require_roles-auth_middleware, change_password_sound}
use zzte.Handler.Auth.{
  AccountState, Claims, Context, LoginReply, LoginRequest, LoginState, auth_middleware,
  bearer_token, change_password, credentials, get_client_ip, login, require_roles, try_password,
}
use zzte.Examples.Data.{marked, two_users, no_entries, no_attempts, request_of}
use zzte.Prelude.{
  List, Option, Text, [], any, arith, codes, false, if◌then◌else◌, inl, insert, int_eq, length,
  lookup, ltb, min, nat_eq, none, refl, some, text_eq, true, ℕ, ◌++◌, ◌+◌, ◌=ᵗ◌, ◌∷◌, ◌≡◌, ◌≢◌,
}

abbrev sign_name : Claims → Option Text
sign_name claims = some (codes "token-" ++ claims.username)

abbrev fresh : LoginState
fresh = record { auth = no_attempts; activity = no_entries }

abbrev admin_login : LoginRequest
admin_login = record { username = codes " admin"; password = codes "secret" }

abbrev admin_reply : LoginReply
admin_reply = record {
  token = codes "token-admin";
  username = codes "admin";
  role = codes "superadmin";
}

admin_login-success :
    (login marked sign_name (request_of none) (some admin_login) two_users fresh).1
    ≡ success admin_reply
unfolding login try_password credentials check_password is_password_hashed has_prefix trim_space
    lookup check_rate_limit get_client_ip is_locked split reset_failures success ◌=ᵗ◌
admin_login-success = refl

login_sound_example :
    let limits = check_rate_limit 1000 (get_client_ip (request_of none).origin) no_attempts in
    (limits.0.0 ≡ false)
    × ((is_locked 1000 (trim_space (codes " admin")) limits.1).0 ≡ false)
    × (codes "admin" ≡ trim_space (codes " admin"))
    × ((user : UserAccount) × (lookup (trim_space (codes " admin")) two_users ≡ some user)
        × (check_password marked (codes "secret") user.password ≡ true))
login_sound_example =
    login_sound marked sign_name (request_of none) admin_login two_users fresh admin_reply
      admin_login-success

no_failures : (lockout_at (codes "admin") no_attempts).failed ≡ 0
unfolding lookup
no_failures = refl

-- five guesses, the last first, and then the right password
abbrev guess_at : ℕ → Attempt
guess_at now = (
  record (request_of none) { now = now },
  record { username = codes "admin "; password = codes "guess" },
)

abbrev earlier_guesses : List Attempt
earlier_guesses = guess_at 1004 ∷ guess_at 1003 ∷ guess_at 1002 ∷ guess_at 1001 ∷ []

guesses-AllRefused :
    AllRefused marked sign_name two_users (codes "admin") (guess_at 1005 ∷ earlier_guesses) fresh
unfolding after login try_password credentials check_password is_password_hashed has_prefix
    trim_space lookup check_rate_limit get_client_ip is_locked split unauthorized register_failure
    insert fail_once ◌=ᵗ◌
guesses-AllRefused = (refl, refl, (refl, refl, (refl, refl, (refl, refl, (refl, refl, tt)))))

admin-trimmed : trim_space (codes " admin") ≡ codes "admin"
unfolding trim_space
admin-trimmed = refl

login-after_failures_example :
    let s = after marked sign_name two_users (guess_at 1005 ∷ earlier_guesses) fresh in
    let r =
      login marked sign_name
        (record (request_of none) { now = 2000 })
        (some admin_login)
        two_users
        s in
    (r.1.status ≡ 429) × (r.0.activity ≡ s.activity) × (r.0.auth.lockouts ≡ s.auth.lockouts)
login-after_failures_example =
    login-after_failures marked sign_name two_users (b'a') (codes "dmin") (guess_at 1005)
      earlier_guesses (record (request_of none) { now = 2000 }) admin_login two_users fresh
      no_failures (omega arith) guesses-AllRefused admin-trimmed (omega arith)

five_failures_example :
    (is_locked 300000000004
      (codes "admin")
      (failures (codes "admin") (1 ∷ 2 ∷ 3 ∷ 4 ∷ 5 ∷ []) no_attempts)).0
    ≡ ltb 300000000004 (5 + lockout_duration)
five_failures_example =
    five_failures (b'a') (codes "dmin") (1 ∷ 2 ∷ 3 ∷ 4 ∷ []) 5 300000000004 no_attempts no_failures
      (omega arith)

closed_window : (rate_at (codes "10.0.0.7") no_attempts).window_start ≡ 0
unfolding lookup
closed_window = refl

abbrev times : List ℕ
times = 1000 ∷ 2000 ∷ 3000 ∷ []

attempts_example : (attempts (codes "10.0.0.7") times no_attempts).0 ≡ min (length times) 20
attempts_example =
    attempts-window (codes "10.0.0.7") 1000 (2000 ∷ 3000 ∷ []) no_attempts (inl closed_window)
      (omega arith) (omega arith, (omega arith, tt))

abbrev verify_one : Text → Option Claims
verify_one token =
    if token =ᵗ codes "good"
    then some (record { username = codes "admin"; role = codes "SuperAdmin"; expires_at = 9 })
    else none

abbrev good_header : Text
good_header = codes "Bearer good"

abbrev answer : Response ℕ
answer = record { status = 200; success = true; body = some 7; error = ""; message = "" }

good_header-success :
    (auth_middleware verify_one
      (λ user. require_roles (codes "superadmin" ∷ []) answer (some user))
      good_header).success
    ≡ true
unfolding auth_middleware require_roles bearer_token strip_prefix to_lower ◌=ᵗ◌
good_header-success = refl

require_roles_example :
    (good_header ≢ [])
    × (auth_middleware verify_one
          (λ user. require_roles (codes "superadmin" ∷ []) answer (some user))
          good_header
        ≡ answer)
    × ((claims : Claims) × (verify_one (bearer_token good_header) ≡ some claims)
        × (any (λ role. to_lower role =ᵗ to_lower claims.role) (codes "superadmin" ∷ []) ≡ true))
require_roles_example =
    require_roles-auth_middleware verify_one (codes "superadmin" ∷ []) answer good_header
      good_header-success

abbrev accounts : AccountState
accounts = record { users = two_users; activity = no_entries }

abbrev as_admin : Context
as_admin = request_of (some (codes "admin", codes "superadmin"))

change_password-success :
    (change_password marked true as_admin
      (some (record { old_password = codes "secret"; new_password = codes "new" }))
      accounts).1.success
    ≡ true
unfolding change_password check_password is_password_hashed has_prefix hash_password trim_space
    lookup message_response ◌=ᵗ◌
change_password-success = refl

change_password_example :
    (user : UserAccount) × (hash : Text) × (lookup (codes "admin") two_users ≡ some user)
    × (check_password marked (codes "secret") user.password ≡ true)
    × (marked.generate (trim_space (codes "new")) ≡ some hash)
    × ((change_password marked true as_admin
          (some (record { old_password = codes "secret"; new_password = codes "new" }))
          accounts).0.users
        ≡ insert (codes "admin") (record { password = hash; role = user.role }) two_users)
change_password_example =
    change_password_sound marked true as_admin
      (record { old_password = codes "secret"; new_password = codes "new" }) accounts
      (codes "admin") (codes "superadmin") refl change_password-success
