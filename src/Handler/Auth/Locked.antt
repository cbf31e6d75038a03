-- ===== src/Handler/Auth/Locked.antt =====
-- Five failed logins in a row, and a login while the account is locked.
use zzte.Strings.{trim_space}
use zzte.Config.Password.{Bcrypt}
use zzte.Handler.Response.{success, unauthorized, too_many_requests, internal_error}
use zzte.Handler.Users.{Users}
use zzte.Handler.Auth.Limits.{
  AuthState, lockout_duration, login_fail_limit, lockout_at, check_rate_limit, is_locked, fail_once,
}
use zzte.Handler.Auth.Lockout.{lockout_at-register_failure}
use zzte.Handler.Auth.{
  LoginRequest, LoginState, Claims, Context, get_client_ip, credentials, try_password, login,
}
use zzte.Prelude.{
  List, Option, Option-cases, Text, [], arith, inl, inr, int_eq, length, nat_eq, refl, some,
  text_eq, ℕ, ◌+◌, ◌<◌, ◌∷◌, ◌≡◌,
}

lockouts-check_rate_limit :
    (now : ℕ) (key : Text) (s : AuthState) → (check_rate_limit now key s).1.lockouts ≡ s.lockouts
unfolding check_rate_limit
lockouts-check_rate_limit now key s = ground arith

lockout_at-lockouts :
    (username : Text) (s t : AuthState)
    → s.lockouts ≡ t.lockouts
    → lockout_at username s ≡ lockout_at username t
lockout_at-lockouts username s t h = rw h refl

-- A login to an account that is locked.
module _ (bcrypt : Bcrypt) (sign : Claims → Option Text) (first : ℕ) (rest : Text) where
  login_while_locked :
      (c : Context) (req : LoginRequest) (users : Users) (s : LoginState)
      → trim_space req.username ≡ first ∷ rest
      → c.now < (lockout_at (first ∷ rest) s.auth).locked_until
      → ((login bcrypt sign c (some req) users s).1.status ≡ 429)
        × ((login bcrypt sign c (some req) users s).0.activity ≡ s.activity)
        × ((login bcrypt sign c (some req) users s).0.auth.lockouts ≡ s.auth.lockouts)
  unfolding login too_many_requests is_locked check_rate_limit
  login_while_locked c req users s u h =
      (ground (arith, u, h), ground (arith, u, h), ground (arith, u, h))

-- A login, with what surrounds it.
abbrev pub Attempt : Type 0
Attempt = Context × LoginRequest

module _ (bcrypt : Bcrypt) (sign : Claims → Option Text) (users : Users) where
  -- The state after logins of which the last is the first of the list.
  unfoldable pub after : List Attempt → LoginState → LoginState
  after [] s = s
  after (a ∷ earlier) s = (login bcrypt sign a.0 (some a.1) users (after earlier s)).0

  -- Each of the logins names the account, up to white space, and is refused for what it gives.
  abbrev pub AllRefused : Text → List Attempt → LoginState → Type 0
  AllRefused username [] s = Unit
  AllRefused username (a ∷ earlier) s =
      (trim_space a.1.username ≡ username)
      × ((login bcrypt sign a.0 (some a.1) users (after earlier s)).1.status ≡ 401)
      × AllRefused username earlier s

  module _ (first : ℕ) (rest : Text) where
    abbrev name : Text
    name = first ∷ rest

    lockout_at-try_password :
        (c : Context) (password : Text) (s : LoginState)
        → (try_password bcrypt sign c name password users s).1.status ≡ 401
        → lockout_at name (try_password bcrypt sign c name password users s).0.auth
          ≡ fail_once c.now (lockout_at name s.auth)
    unfolding try_password success unauthorized internal_error
    lockout_at-try_password c password s h =
        elim (Option-cases (credentials bcrypt sign name password users)) [
          | inl e ↦ rw (e, try_password) (lockout_at-register_failure first rest c.now s.auth)
          | inr (user, e) ↦ absurd (ground (arith, e, h))
        ]

    lockout_at-login :
        (a : Attempt) (s : LoginState)
        → trim_space a.1.username ≡ name
        → (login bcrypt sign a.0 (some a.1) users s).1.status ≡ 401
        → lockout_at name (login bcrypt sign a.0 (some a.1) users s).0.auth
          ≡ fail_once a.0.now (lockout_at name s.auth)
    unfolding login too_many_requests
    lockout_at-login a s n h =
        let limits = check_rate_limit a.0.now (get_client_ip a.0.origin) s.auth in
        ground (
          arith,
          n,
          h,
          lockout_at-try_password a.0 a.1.password (record s { auth = limits.1 }),
          lockout_at-lockouts name limits.1 s.auth
              (lockouts-check_rate_limit a.0.now (get_client_ip a.0.origin) s.auth),
        )

    -- Fewer than five refused logins are counted.
    failed-after :
        (earlier : List Attempt) (s : LoginState)
        → (lockout_at name s.auth).failed ≡ 0
        → length earlier < login_fail_limit
        → AllRefused name earlier s
        → (lockout_at name (after earlier s).auth).failed ≡ length earlier
    unfolding after fail_once
    failed-after [] s z h r = z
    failed-after (a ∷ earlier) s z h (n, k, r) = ground (
      arith,
      lockout_at-login a (after earlier s) n k,
      failed-after earlier s z (omega (arith, h)) r,
    )

    -- After five logins in a row that name an account, up to white space, and are answered 401,
    -- for an account with a non-empty name and no failure on record at the start, any login to it
    -- within five minutes of the fifth is answered 429, whatever its password and whatever the
    -- accounts are by then, and neither counts a failure nor writes to the audit log.
    pub login-after_failures :
        (last : Attempt) (earlier : List Attempt) (c : Context) (req : LoginRequest)
        (users' : Users) (s : LoginState)
        → (lockout_at name s.auth).failed ≡ 0
        → length earlier + 1 ≡ login_fail_limit
        → AllRefused name (last ∷ earlier) s
        → trim_space req.username ≡ name
        → c.now < last.0.now + lockout_duration
        → ((login bcrypt sign c (some req) users' (after (last ∷ earlier) s)).1.status ≡ 429)
          × ((login bcrypt sign c (some req) users' (after (last ∷ earlier) s)).0.activity
              ≡ (after (last ∷ earlier) s).activity)
          × ((login bcrypt sign c (some req) users' (after (last ∷ earlier) s)).0.auth.lockouts
              ≡ (after (last ∷ earlier) s).auth.lockouts)
    unfolding after fail_once
    login-after_failures last earlier c req users' s z five (n, k, r) u soon =
        login_while_locked bcrypt sign first rest c req users' (after (last ∷ earlier) s) u (
          ground (
            arith,
            soon,
            five,
            lockout_at-login last (after earlier s) n k,
            failed-after earlier s z (omega (arith, five)) r,
          ))
