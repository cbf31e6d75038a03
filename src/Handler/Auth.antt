-- ===== src/Handler/Auth.antt =====
-- internal/handler/auth_handler.go. Instants are nanoseconds, and 0 is Go's zero time. `now` is
-- what `time.Now` returns. The JWT library and bcrypt are parameters.
pub mod Limits
pub mod Rate
pub mod Lockout
pub mod Locked
pub mod Login
pub mod Access
use zzte.Strings.{trim_space, is_empty, split, to_lower, strip_prefix}
use zzte.Domain.{ok, err}
use zzte.Config.Password.{UserAccount, Bcrypt, check_password, hash_password}
use zzte.Handler.Response.{
  Response, success, bad_request, unauthorized, forbidden, too_many_requests, internal_error,
  message_response,
}
use zzte.Domain.{error_text}
use zzte.Handler.Users.{Users}
use zzte.Service.Activity.{ActivityService, Request, log_activity}
use zzte.Handler.Auth.Limits.{
  AuthState, check_rate_limit, is_locked, register_failure, reset_failures,
}
use zzte.Prelude.{
  Bool, List, Map, Option, Text, [], any, arith, codes, if◌then◌else◌, insert, int_eq, lookup,
  nat_eq, none, not, some, text_eq, ℕ, ◌*◌, ◌+◌, ◌=ᵗ◌, ◌||◌, ◌∷◌,
}

pub record LoginRequest : Type 0 where
  pub username : Text
  pub password : Text

pub record ChangePasswordRequest : Type 0 where
  pub old_password : Text
  pub new_password : Text

pub record Claims : Type 0 where
  pub username : Text
  pub role : Text
  pub expires_at : ℕ

pub record LoginReply : Type 0 where
  pub token : Text
  pub username : Text
  pub role : Text

abbrev pub token_lifetime : ℕ
token_lifetime = 24 * 3600 * 1000000000

-- What a login reads and writes: the limits, and the audit log.
pub record LoginState : Type 0 where
  pub auth : AuthState
  pub activity : ActivityService

-- the headers that `getClientIP` reads (empty where absent), and the host of `RemoteAddr`
pub record Origin : Type 0 where
  pub forwarded_for : Text
  pub real_ip : Text
  pub remote_host : Text

abbrev first_part : List Text → Text
first_part [] = []
first_part (p ∷ ps) = p

-- `getClientIP`
unfoldable pub get_client_ip : Origin → Text
get_client_ip o =
    if not (is_empty o.forwarded_for)
    then trim_space (first_part (split b',' o.forwarded_for))
    else if not (is_empty o.real_ip)
    then o.real_ip
    else o.remote_host

-- What surrounds one request: the clock, whether Redis takes the audit entry, and where the request
-- comes from.
pub record Context : Type 0 where
  pub now : ℕ
  pub redis_reachable : Bool
  pub request : Request
  pub origin : Origin

abbrev pub audit : Context → Text → Text → Map Text Text → ActivityService → ActivityService
audit c action target detail = log_activity c.redis_reachable c.now c.request action target detail

abbrev ip_detail : Context → Map Text Text
ip_detail c = (codes "ip", get_client_ip c.origin) ∷ []

-- the role of the token
abbrev role_or_technician : Text → Text
role_or_technician role = if is_empty role then codes "technician" else role

module _ (bcrypt : Bcrypt) (sign : Claims → Option Text) where
  -- the look-up of the account and the test of its password
  unfoldable pub credentials : Text → Text → Users → Option UserAccount
  credentials username password users = elim (lookup username users) [
    | none ↦ none
    | some user ↦ if check_password bcrypt password user.password then some user else none
  ]

  -- `Login` behind the rate limit and the lock
  unfoldable pub try_password :
      Context → Text → Text → Users → LoginState → LoginState × Response LoginReply
  try_password c username password users s = elim (credentials username password users) [
    | none ↦ (
      record s {
        auth = register_failure c.now username s.auth;
        activity = audit c (codes "auth.login_failed") username (ip_detail c) s.activity;
      },
      unauthorized "Invalid credentials",
    )
    | some user ↦
        (let auth' = reset_failures username s.auth in
          let role = role_or_technician user.role in
          let claims : Claims = record {
            username = username;
            role = role;
            expires_at = c.now + token_lifetime;
          } in
          elim (sign claims) [
            | none ↦ (record s { auth = auth' }, internal_error "Failed to generate token")
            | some token ↦ (
              record s {
                auth = auth';
                activity = audit c (codes "auth.login") username (ip_detail c) s.activity;
              },
              success (record { token = token; username = username; role = role }),
            )
          ])
  ]

  -- `Login` behind the decoding of its body
  unfoldable pub login_account :
      Context → LoginRequest → Users → LoginState → LoginState × Response LoginReply
  login_account c req users s =
      let username = trim_space req.username in
      let ((limited, retry), auth') = check_rate_limit c.now (get_client_ip c.origin) s.auth in
      let s' = record s { auth = auth' } in
      if limited
      then (s', too_many_requests "Too many login attempts. Try again later.")
      else if (is_locked c.now username auth').0
      then (s', too_many_requests "Account temporarily locked. Try again in 5 minutes.")
      else try_password c username req.password users s'

  -- `Login`
  unfoldable pub login :
      Context → Option LoginRequest → Users → LoginState → LoginState × Response LoginReply
  unfolding login_account
  login c none users s = (s, bad_request "Invalid request payload")
  login c (some req) users s = login_account c req users s

-- What `ChangePassword` reads and writes.
pub record AccountState : Type 0 where
  pub users : Users
  pub activity : ActivityService

module _ (bcrypt : Bcrypt) (saved : Bool) where
  -- `ChangePassword` for the user of the request, behind the decoding of its body
  unfoldable pub change_own_password :
      Context → Text → ChangePasswordRequest → AccountState → AccountState × Response (Unit {0})
  change_own_password c username req s =
      if is_empty (trim_space req.old_password) || is_empty (trim_space req.new_password)
      then (s, bad_request "Old and new password are required")
      else elim (lookup username s.users) [
        | none ↦ (s, unauthorized "Invalid old password")
        | some user ↦
            if not (check_password bcrypt req.old_password user.password)
            then (s, unauthorized "Invalid old password")
            else elim (hash_password bcrypt req.new_password) [
              | err e ↦ (s, bad_request (error_text e))
              | ok hashed ↦
                  (let users' = insert username (record user { password = hashed }) s.users in
                    if saved
                    then (
                      record {
                        users = users';
                        activity = audit c (codes "auth.password_changed") username [] s.activity;
                      },
                      message_response "Password changed successfully",
                    )
                    else (
                      record s { users = users' },
                      internal_error "Failed to save configuration",
                    ))
            ]
      ]

  -- `ChangePassword`
  unfoldable pub change_password :
      Context → Option ChangePasswordRequest → AccountState → AccountState × Response (Unit {0})
  unfolding change_own_password
  change_password c body s = elim c.request.user [
    | none ↦ (s, unauthorized "Missing authenticated user")
    | some user ↦
        if is_empty user.0 then (s, unauthorized "Missing authenticated user") else elim body [
          | none ↦ (s, bad_request "Invalid request payload")
          | some req ↦ change_own_password c user.0 req s
        ]
  ]

-- The token of the header `Authorization`: a value longer than seven bytes loses "Bearer ".
unfoldable pub bearer_token : Text → Text
bearer_token header = elim (strip_prefix (codes "Bearer ") header) [
  | none ↦ header
  | some rest ↦ if is_empty rest then header else rest
]

-- `AuthMiddleware`: the response of the next handler, which gets the user of the token. `verify` is
-- `jwt.ParseWithClaims` with the program's key; `none` is an error or an invalid token.
unfoldable pub auth_middleware :
    {A : Type 0} → (Text → Option Claims) → (Text × Text → Response A) → Text → Response A
auth_middleware verify next header =
    if is_empty header
    then unauthorized "Missing authorization header"
    else elim (verify (bearer_token header)) [
      | none ↦ unauthorized "Invalid token"
      | some claims ↦ next (claims.username, to_lower claims.role)
    ]

-- `RequireRoles`
unfoldable pub require_roles :
    {A : Type 0} → List Text → Response A → Option (Text × Text) → Response A
require_roles roles next none = forbidden "Forbidden"
require_roles roles next (some user) =
    if is_empty user.1
    then forbidden "Forbidden"
    else if any (λ role. to_lower role =ᵗ user.1) roles
    then next
    else forbidden "Forbidden"
