-- ===== src/Handler/Auth/Access.antt =====
-- The middleware, and the change of a password.
use zzte.Strings.{to_lower, trim_space}
use zzte.Config.Password.{UserAccount, Bcrypt, check_password, hash_password}
use zzte.Handler.Response.{
  Response, unauthorized, forbidden, message_response, bad_request, internal_error,
}
use zzte.Handler.Auth.{
  AccountState, ChangePasswordRequest, Claims, Context, auth_middleware, bearer_token,
  require_roles, change_password,
}
use zzte.Prelude.{
  Bool, List, Option, Text, [], any, arith, insert, int_eq, lookup, nat_eq, none, some, text_eq,
  true, ◌=ᵗ◌, ◌≡◌, ◌≢◌,
}

-- A request is answered with success behind both middlewares only with a token that verifies,
-- whose role is, but for letter case, among the allowed ones; and then it has the answer of the
-- handler.
pub require_roles-auth_middleware :
    {A : Type 0} (verify : Text → Option Claims) (roles : List Text) (next : Response A)
    (header : Text)
    → (auth_middleware verify (λ user. require_roles roles next (some user)) header).success ≡ true
    → (header ≢ [])
      × (auth_middleware verify (λ user. require_roles roles next (some user)) header ≡ next)
      × ((claims : Claims) × (verify (bearer_token header) ≡ some claims)
          × (any (λ role. to_lower role =ᵗ to_lower claims.role) roles ≡ true))
unfolding auth_middleware require_roles unauthorized forbidden
require_roles-auth_middleware verify roles next header h = ground arith

module _ (bcrypt : Bcrypt) (saved : Bool) where
  -- Without a user that the middleware has stored, a password is never changed: the answer is 401,
  -- whatever the body.
  pub change_password_anonymous :
      (c : Context) (body : Option ChangePasswordRequest) (s : AccountState)
      → c.request.user ≡ none
      → (change_password bcrypt saved c body s).0 ≡ s
        × ((change_password bcrypt saved c body s).1.status ≡ 401)
  unfolding change_password unauthorized
  change_password_anonymous c body s h = ground (arith, h)

  -- A change of password that succeeds for the user of the request was asked for with the old
  -- password; it stores a hash of the new one without the white space around it, under the same
  -- name and role, and touches no other account.
  pub change_password_sound :
      (c : Context) (req : ChangePasswordRequest) (s : AccountState) (username role : Text)
      → c.request.user ≡ some (username, role)
      → (change_password bcrypt saved c (some req) s).1.success ≡ true
      → (user : UserAccount) × (hash : Text) × (lookup username s.users ≡ some user)
        × (check_password bcrypt req.old_password user.password ≡ true)
        × (bcrypt.generate (trim_space req.new_password) ≡ some hash)
        × ((change_password bcrypt saved c (some req) s).0.users
            ≡ insert username (record { password = hash; role = user.role }) s.users)
  unfolding change_password message_response bad_request unauthorized internal_error hash_password
  change_password_sound c req s username role h k = ground arith
