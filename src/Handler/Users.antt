-- ===== src/Handler/Users.antt =====
-- internal/handler/user_handler.go. `saved` tells whether `cfg.Save` succeeds; the accounts in
-- memory are changed before it is called.
pub mod Governed
pub mod Superadmin
use zzte.Strings.{trim_space, to_lower, is_empty}
use zzte.Domain.{Result, ok, err, Error, message, error_text}
use zzte.Config.Password.{UserAccount, Bcrypt, hash_password}
use zzte.Handler.Response.{
  Response, success, created, bad_request, not_found, conflict, internal_error, message_response,
}
use zzte.Prelude.{
  Bool, List, Map, Option, String, Text, [], arith, codes, count_values, false, if◌then◌else◌,
  insert, int_eq, leb, lookup, map, nat_eq, none, not, remove, some, text_eq, true, ℕ, ◌&&◌, ◌=ᵗ◌,
  ◌||◌, ◌∷◌,
}

abbrev pub Users : Type 0
Users = Map Text UserAccount

abbrev pub superadmin : Text
superadmin = codes "superadmin"

abbrev pub technician : Text
technician = codes "technician"

pub record UserResponse : Type 0 where
  pub username : Text
  pub role : Text

pub record UserCreateRequest : Type 0 where
  pub username : Text
  pub password : Text
  pub role : Text

pub record UserUpdateRequest : Type 0 where
  pub password : Text
  pub role : Text

-- the test of `countSuperadmins`
unfoldable pub is_superadmin : UserAccount → Bool
is_superadmin u = to_lower u.role =ᵗ superadmin

-- `countSuperadmins`
unfoldable pub count_superadmins : Users → ℕ
count_superadmins users = count_values is_superadmin users

abbrev shown_role : Text → Text
shown_role role = if is_empty role then technician else role

-- `ListUsers`
unfoldable pub list_users : Users → Response (List UserResponse)
list_users users =
    success (map (λ entry. record { username = entry.0; role = shown_role entry.1.role }) users)

-- what follows once the accounts are changed: `Save`, and its error
abbrev pub saving : {A : Type 0} → Bool → Users → Response A → Users × Response A
saving true users reply = (users, reply)
saving false users reply = (users, internal_error "Failed to save configuration")

module _ (bcrypt : Bcrypt) (saved : Bool) where
  -- `CreateUser`, behind the decoding of its body
  unfoldable pub create_account : UserCreateRequest → Users → Users × Response UserResponse
  create_account req users =
      let username = trim_space req.username in
      let given = to_lower (trim_space req.role) in
      let role = shown_role given in
      if is_empty username || is_empty req.password
      then (users, bad_request "Username and password are required")
      else if not (role =ᵗ superadmin) && not (role =ᵗ technician)
      then (users, bad_request "Invalid role")
      else elim (lookup username users) [
        | some _ ↦ (users, conflict "User already exists")
        | none ↦ elim (hash_password bcrypt req.password) [
          | err e ↦ (users, bad_request (error_text e))
          | ok hashed ↦
              saving saved (insert username (record { password = hashed; role = role }) users)
                (created (record { username = username; role = role }))
        ]
      ]

  -- `CreateUser`
  unfoldable pub create_user : Option UserCreateRequest → Users → Users × Response UserResponse
  unfolding create_account
  create_user none users = (users, bad_request "Invalid request body")
  create_user (some req) users = create_account req users

  abbrev new_password : UserUpdateRequest → UserAccount → Result Text
  new_password req user =
      if is_empty req.password then ok user.password else hash_password bcrypt req.password

  -- `UpdateUser`, once the account is found and the role is normal
  unfoldable pub update_account :
      Text → Text → UserUpdateRequest → UserAccount → Users → Users × Response UserResponse
  update_account username role req user users =
      if is_empty req.password && is_empty role
      then (users, bad_request "No changes provided")
      else if not (is_empty role) && (not (role =ᵗ superadmin) && not (role =ᵗ technician))
      then (users, bad_request "Invalid role")
      else if role =ᵗ technician && (user.role =ᵗ superadmin && leb (count_superadmins users) 1)
      then (users, bad_request "Cannot remove last superadmin")
      else elim (new_password req user) [
        | err e ↦ (users, bad_request (error_text e))
        | ok password ↦
            (let role' = if is_empty role then user.role else role in
              saving saved (insert username (record { password = password; role = role' }) users)
                (success (record { username = username; role = role' })))
      ]

  -- `UpdateUser`
  unfoldable pub update_user :
      Text → Option UserUpdateRequest → Users → Users × Response UserResponse
  unfolding update_account
  update_user [] body users = (users, bad_request "Username is required")
  update_user (c ∷ name) none users = (users, bad_request "Invalid request body")
  update_user (c ∷ name) (some req) users = elim (lookup (c ∷ name) users) [
    | none ↦ (users, not_found "User not found")
    | some user ↦ update_account (c ∷ name) (to_lower (trim_space req.role)) req user users
  ]

-- the test of `DeleteUser` on the user of the request
abbrev is_current : Option (Text × Text) → Text → Bool
is_current none username = false
is_current (some u) username = u.0 =ᵗ username

-- `DeleteUser`, with the user that the middleware stored, if any
unfoldable pub delete_user :
    Bool → Option (Text × Text) → Text → Users → Users × Response (Unit {0})
delete_user saved current username users =
    if is_empty username
    then (users, bad_request "Username is required")
    else if is_current current username
    then (users, bad_request "Cannot delete current user")
    else elim (lookup username users) [
      | none ↦ (users, not_found "User not found")
      | some user ↦
          if user.role =ᵗ superadmin && leb (count_superadmins users) 1
          then (users, bad_request "Cannot delete last superadmin")
          else saving saved (remove username users) (message_response "User deleted successfully")
    ]
