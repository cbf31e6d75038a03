-- ===== src/Config/Password.antt =====
-- internal/config/password.go. bcrypt is a parameter.
pub mod Normal
pub mod Check
use zzte.Strings.{trim_space, to_lower, has_prefix, is_empty}
use zzte.Domain.{Result, ok, err, message, ◌>>=◌}
use zzte.Prelude.{
  Bool, Map, Option, Text, [], arith, codes, false, if◌then◌else◌, int_eq, nat_eq, none, some, take,
  text_eq, true, ◌=ᵗ◌, ◌||◌, ◌∷◌, ◌≡◌,
}

pub record UserAccount : Type 0 where
  pub password : Text
  pub role : Text

-- `GenerateFromPassword` for one choice of its salt (`none` is an error, as for more than 72
-- bytes) and whether `CompareHashAndPassword stored candidate` returns nil.
pub record Bcrypt : Type 0 where
  pub generate : Text → Option Text
  pub compare : Text → Text → Bool

-- `IsPasswordHashed`
unfoldable pub is_password_hashed : Text → Bool
is_password_hashed password =
    has_prefix password (codes "$2a$")
    || has_prefix password (codes "$2b$")
    || has_prefix password (codes "$2y$")

-- `normalizeRole`
unfoldable pub normalize_role : Text → Text
normalize_role role =
    let normalized = to_lower (trim_space role) in
    if is_empty normalized then codes "technician" else normalized

module _ (bcrypt : Bcrypt) where
  -- `HashPassword`
  unfoldable pub hash_password : Text → Result Text
  hash_password password =
      let trimmed = trim_space password in
      if is_empty trimmed
      then err (message "password cannot be empty")
      else elim (bcrypt.generate trimmed) [
        | none ↦ err (message "hash password")
        | some hash ↦ ok hash
      ]

  -- `CheckPassword`
  unfoldable pub check_password : Text → Text → Bool
  check_password candidate stored =
      if is_empty stored
      then false
      else if is_password_hashed stored
      then bcrypt.compare stored candidate
      else stored =ᵗ candidate

  -- one round of `NormalizeUsers`
  unfoldable pub normalize_user : UserAccount → Result UserAccount
  normalize_user user =
      let user' = record user { role = normalize_role user.role } in
      if is_password_hashed user'.password then ok user' else elim (hash_password user'.password) [
        | err e ↦ err e
        | ok hash ↦ ok (record user' { password = hash })
      ]

  -- `NormalizeUsers`; after an error the only caller drops the map.
  unfoldable pub normalize_users : Map Text UserAccount → Result (Map Text UserAccount)
  normalize_users [] = ok []
  normalize_users ((username, user) ∷ users) = do
    user' ← normalize_user user
    users' ← normalize_users users
    ok ((username, user') ∷ users')

  -- What bcrypt documents: a password is accepted for its own hash, and a hash begins with a
  -- version mark that the program knows.
  pub record BcryptLaws : Type 0 where
    pub accepts : (p h : Text) → bcrypt.generate p ≡ some h → bcrypt.compare h p ≡ true
    pub marks : (p h : Text) → bcrypt.generate p ≡ some h → is_password_hashed h ≡ true

  -- No hash of one password accepts another with other first 72 bytes. This assumes more than bcrypt
  -- documents: such passwords may exist, though none are known but those with zero bytes, since
  -- bcrypt ends a password with one and repeats it.
  abbrev pub NoCollision : Type 0
  NoCollision =
      (p q h : Text)
      → bcrypt.generate p ≡ some h
      → bcrypt.compare h q ≡ true
      → take 72 q ≡ take 72 p
