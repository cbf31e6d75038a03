-- ===== src/Handler/Users/Superadmin.antt =====
-- No request for user management leaves the program without a superadmin.
use zzte.Handler.Users.Governed.{
  IsGoverned, superadmin-normal, technician-normal, found-IsNormal, insert-IsGoverned,
  remove-IsGoverned,
}
use mathlib.Core.Path.{subst}
use zzte.Strings.{trim_space, to_lower, is_empty}
use zzte.Domain.{Result, ok, err}
use zzte.Config.Password.{UserAccount, Bcrypt, BcryptLaws, hash_password, is_password_hashed}
use zzte.Config.Password.Normal.{IsNormalRole}
use zzte.Config.Password.Check.{hash_password-hashed}
use zzte.Handler.Users.{
  Users, superadmin, technician, UserCreateRequest, UserUpdateRequest, count_superadmins,
  create_account, create_user, update_account, update_user, delete_user,
}
use zzte.Prelude.{
  =ᵗ_iff, Bool, Bool-cases, Option, Option-cases, Text, [], arith, false, if◌then◌else◌, inl, inr,
  insert, int_eq, leb, lookup, nat_eq, none, not, refl, remove, some, sym, text_eq, true, ◌&&◌,
  ◌=ᵗ◌, ◌∷◌, ◌≡◌, ◌⊎◌,
}

-- The roles that a request may give.
given-IsNormalRole :
    (role : Text)
    → (not (role =ᵗ superadmin) && not (role =ᵗ technician)) ≡ false
    → IsNormalRole role
given-IsNormalRole role q = elim (Bool-cases (role =ᵗ superadmin)) [
  | inl e ↦ subst IsNormalRole (sym ((=ᵗ_iff role superadmin).0 e)) superadmin-normal
  | inr e ↦
      subst IsNormalRole (sym ((=ᵗ_iff role technician).0 (ground (arith, q, e)))) technician-normal
]

updated-IsNormalRole :
    (role old : Text)
    → IsNormalRole old
    → (not (is_empty role) && (not (role =ᵗ superadmin) && not (role =ᵗ technician))) ≡ false
    → IsNormalRole (if is_empty role then old else role)
updated-IsNormalRole [] old n q = n
updated-IsNormalRole (c ∷ s) old n q = given-IsNormalRole (c ∷ s) q

-- The text of a hash that was made.
abbrev hash_or_nil : Result Text → Text
hash_or_nil (ok h) = h
hash_or_nil (err e) = []

abbrev is_ok : Result Text → Bool
is_ok (ok h) = true
is_ok (err e) = false

hash_or_nil-eq : (r : Result Text) → is_ok r ≡ true → r ≡ ok (hash_or_nil r)
hash_or_nil-eq (ok h) e = refl
hash_or_nil-eq (err x) e = cc

abbrev is_none : Option UserAccount → Bool
is_none none = true
is_none (some u) = false

module _ (bcrypt : Bcrypt) (saved : Bool) where
  -- The accounts after `CreateUser` are those before it, or those with the new account.
  create_account_users :
      (req : UserCreateRequest) (users : Users)
      → let username = trim_space req.username in
        let given = to_lower (trim_space req.role) in
        let role = if is_empty given then technician else given in
        let r = hash_password bcrypt req.password in
        ((create_account bcrypt saved req users).0 ≡ users)
        ⊎ (((create_account bcrypt saved req users).0
              ≡ insert username (record { password = hash_or_nil r; role = role }) users)
            × (is_ok r ≡ true)
            × (lookup username users ≡ none)
            × ((not (role =ᵗ superadmin) && not (role =ᵗ technician)) ≡ false))
  unfolding create_account
  create_account_users req users = ground arith

  delete_user_users :
      (current : Option (Text × Text)) (username : Text) (users : Users)
      → ((delete_user saved current username users).0 ≡ users)
        ⊎ (((delete_user saved current username users).0 ≡ remove username users)
            × ((u : UserAccount) × (lookup username users ≡ some u)
                × ((u.role =ᵗ superadmin && leb (count_superadmins users) 1) ≡ false)))
  unfolding delete_user
  delete_user_users current username users = ground arith

  update_account_users :
      (username role : Text) (req : UserUpdateRequest) (user : UserAccount) (users : Users)
      → let r =
          if is_empty req.password then ok user.password else hash_password bcrypt req.password in
        let role' = if is_empty role then user.role else role in
        ((update_account bcrypt saved username role req user users).0 ≡ users)
        ⊎ (((update_account bcrypt saved username role req user users).0
              ≡ insert username (record { password = hash_or_nil r; role = role' }) users)
            × (is_ok r ≡ true)
            × ((not (is_empty role) && (not (role =ᵗ superadmin) && not (role =ᵗ technician)))
                ≡ false)
            × ((role =ᵗ technician && (user.role =ᵗ superadmin && leb (count_superadmins users) 1))
                ≡ false))
  unfolding update_account
  update_account_users username role req user users = ground arith

module _ (bcrypt : Bcrypt) (laws : BcryptLaws bcrypt) (saved : Bool) where
  -- From governed accounts, a request to create an account leaves governed accounts, whatever it
  -- asks for, and whether or not they can be saved, for a password function with the laws of
  -- bcrypt.
  pub create_user-IsGoverned :
      (body : Option UserCreateRequest) (users : Users)
      → IsGoverned users
      → IsGoverned (create_user bcrypt saved body users).0
  unfolding create_user
  create_user-IsGoverned none users g = g
  create_user-IsGoverned (some req) users g = elim (create_account_users bcrypt saved req users) [
    | inl same ↦ subst IsGoverned (sym same) g
    | inr (e, hashed, new, valid) ↦ subst IsGoverned (sym e) (
        insert-IsGoverned users _ g _
          (record {
            role = given-IsNormalRole _ valid;
            hashed =
                hash_password-hashed bcrypt laws req.password _
                  (hash_or_nil-eq (hash_password bcrypt req.password) hashed);
          })
          (λ old found. cc))
  ]

  -- From governed accounts, a request to delete one leaves governed accounts, whoever sends it and
  -- whether or not they can be saved.
  pub delete_user-IsGoverned :
      (current : Option (Text × Text)) (username : Text) (users : Users)
      → IsGoverned users
      → IsGoverned (delete_user saved current username users).0
  delete_user-IsGoverned current username users g =
      elim (delete_user_users bcrypt saved current username users) [
        | inl same ↦ subst IsGoverned (sym same) g
        | inr (e, (u, found, more)) ↦
            subst IsGoverned (sym e) (remove-IsGoverned users username g u found more)
      ]

  updated-hashed :
      (req : UserUpdateRequest) (user : UserAccount) (r : Result Text)
      → is_password_hashed user.password ≡ true
      → r ≡ (if is_empty req.password then ok user.password else hash_password bcrypt req.password)
      → is_ok r ≡ true
      → is_password_hashed (hash_or_nil r) ≡ true
  updated-hashed req user (ok h) n e o =
      ground (arith, e, n, hash_password-hashed bcrypt laws req.password h)
  updated-hashed req user (err x) n e o = cc

  update_account-IsGoverned :
      (username role : Text) (req : UserUpdateRequest) (user : UserAccount) (users : Users)
      → IsGoverned users
      → lookup username users ≡ some user
      → IsGoverned (update_account bcrypt saved username role req user users).0
  update_account-IsGoverned username role req user users g found =
      let n = found-IsNormal users username g user found in
      elim (update_account_users bcrypt saved username role req user users) [
        | inl same ↦ subst IsGoverned (sym same) g
        | inr (e, hashed, valid, more) ↦ subst IsGoverned (sym e) (
            insert-IsGoverned users username g _
              (record {
                role = updated-IsNormalRole role user.role n.role valid;
                hashed = updated-hashed req user _ n.hashed refl hashed;
              })
              (λ old found' lost. ground (arith, valid, more, lost, found, found')))
      ]

  -- From governed accounts (unique names, normal roles, hashed passwords, at least one
  -- superadmin), a request to update one leaves governed accounts, whatever it asks for, and
  -- whether or not they can be saved, for a password function with the laws of bcrypt.
  pub update_user-IsGoverned :
      (username : Text) (body : Option UserUpdateRequest) (users : Users)
      → IsGoverned users
      → IsGoverned (update_user bcrypt saved username body users).0
  unfolding update_user
  update_user-IsGoverned [] body users g = g
  update_user-IsGoverned (c ∷ name) none users g = g
  update_user-IsGoverned (c ∷ name) (some req) users g =
      elim (Option-cases (lookup (c ∷ name) users)) [
        | inl e ↦ rw (e, update_user) g
        | inr (user, e) ↦
            rw (e, update_user)
              (update_account-IsGoverned (c ∷ name) (to_lower (trim_space req.role)) req user users
                g e)
      ]
