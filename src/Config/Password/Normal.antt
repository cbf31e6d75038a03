-- ===== src/Config/Password/Normal.antt =====
-- What `NormalizeUsers` leaves: normal roles and hashed passwords, which a second run keeps.
use zzte.Strings.{trim_space, to_lower, lower, is_space, is_empty}
use zzte.Strings.Trim.{NoHead, NoLast, trim-NoHead, trim-NoLast, trim_fixed}
use zzte.Domain.{ok, >>=-eq-ok, ok-injective}
use zzte.Config.Password.{
  UserAccount, Bcrypt, BcryptLaws, is_password_hashed, normalize_role, normalize_user,
  normalize_users,
}
use zzte.Config.Password.Check.{hash_password-hashed}
use zzte.Prelude.{
  All, Bool-cases, Map, Text, [], ap, arith, codes, inl, inr, int_eq, map, nat_eq, refl, sym,
  text_eq, true, ℕ, ◌∙◌, ◌∷◌, ◌≡◌,
}

lower_idem : (c : ℕ) → lower (lower c) ≡ lower c
unfolding lower
lower_idem c = ground arith

is_space-lower : (c : ℕ) → is_space (lower c) ≡ is_space c
unfolding is_space lower
is_space-lower c = ground arith

to_lower_idem : (s : Text) → to_lower (to_lower s) ≡ to_lower s
unfolding to_lower
to_lower_idem [] = refl
to_lower_idem (c ∷ s) = cc (lower_idem c, to_lower_idem s)

to_lower-NoHead : (s : Text) → NoHead is_space s → NoHead is_space (to_lower s)
unfolding to_lower
to_lower-NoHead [] h = tt
to_lower-NoHead (c ∷ s) h = is_space-lower c ∙ h

to_lower-NoLast : (s : Text) → NoLast is_space s → NoLast is_space (to_lower s)
unfolding to_lower
to_lower-NoLast [] h = tt
to_lower-NoLast (c ∷ []) h = is_space-lower c ∙ h
to_lower-NoLast (c ∷ d ∷ s) h = to_lower-NoLast (d ∷ s) h

-- A role in normal form: what `normalize_role` leaves as it is.
abbrev pub IsNormalRole : Text → Type 0
IsNormalRole role = normalize_role role ≡ role

trim_space-to_lower : (s : Text) → trim_space (to_lower (trim_space s)) ≡ to_lower (trim_space s)
unfolding trim_space
trim_space-to_lower s =
    trim_fixed is_space _ (to_lower-NoHead _ (trim-NoHead is_space s))
      (to_lower-NoLast _ (trim-NoLast is_space s))

normal_technician : IsNormalRole (codes "technician")
unfolding normalize_role to_lower trim_space
normal_technician = refl

pub normalize_role_idem : (role : Text) → IsNormalRole (normalize_role role)
unfolding normalize_role
normalize_role_idem role = elim (Bool-cases (is_empty (to_lower (trim_space role)))) [
  | inl e ↦ rw e normal_technician
  | inr e ↦ rw (e, trim_space-to_lower role, to_lower_idem (trim_space role), e)
]

to_lower_technician : to_lower (codes "technician") ≡ codes "technician"
unfolding to_lower
to_lower_technician = refl

to_lower-normalize_role : (role : Text) → to_lower (normalize_role role) ≡ normalize_role role
unfolding normalize_role
to_lower-normalize_role role = elim (Bool-cases (is_empty (to_lower (trim_space role)))) [
  | inl e ↦ rw e to_lower_technician
  | inr e ↦ rw e (to_lower_idem (trim_space role))
]

-- A role in normal form is in lower case.
pub to_lower_of_IsNormalRole : (role : Text) → IsNormalRole role → to_lower role ≡ role
to_lower_of_IsNormalRole role n = ap to_lower (sym n) ∙ to_lower-normalize_role role ∙ n

-- An account as the program keeps it.
pub record IsNormal (user : UserAccount) : Type 0 where
  pub role : IsNormalRole user.role
  pub hashed : is_password_hashed user.password ≡ true

module _ (bcrypt : Bcrypt) (laws : BcryptLaws bcrypt) where
  normalize_user-IsNormal :
      (user user' : UserAccount) → normalize_user bcrypt user ≡ ok user' → IsNormal user'
  unfolding normalize_user
  normalize_user-IsNormal user user' e = record {
    role = ground (arith, normalize_role_idem user.role);
    hashed = ground (arith, hash_password-hashed bcrypt laws user.password user'.password);
  }

  normalize_user_fixed : (user : UserAccount) → IsNormal user → normalize_user bcrypt user ≡ ok user
  unfolding normalize_user
  normalize_user_fixed user n = ground arith

  abbrev pub AllNormal : Map Text UserAccount → Type 0
  AllNormal = All (λ entry. IsNormal entry.1)

  -- When NormalizeUsers succeeds, for a password function with the laws of bcrypt, every account
  -- has a role in normal form and a hashed password, the names are the same in the same order, and
  -- a second run changes nothing.
  pub normalize_users-AllNormal :
      (users users' : Map Text UserAccount)
      → normalize_users bcrypt users ≡ ok users'
      → AllNormal users'
        × (map (λ entry. entry.0) users' ≡ map (λ entry. entry.0) users)
        × (normalize_users bcrypt users' ≡ ok users')
  unfolding normalize_users
  normalize_users-AllNormal [] users' e = rw (← ok-injective e) (tt, refl, refl)
  normalize_users-AllNormal ((username, user) ∷ users) users' e =
      let (user', e₁, e₂) = >>=-eq-ok (normalize_user bcrypt user) _ e in
      let (rest, e₃, e₄) = >>=-eq-ok (normalize_users bcrypt users) _ e₂ in
      let n = normalize_user-IsNormal user user' e₁ in
      let (all_normal, names, again) = normalize_users-AllNormal users rest e₃ in
      rw (← ok-injective e₄)
        ((n, all_normal), ap (λ t. username ∷ t) names, rw (normalize_user_fixed user' n, again))
