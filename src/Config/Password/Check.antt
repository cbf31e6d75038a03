-- ===== src/Config/Password/Check.antt =====
-- Which passwords are accepted for a hash that the program made.
use zzte.Strings.{trim_space, is_empty, has_prefix}
use zzte.Domain.{ok}
use zzte.Config.Password.{Bcrypt, BcryptLaws, is_password_hashed, hash_password, check_password}
use zzte.Prelude.{Text, [], arith, false, int_eq, nat_eq, refl, some, text_eq, true, ◌∷◌, ◌≡◌}

hashed-ne-nil : (h : Text) → is_password_hashed h ≡ true → is_empty h ≡ false
unfolding is_password_hashed has_prefix
hashed-ne-nil [] e = cc
hashed-ne-nil (c ∷ h) e = refl

module _ (bcrypt : Bcrypt) (laws : BcryptLaws bcrypt) where
  pub hash_password-generate :
      (p h : Text) → hash_password bcrypt p ≡ ok h → bcrypt.generate (trim_space p) ≡ some h
  unfolding hash_password
  hash_password-generate p h e = ground arith

  pub hash_password-hashed :
      (p h : Text) → hash_password bcrypt p ≡ ok h → is_password_hashed h ≡ true
  hash_password-hashed p h e = laws.marks (trim_space p) h (hash_password-generate p h e)

  pub check_password-compare :
      (p h c : Text)
      → hash_password bcrypt p ≡ ok h
      → check_password bcrypt c h ≡ bcrypt.compare h c
  unfolding check_password
  check_password-compare p h c e =
      let m = hash_password-hashed p h e in ground (arith, m, hashed-ne-nil h m)
