-- ===== src/Examples/Data.antt =====
-- A password function with the laws of bcrypt, accounts, and requests.
use zzte.Strings.{has_prefix, to_lower, trim_space}
use zzte.Config.Password.{
  UserAccount, Bcrypt, BcryptLaws, NoCollision, is_password_hashed, normalize_role,
}
use zzte.Handler.Users.{Users, count_superadmins, is_superadmin}
use zzte.Handler.Users.Governed.{IsGoverned}
use zzte.Handler.Auth.{Context}
use zzte.Handler.Auth.Limits.{AuthState}
use zzte.Service.Activity.{ActivityService}
use zzte.Prelude.{
  =ᵗ_iff, =ᵗ_refl, Bool-cases, Option, Text, [], arith, codes, count_values, if◌then◌else◌, inl,
  inr, int_eq, leb, leb→le, length, lookup, nat_eq, none, refl, some, sym, take, take_all, text_eq,
  true, ◌++◌, ◌=ᵗ◌, ◌∙◌, ◌∷◌, ◌≡◌,
}

-- A password behind a version mark, in place of its hash.
abbrev pub marked : Bcrypt
marked = record {
  generate = λ p. if leb (length p) 72 then some (codes "$2a$" ++ p) else none;
  compare = λ h q. h =ᵗ codes "$2a$" ++ take 72 q;
}

cancel-mark : (s t : Text) → codes "$2a$" ++ s ≡ codes "$2a$" ++ t → s ≡ t
cancel-mark s t h = cc

marked-accepts : (p h : Text) → marked.generate p ≡ some h → marked.compare h p ≡ true
marked-accepts p h e = elim (Bool-cases (leb (length p) 72)) [
  | inl short ↦
      let q : h ≡ codes "$2a$" ++ p = ground (arith, e, short) in
      rw (q, take_all 72 p (leb→le (length p) 72 short)) (=ᵗ_refl (codes "$2a$" ++ p))
  | inr long ↦ ground (arith, e, long)
]

marked-marks : (p h : Text) → marked.generate p ≡ some h → is_password_hashed h ≡ true
unfolding is_password_hashed has_prefix
marked-marks p h e = let q : h ≡ codes "$2a$" ++ p = ground (arith, e) in rw q refl

pub marked-NoCollision : NoCollision marked
marked-NoCollision p q h e c = elim (Bool-cases (leb (length p) 72)) [
  | inl short ↦
      let hp : h ≡ codes "$2a$" ++ p = ground (arith, e, short) in
      let hq : h ≡ codes "$2a$" ++ take 72 q = (=ᵗ_iff h (codes "$2a$" ++ take 72 q)).0 c in
      cancel-mark (take 72 q) p (sym hq ∙ hp) ∙ sym (take_all 72 p (leb→le (length p) 72 short))
  | inr long ↦ ground (arith, e, long)
]

pub marked-laws : BcryptLaws marked
marked-laws = record { accepts = marked-accepts; marks = marked-marks }

abbrev pub admin : UserAccount
admin = record { password = codes "$2a$secret"; role = codes "superadmin" }

abbrev pub worker : UserAccount
worker = record { password = codes "$2a$hammer"; role = codes "technician" }

abbrev pub two_users : Users
two_users = (codes "admin", admin) ∷ (codes "worker", worker) ∷ []

one_superadmin : count_superadmins two_users ≡ 1
unfolding count_superadmins is_superadmin count_values to_lower ◌=ᵗ◌
one_superadmin = refl

pub two_users-IsGoverned : IsGoverned two_users
unfolding is_password_hashed has_prefix normalize_role lookup to_lower trim_space ◌=ᵗ◌
two_users-IsGoverned = record {
  unique = (refl, (refl, tt));
  normal = (record { role = refl; hashed = refl }, (record { role = refl; hashed = refl }, tt));
  governed = omega (arith, one_superadmin);
}

abbrev pub no_entries : ActivityService
no_entries = record { cache = none; mem = []; max = 500 }

abbrev pub no_attempts : AuthState
no_attempts = record { rate = []; lockouts = [] }

abbrev pub request_of : Option (Text × Text) → Context
request_of user = record {
  now = 1000;
  redis_reachable = true;
  request = record { user = user; remote_ip = codes "10.0.0.7" };
  origin = record {
    forwarded_for = codes "10.0.0.7, 10.0.0.1";
    real_ip = [];
    remote_host = codes "10.0.0.1";
  };
}
