-- ===== src/Examples/Users.antt =====
-- Accounts: the superadmin stays, passwords are normalised and checked.
use zzte.Strings.{to_lower, trim_space, has_prefix}
use zzte.Domain.{ok}
use zzte.Config.Password.{
  is_password_hashed, normalize_role, hash_password, normalize_user, normalize_users,
}
use zzte.Config.Password.Normal.{AllNormal, normalize_users-AllNormal}
use zzte.Handler.Users.{Users, create_user, update_user, delete_user}
use zzte.Handler.Users.Governed.{IsGoverned}
use zzte.Handler.Users.Superadmin.{
  create_user-IsGoverned, update_user-IsGoverned, delete_user-IsGoverned,
}
use zzte.Examples.Data.{marked, marked-laws, two_users, two_users-IsGoverned}
use zzte.Prelude.{[], codes, int_eq, map, nat_eq, refl, some, text_eq, true, ◌∷◌, ◌≡◌}

-- A superadmin cannot be made a technician when there is no other.
update_user_example :
    IsGoverned
      (update_user marked true
        (codes "admin")
        (some (record { password = []; role = codes "technician" }))
        two_users).0
update_user_example =
    update_user-IsGoverned marked marked-laws true (codes "admin")
      (some (record { password = []; role = codes "technician" })) two_users two_users-IsGoverned

delete_user_example :
    IsGoverned
      (delete_user true (some (codes "worker", codes "technician")) (codes "admin") two_users).0
delete_user_example =
    delete_user-IsGoverned marked marked-laws true (some (codes "worker", codes "technician"))
      (codes "admin") two_users two_users-IsGoverned

create_user_example :
    IsGoverned
      (create_user marked true
        (some
          (record { username = codes "eve"; password = codes "pw"; role = codes " SuperAdmin " }))
        two_users).0
create_user_example =
    create_user-IsGoverned marked marked-laws true
      (some (record { username = codes "eve"; password = codes "pw"; role = codes " SuperAdmin " }))
      two_users two_users-IsGoverned

abbrev raw_users : Users
raw_users = (codes "root", record { password = codes " toor "; role = codes "SuperAdmin" }) ∷ []

abbrev kept_users : Users
kept_users = (codes "root", record { password = codes "$2a$toor"; role = codes "superadmin" }) ∷ []

raw_users-kept : normalize_users marked raw_users ≡ ok kept_users
unfolding normalize_users normalize_user hash_password normalize_role is_password_hashed has_prefix
    trim_space to_lower
raw_users-kept = refl

normalize_users_example :
    AllNormal marked marked-laws kept_users
    × (map (λ entry. entry.0) kept_users ≡ map (λ entry. entry.0) raw_users)
    × (normalize_users marked kept_users ≡ ok kept_users)
normalize_users_example =
    normalize_users-AllNormal marked marked-laws raw_users kept_users raw_users-kept
