-- ===== src/Handler/Users/Governed.antt =====
-- Accounts with a superadmin among them, and what keeps one there.
use zzte.Strings.{trim_space, to_lower}
use zzte.Config.Password.{UserAccount, normalize_role}
use zzte.Config.Password.Normal.{IsNormal, IsNormalRole, to_lower_of_IsNormalRole}
use zzte.Handler.Response.{Response}
use zzte.Handler.Users.{Users, superadmin, technician, is_superadmin, count_superadmins, saving}
use zzte.Prelude.{
  All, All-insert, All-lookup, All-remove, Bool, Option, Text, UniqueKeys, arith,
  count_values-insert, count_values-remove, false, insert, insert-UniqueKeys, int_eq, leb, lookup,
  nat_eq, none, refl, remove, remove-UniqueKeys, some, text_eq, true, ◌&&◌, ◌<◌, ◌=ᵗ◌, ◌≡◌,
}

-- Accounts under different names, normal ones, with a superadmin among them.
pub record IsGoverned (users : Users) : Type 0 where
  pub unique : UniqueKeys users
  pub normal : All (λ entry. IsNormal entry.1) users
  pub governed : 0 < count_superadmins users

pub superadmin-normal : IsNormalRole superadmin
unfolding normalize_role to_lower trim_space
superadmin-normal = refl

pub technician-normal : IsNormalRole technician
unfolding normalize_role to_lower trim_space
technician-normal = refl

-- In normal form only the role "superadmin" counts.
is_superadmin_of_IsNormal :
    (u : UserAccount) → IsNormal u → is_superadmin u ≡ (u.role =ᵗ superadmin)
unfolding is_superadmin
is_superadmin_of_IsNormal u n = rw (to_lower_of_IsNormalRole u.role n.role)

module _ (users : Users) (username : Text) (g : IsGoverned users) where
  pub found-IsNormal : (u : UserAccount) → lookup username users ≡ some u → IsNormal u
  found-IsNormal u h = All-lookup (λ entry. IsNormal entry.1) username u users g.normal h

  insert-governed :
      (u : UserAccount) (o : Option UserAccount)
      → lookup username users ≡ o
      → IsNormal u
      → ((old : UserAccount)
          → o ≡ some old
          → (u.role =ᵗ superadmin) ≡ false
          → (old.role =ᵗ superadmin && leb (count_superadmins users) 1) ≡ false)
      → 0 < count_superadmins (insert username u users)
  unfolding count_superadmins
  insert-governed u none e n h =
      ground (arith, count_values-insert is_superadmin username u users, e, g.governed)
  insert-governed u (some old) e n h = ground (
    arith,
    count_values-insert is_superadmin username u users,
    is_superadmin_of_IsNormal u n,
    is_superadmin_of_IsNormal old (found-IsNormal old e),
    h old refl,
    g.governed,
  )

  -- A superadmin is replaced by an account that is none only while another one is left.
  pub insert-IsGoverned :
      (u : UserAccount)
      → IsNormal u
      → ((old : UserAccount)
          → lookup username users ≡ some old
          → (u.role =ᵗ superadmin) ≡ false
          → (old.role =ᵗ superadmin && leb (count_superadmins users) 1) ≡ false)
      → IsGoverned (insert username u users)
  insert-IsGoverned u n h = record {
    unique = insert-UniqueKeys username u users g.unique;
    normal = All-insert (λ entry. IsNormal entry.1) username u users n g.normal;
    governed = insert-governed u (lookup username users) refl n h;
  }

  remove-governed :
      (u : UserAccount)
      → lookup username users ≡ some u
      → (u.role =ᵗ superadmin && leb (count_superadmins users) 1) ≡ false
      → 0 < count_superadmins (remove username users)
  unfolding count_superadmins
  remove-governed u e h = ground (
    arith,
    count_values-remove is_superadmin username users g.unique,
    is_superadmin_of_IsNormal u (found-IsNormal u e),
    g.governed,
  )

  pub remove-IsGoverned :
      (u : UserAccount)
      → lookup username users ≡ some u
      → (u.role =ᵗ superadmin && leb (count_superadmins users) 1) ≡ false
      → IsGoverned (remove username users)
  remove-IsGoverned u e h = record {
    unique = remove-UniqueKeys username users g.unique;
    normal = All-remove (λ entry. IsNormal entry.1) username users g.normal;
    governed = remove-governed u e h;
  }

pub saving-IsGoverned :
    {A : Type 0} (saved : Bool) (users : Users) (reply : Response A)
    → IsGoverned users
    → IsGoverned (saving saved users reply).0
saving-IsGoverned true users reply g = g
saving-IsGoverned false users reply g = g
