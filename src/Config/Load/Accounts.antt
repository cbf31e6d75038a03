-- ===== src/Config/Load/Accounts.antt =====
-- The accounts after loading.
use zzte.Strings.{is_empty}
use zzte.Domain.{ok, >>=-eq-ok}
use zzte.Config.Password.{UserAccount, Bcrypt, BcryptLaws}
use zzte.Config.Password.Normal.{AllNormal, normalize_users-AllNormal}
use zzte.Config.Load.{RawUser, parse_users, initial_users, load_users}
use zzte.Prelude.{
  Map, Text, [], arith, if◌then◌else◌, int_eq, map, nat_eq, refl, text_eq, ◌∷◌, ◌≡◌, ◌≢◌,
}

initial_users-ne-nil :
    (bcrypt : Bcrypt) (parsed users : Map Text UserAccount)
    → initial_users bcrypt parsed ≡ ok users
    → users ≢ []
unfolding initial_users
initial_users-ne-nil bcrypt [] users h = ground (arith, h)
initial_users-ne-nil bcrypt (user ∷ parsed) users h = ground (arith, h)

map-ne-nil :
    (users users' : Map Text UserAccount)
    → map (λ e. e.0) users' ≡ map (λ e. e.0) users
    → users ≢ []
    → users' ≢ []
map-ne-nil [] users' e h = absurd (h refl)
map-ne-nil (u ∷ users) [] e h = cc
map-ne-nil (u ∷ users) (v ∷ users') e h = cc

-- When loading succeeds, whatever the file holds, there is at least one account, and every account
-- has a role in normal form and a hashed password.
pub load_users-AllNormal :
    (bcrypt : Bcrypt) (laws : BcryptLaws bcrypt) (decoded : Map Text UserAccount)
    (raw : Map Text RawUser) (users : Map Text UserAccount)
    → load_users bcrypt decoded raw ≡ ok users
    → AllNormal bcrypt laws users × (users ≢ [])
unfolding load_users
load_users-AllNormal bcrypt laws decoded raw users h =
    let given = if is_empty (parse_users raw) then decoded else parse_users raw in
    let (first, e, normalized) = >>=-eq-ok (initial_users bcrypt given) _ h in
    let (normal, names, _) = normalize_users-AllNormal bcrypt laws first users normalized in
    (normal, map-ne-nil first users names (initial_users-ne-nil bcrypt given first e))
