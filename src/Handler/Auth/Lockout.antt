-- ===== src/Handler/Auth/Lockout.antt =====
-- Five failures in a row lock an account for five minutes.
use zzte.Handler.Auth.Limits.{
  AuthState, lockout_duration, login_fail_limit, lockout_at, is_locked, fail_once, register_failure,
  reset_failures,
}
use zzte.Prelude.{
  List, Text, [], arith, false, int_eq, length, lookup-insert_self, lookup-remove_self, ltb, nat_eq,
  refl, text_eq, ℕ, ◌++◌, ◌+◌, ◌<◌, ◌∷◌, ◌≡◌,
}

-- Failed logins to an account at the given instants, one after the other.
pub failures : Text → List ℕ → AuthState → AuthState
failures username [] s = s
failures username (now ∷ later) s = failures username later (register_failure now username s)

module _ (c : ℕ) (name : Text) where
  abbrev username : Text
  username = c ∷ name

  pub lockout_at-register_failure :
      (now : ℕ) (s : AuthState)
      → lockout_at username (register_failure now username s)
        ≡ fail_once now (lockout_at username s)
  unfolding register_failure
  lockout_at-register_failure now s =
      rw
        (lookup-insert_self username (fail_once now (lockout_at username s)) s.lockouts, lockout_at)

  -- Fewer than five failures are only counted.
  lockout_at-failures :
      (times : List ℕ) (s : AuthState)
      → (lockout_at username s).failed + length times < login_fail_limit
      → lockout_at username (failures username times s) ≡ record {
        failed = (lockout_at username s).failed + length times;
        locked_until = (lockout_at username s).locked_until;
      }
  unfolding failures fail_once
  lockout_at-failures [] s h = ground arith
  lockout_at-failures (now ∷ later) s h = ground (
    arith,
    lockout_at-register_failure now s,
    lockout_at-failures later (register_failure now username s),
  )

  failures-append :
      (times : List ℕ) (now : ℕ) (s : AuthState)
      → failures username (times ++ now ∷ []) s
        ≡ register_failure now username (failures username times s)
  unfolding failures
  failures-append [] now s = refl
  failures-append (t ∷ times) now s = failures-append times now (register_failure t username s)

  -- For an account with a non-empty name, four failures or fewer since the last success or lock
  -- leave it locked exactly as long as it was before.
  pub few_failures :
      (times : List ℕ) (now : ℕ) (s : AuthState)
      → (lockout_at username s).failed + length times < login_fail_limit
      → (is_locked now username (failures username times s)).0
        ≡ ltb now (lockout_at username s).locked_until
  unfolding is_locked
  few_failures times now s h = ground (arith, lockout_at-failures times s)

  -- For an account with a non-empty name and no failure on record since its last success or lock,
  -- the fifth failed login locks it from that instant for exactly five minutes.
  pub five_failures :
      (times : List ℕ) (last now : ℕ) (s : AuthState)
      → (lockout_at username s).failed ≡ 0
      → length times + 1 ≡ login_fail_limit
      → (is_locked now username (failures username (times ++ last ∷ []) s)).0
        ≡ ltb now (last + lockout_duration)
  unfolding is_locked fail_once
  five_failures times last now s h n = ground (
    arith,
    failures-append times last s,
    lockout_at-register_failure last (failures username times s),
    lockout_at-failures times s,
    h,
  )

  -- After a success the account is not locked, and has no failure on record.
  pub reset_failures-clears :
      (now : ℕ) (s : AuthState)
      → ((is_locked now username (reset_failures username s)).0 ≡ false)
        × ((lockout_at username (reset_failures username s)).failed ≡ 0)
  unfolding is_locked reset_failures
  reset_failures-clears now s = (
    ground (arith, lookup-remove_self username s.lockouts),
    ground (arith, lookup-remove_self username s.lockouts),
  )
