-- ===== src/Handler/Auth/Limits.antt =====
-- The state that `AuthHandler` keeps: login attempts by address, and failures by account.
use zzte.Strings.{is_empty}
use zzte.Prelude.{
  Bool, Map, Text, false, if◌then◌else◌, insert, int_eq, leb, lookup, ltb, nat_eq, none, remove,
  some, text_eq, true, ℕ, ◌*◌, ◌+◌, ◌-◌, ◌==◌, ◌||◌,
}

pub record RateState : Type 0 where
  pub count : ℕ
  pub window_start : ℕ

pub record LockoutState : Type 0 where
  pub failed : ℕ
  pub locked_until : ℕ

pub record AuthState : Type 0 where
  pub rate : Map Text RateState
  pub lockouts : Map Text LockoutState

abbrev pub second : ℕ
second = 1000000000

abbrev pub login_fail_limit : ℕ
login_fail_limit = 5

abbrev pub lockout_duration : ℕ
lockout_duration = 300 * second

abbrev pub rate_limit_window : ℕ
rate_limit_window = 60 * second

abbrev pub rate_limit_max_hits : ℕ
rate_limit_max_hits = 20

-- A map gives the zero value for a key that it lacks.
abbrev pub rate_at : Text → AuthState → RateState
rate_at key s = elim (lookup key s.rate) [
  | none ↦ record { count = 0; window_start = 0 }
  | some r ↦ r
]

abbrev pub lockout_at : Text → AuthState → LockoutState
lockout_at username s = elim (lookup username s.lockouts) [
  | none ↦ record { failed = 0; locked_until = 0 }
  | some l ↦ l
]

-- The window that an attempt at `now` falls in: a new one if none is open or the last is over. The
-- subtraction stops at 0, where Go's is negative; neither is above the window.
unfoldable pub open_window : ℕ → RateState → RateState
open_window now r =
    if r.window_start == 0 || ltb rate_limit_window (now - r.window_start)
    then record { count = 0; window_start = now }
    else r

-- `checkRateLimit`: whether the attempt is refused, when to try again, and the state.
unfoldable pub check_rate_limit : ℕ → Text → AuthState → (Bool × ℕ) × AuthState
unfolding open_window
check_rate_limit now key s =
    let r = open_window now (rate_at key s) in
    if leb rate_limit_max_hits r.count
    then ((true, rate_limit_window + r.window_start - now), s)
    else ((false, 0), record s { rate = insert key (record r { count = r.count + 1 }) s.rate })

-- `isLocked`
unfoldable pub is_locked : ℕ → Text → AuthState → Bool × ℕ
is_locked now username s =
    let l = lockout_at username s in
    if is_empty username
    then (false, 0)
    else if ltb now l.locked_until
    then (true, l.locked_until - now)
    else (false, 0)

-- one more failure in `registerFailure`
unfoldable pub fail_once : ℕ → LockoutState → LockoutState
fail_once now l =
    if leb login_fail_limit (l.failed + 1)
    then record { failed = 0; locked_until = now + lockout_duration }
    else record l { failed = l.failed + 1 }

-- `registerFailure`
unfoldable pub register_failure : ℕ → Text → AuthState → AuthState
register_failure now username s =
    if is_empty username
    then s
    else record s { lockouts = insert username (fail_once now (lockout_at username s)) s.lockouts }

-- `resetFailures`
unfoldable pub reset_failures : Text → AuthState → AuthState
reset_failures username s =
    if is_empty username then s else record s { lockouts = remove username s.lockouts }
