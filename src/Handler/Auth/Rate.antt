-- ===== src/Handler/Auth/Rate.antt =====
-- At most twenty attempts from one address pass in a window of one minute.
use zzte.Handler.Auth.Limits.{
  RateState, AuthState, rate_limit_window, rate_limit_max_hits, rate_at, open_window,
  check_rate_limit,
}
use zzte.Prelude.{
  All, List, Text, [], arith, false, if◌then◌else◌, int_eq, leb, length, lookup-insert_ne,
  lookup-insert_self, min, nat_eq, text_eq, ℕ, ◌+◌, ◌-◌, ◌<◌, ◌∷◌, ◌≡◌, ◌≢◌, ◌≤◌, ◌⊎◌,
}

-- Attempts at the given instants, one after the other: how many of them pass.
pub attempts : Text → List ℕ → AuthState → ℕ × AuthState
attempts key [] s = (0, s)
attempts key (now ∷ later) s =
    let ((refused, retry), s') = check_rate_limit now key s in
    let (passed, final) = attempts key later s' in (if refused then passed else passed + 1, final)

-- The window of an address: open since `start`, with `count` attempts that passed.
abbrev HasWindow : Text → ℕ → ℕ → AuthState → Type 0
HasWindow key count start s = rate_at key s ≡ record { count = count; window_start = start }

-- The next state after a check, within the window that is open.
check_in_window :
    (key : Text) (count start now : ℕ) (s : AuthState)
    → HasWindow key count start s
    → 0 < start
    → now ≤ start + rate_limit_window
    → ((check_rate_limit now key s).0.0 ≡ leb rate_limit_max_hits count)
      × HasWindow key
          (if leb rate_limit_max_hits count then count else count + 1)
          start
          (check_rate_limit now key s).1
unfolding check_rate_limit
check_in_window key count start now s h p q = (
  ground (arith, h),
  ground (
    arith,
    h,
    lookup-insert_self key (record { count = count + 1; window_start = start }) s.rate,
  ),
)

-- Within a window, as many further attempts pass as are left of the twenty.
attempts_left :
    (key : Text) (count start : ℕ) (times : List ℕ) (s : AuthState)
    → HasWindow key count start s
    → 0 < start
    → All (λ t. t ≤ start + rate_limit_window) times
    → count ≤ rate_limit_max_hits
    → (attempts key times s).0 ≡ min (length times) (rate_limit_max_hits - count)
unfolding attempts
attempts_left key count start [] s h p q c = omega arith
attempts_left key count start (now ∷ later) s h p (q, qs) c =
    let (e, w) = check_in_window key count start now s h p q in
    ground (
      arith,
      e,
      attempts_left key (if leb rate_limit_max_hits count then count else count + 1) start later
          (check_rate_limit now key s).1 w p qs (ground arith),
    )

-- No window is open at `now`: none was opened, or the last one is over.
abbrev pub IsClosed : Text → ℕ → AuthState → Type 0
IsClosed key now s =
    ((rate_at key s).window_start ≡ 0) ⊎ (rate_limit_window < now - (rate_at key s).window_start)

check_opens :
    (key : Text) (now : ℕ) (s : AuthState)
    → IsClosed key now s
    → ((check_rate_limit now key s).0.0 ≡ false)
      × HasWindow key 1 now (check_rate_limit now key s).1
unfolding check_rate_limit
check_opens key now s h = (
  ground (arith, h),
  ground (arith, h, lookup-insert_self key (record { count = 1; window_start = now }) s.rate),
)

-- When no window is open for an address (none was opened, or the last is over), an attempt after
-- the zero time opens one; of it and of all the attempts from that address in the minute that
-- follows, the first twenty pass and no others.
pub attempts-window :
    (key : Text) (now : ℕ) (later : List ℕ) (s : AuthState)
    → IsClosed key now s
    → 0 < now
    → All (λ t. t ≤ now + rate_limit_window) later
    → (attempts key (now ∷ later) s).0 ≡ min (length (now ∷ later)) rate_limit_max_hits
unfolding attempts
attempts-window key now later s h p q =
    let (e, w) = check_opens key now s h in
    ground
      (arith, e, attempts_left key 1 now later (check_rate_limit now key s).1 w p q (omega arith))

-- An attempt from one address changes nothing for another.
pub check_rate_limit-other :
    (key other : Text) (now : ℕ) (s : AuthState)
    → key ≢ other
    → rate_at other (check_rate_limit now key s).1 ≡ rate_at other s
unfolding check_rate_limit
check_rate_limit-other key other now s h =
    let r : RateState = open_window now (rate_at key s) in
    ground (arith, lookup-insert_ne key other (record r { count = r.count + 1 }) s.rate h)
