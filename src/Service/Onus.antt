-- ===== src/Service/Onus.antt =====
-- internal/service/onu_service.go: which states count as online, and lifetimes that grow with the
-- time that a read took. A duration is an `int64` of nanoseconds.
pub mod Walks
pub mod Names
pub mod Listing
pub mod Detail
pub mod Pons
pub mod Described
pub mod Reading
pub mod Items
pub mod Fetched
pub mod Served
use zzte.Snmp.Parsers.{wrap}
use zzte.Prelude.{
  Bool, arith, eqb_ℤ, if◌then◌else◌, int_eq, ltb_ℤ, min, nat_eq, not, pos, text_eq, ℕ, ℤ, ◌*◌, ◌+ℤ◌,
  ◌+◌, ◌<◌, ◌^◌, ◌||◌, ◌≡◌,
}

-- `isOnlineLikeStatus`
unfoldable pub is_online_like_status : ℤ → Bool
is_online_like_status code =
    eqb_ℤ code (pos 3) || eqb_ℤ code (pos 2) || eqb_ℤ code (pos 8) || eqb_ℤ code (pos 9)

abbrev times_five : ℤ → ℤ
times_five i = i +ℤ i +ℤ i +ℤ i +ℤ i

-- `adaptiveTTL`
unfoldable pub adaptive_ttl : ℤ → ℤ → ℤ
adaptive_ttl base duration =
    if not (ltb_ℤ (pos 0) duration)
    then base
    else (let grown = wrap (base +ℤ wrap (duration +ℤ duration)) in
        let ttl = if ltb_ℤ grown base then base else grown in
        let most = wrap (times_five base) in if ltb_ℤ most ttl then most else ttl)

pub wrap_small : (n : ℕ) → n < 2 ^ 63 → wrap (pos n) ≡ pos n
wrap_small n h = ground arith

-- For a base lifetime below 2 ^ 60 and a duration below 2 ^ 61 nanoseconds, the lifetime is the
-- base and twice the duration, but at most five times the base.
pub adaptive_ttl-eq-min :
    (base duration : ℕ)
    → base < 2 ^ 60
    → duration < 2 ^ 61
    → adaptive_ttl (pos base) (pos duration) ≡ pos (min (base + 2 * duration) (5 * base))
unfolding adaptive_ttl
adaptive_ttl-eq-min base duration h k = ground (
  arith,
  wrap_small (duration + duration),
  wrap_small (base + (duration + duration)),
  wrap_small (base + base + base + base + base),
)
