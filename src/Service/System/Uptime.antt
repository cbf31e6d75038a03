-- ===== src/Service/System/Uptime.antt =====
-- The text of an uptime.
use zzte.Strings.Decimal.{itoa}
use zzte.Service.System.{parse_uptime}
use zzte.Prelude.{
  arith, codes, if◌then◌else◌, int_eq, ltb, nat_eq, pos, refl, text_eq, ℕ, ◌%◌, ◌/◌, ◌*◌, ◌++◌, ◌+◌,
  ◌<◌, ◌≡◌,
}

module _ (days hours minutes ticks : ℕ) (h : hours < 24) (k : minutes < 60) (l : ticks < 6000) where
  all_minutes :
      (((days * 24 + hours) * 60 + minutes) * 6000 + ticks) / 100 / 60
      ≡ (days * 24 + hours) * 60 + minutes
  all_minutes = omega (arith, l)

  all_hours : ((days * 24 + hours) * 60 + minutes) / 60 ≡ days * 24 + hours
  all_hours = omega (arith, k)

  last_minutes : ((days * 24 + hours) * 60 + minutes) % 60 ≡ minutes
  last_minutes = omega (arith, k)

  all_days : (days * 24 + hours) / 24 ≡ days
  all_days = omega (arith, h)

  last_hours : (days * 24 + hours) % 24 ≡ hours
  last_hours = omega (arith, h)

-- An uptime of so many days, hours, minutes and hundredths of a second, each below its bound, is
-- written with its days, hours and minutes, of which leading ones that are zero are left out,
-- minutes excepted.
pub parse_uptime-parts :
    (days hours minutes ticks : ℕ)
    → hours < 24
    → minutes < 60
    → ticks < 6000
    → parse_uptime (pos (((days * 24 + hours) * 60 + minutes) * 6000 + ticks)) ≡ (
        let short = itoa (pos minutes) ++ codes "m" in
        let long = itoa (pos hours) ++ (codes "h " ++ short) in
        if ltb 0 days
        then itoa (pos days) ++ (codes "d " ++ long)
        else if ltb 0 hours
        then long
        else short)
unfolding parse_uptime
parse_uptime-parts days hours minutes ticks h k l =
    rw
      (
        all_minutes days hours minutes ticks h k l,
        all_hours days hours minutes ticks h k l,
        last_minutes days hours minutes ticks h k l,
        all_days days hours minutes ticks h k l,
        last_hours days hours minutes ticks h k l,
      )
      refl
