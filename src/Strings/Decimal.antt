-- ===== src/Strings/Decimal.antt =====
-- `strconv.Itoa` and `strconv.Atoi`: the decimal text of an `int` and back.
pub mod RoundTrip
use zzte.Strings.{is_digit}
use zzte.Prelude.{
  Option, Text, [], arith, if◌then◌else◌, int_eq, ltb, min, nat_eq, negsuc, none, not, pos, some,
  suc, text_eq, zero, ℕ, ℤ, ◌%◌, ◌*◌, ◌+◌, ◌-◌, ◌/◌, ◌==◌, ◌^◌, ◌∷◌,
}

-- The digits of a number in front of `out`, for at most `fuel` digits.
unfoldable pub put_digits : ℕ → ℕ → Text → Text
put_digits zero n out = out
put_digits (suc fuel) n out =
    let rest = put_digits fuel (n / 10) ((b'0' + n % 10) ∷ out) in if n == 0 then out else rest

-- 20 digits hold every 64-bit number.
abbrev pub max_digits : ℕ
max_digits = 20

unfoldable pub itoa_nat : ℕ → Text
itoa_nat n = if n == 0 then b'0' ∷ [] else put_digits max_digits n []

-- `strconv.Itoa`
unfoldable pub itoa : ℤ → Text
unfolding itoa_nat
itoa (pos n) = itoa_nat n
itoa (negsuc n) = b'-' ∷ itoa_nat (suc n)

unfoldable pub scan : ℕ → Text → Option ℕ
unfolding is_digit
scan n [] = some n
scan n (c ∷ s) = if is_digit c then scan (n * 10 + (c - b'0')) s else none

unfoldable pub scan_some : Text → Option ℕ
unfolding scan
scan_some [] = none
scan_some (c ∷ s) = scan 0 (c ∷ s)

abbrev pub positive : Option ℕ → Option ℤ
positive none = none
positive (some n) = if ltb n (2 ^ 63) then some (pos n) else none

abbrev pub negative : Option ℕ → Option ℤ
negative none = none
negative (some zero) = some (pos 0)
negative (some (suc n)) = if ltb n (2 ^ 63) then some (negsuc n) else none

-- `strconv.Atoi`: an optional sign and digits, in the range of an `int`.
unfoldable pub atoi : Text → Option ℤ
unfolding scan_some
atoi [] = none
atoi (c ∷ s) =
    if c == b'-'
    then negative (scan_some s)
    else if c == b'+'
    then positive (scan_some s)
    else positive (scan_some (c ∷ s))

-- The number of the digits as `ParseUint` reads it: 0 for a text that is none, and the largest
-- 64-bit number once it is passed.
unfoldable pub scan_value : ℕ → Text → ℕ
unfolding is_digit
scan_value n [] = n
scan_value n (c ∷ s) =
    let next = n * 10 + (c - b'0') in
    let rest = scan_value next s in
    if not (is_digit c) then 0 else if ltb next (2 ^ 64) then rest else 2 ^ 64 - 1

-- The number that `strconv.Atoi` returns, where its error is not looked at.
unfoldable pub atoi_value : Text → ℤ
unfolding scan_value
atoi_value [] = pos 0
atoi_value (c ∷ s) =
    let most : ℕ = 2 ^ 63 - 1 in
    if c == b'-'
    then (let n = scan_value 0 s in
        if n == 0 then pos 0 else if ltb n (2 ^ 63) then negsuc (n - 1) else negsuc most)
    else if c == b'+'
    then pos (min (scan_value 0 s) most)
    else pos (min (scan_value 0 (c ∷ s)) most)
