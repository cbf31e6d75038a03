-- ===== src/Strings/Decimal/RoundTrip.antt =====
-- Every `int` is read back from its decimal text, and the text holds digits alone.
use native.Mathlib.Nat.{pow-suc}
use zzte.Strings.{is_digit}
use zzte.Strings.Split.{Lacks}
use zzte.Strings.Decimal.{
  put_digits, max_digits, itoa_nat, itoa, scan, scan_some, positive, negative, atoi,
}
use zzte.Prelude.{
  ==_iff, All, Bool, Bool-cases, InRange, Text, [], ap, arith, false, inl, inr, int_eq, lt→ltb,
  nat_eq, negsuc, pos, refl, some, suc, text_eq, true, zero, ℕ, ℤ, ◌%◌, ◌*◌, ◌+◌, ◌/◌, ◌<◌, ◌==◌,
  ◌^◌, ◌∙◌, ◌∷◌, ◌≡◌, ◌≢◌,
}

scan_digit : (n d : ℕ) (out : Text) → d < 10 → scan n ((b'0' + d) ∷ out) ≡ scan (n * 10 + d) out
unfolding scan
scan_digit n d out h = ground arith

scan-put_digits :
    (fuel n : ℕ) (out : Text) → n < 10 ^ fuel → scan 0 (put_digits fuel n out) ≡ scan n out
unfolding put_digits
scan-put_digits zero n out h = ground arith
scan-put_digits (suc fuel) n out h =
    let small : n / 10 < 10 ^ fuel = omega (arith, pow-suc 10 fuel) in
    ground (
      arith,
      scan-put_digits fuel (n / 10) ((b'0' + n % 10) ∷ out) small,
      scan_digit (n / 10) (n % 10) out,
    )

put_digits-ne-nil : (fuel n : ℕ) (out : Text) → out ≢ [] → put_digits fuel n out ≢ []
unfolding put_digits
put_digits-ne-nil zero n out h = h
put_digits-ne-nil (suc fuel) n out h =
    ground (arith, put_digits-ne-nil fuel (n / 10) ((b'0' + n % 10) ∷ out) cc)

scan_some-scan : (s : Text) → s ≢ [] → scan_some s ≡ scan 0 s
unfolding scan_some
scan_some-scan [] h = absurd (h refl)
scan_some-scan (c ∷ s) h = refl

pub itoa_nat-ne-nil : (n : ℕ) → itoa_nat n ≢ []
unfolding itoa_nat put_digits
itoa_nat-ne-nil n = ground (arith, put_digits-ne-nil 19 (n / 10) ((b'0' + n % 10) ∷ []) cc)

scan-itoa_nat : (n : ℕ) → n < 10 ^ 20 → scan_some (itoa_nat n) ≡ some n
scan-itoa_nat n h =
    scan_some-scan _ (itoa_nat-ne-nil n)
    ∙ unfold itoa_nat scan in ground (arith, scan-put_digits 20 n [] h)

-- Only digits are written.
abbrev pub IsDigits : Text → Type 0
IsDigits = All (λ c. is_digit c ≡ true)

pub digit_is_digit : (d : ℕ) → d < 10 → is_digit (b'0' + d) ≡ true
unfolding is_digit
digit_is_digit d h = ground arith

put_digits-IsDigits : (fuel n : ℕ) (out : Text) → IsDigits out → IsDigits (put_digits fuel n out)
unfolding put_digits
put_digits-IsDigits zero n out h = h
put_digits-IsDigits (suc fuel) n out h = elim (Bool-cases (n == 0)) [
  | inl e ↦ rw e h
  | inr e ↦ rw e (
      put_digits-IsDigits fuel (n / 10) ((b'0' + n % 10) ∷ out)
        (digit_is_digit (n % 10) (omega arith), h))
]

pub itoa_nat-IsDigits : (n : ℕ) → IsDigits (itoa_nat n)
unfolding itoa_nat
itoa_nat-IsDigits n = elim (Bool-cases (n == 0)) [
  | inl e ↦ rw e (digit_is_digit 0 (omega arith), tt)
  | inr e ↦ rw e (put_digits-IsDigits max_digits n [] tt)
]

-- No byte outside the digits stands in the text of a number.
Lacks-of_IsDigits : (sep : ℕ) (s : Text) → is_digit sep ≡ false → IsDigits s → Lacks sep s
Lacks-of_IsDigits sep [] h k = tt
Lacks-of_IsDigits sep (c ∷ s) h (q, k) = (differ c (c == sep) refl q, Lacks-of_IsDigits sep s h k)
  where
    differ : (c : ℕ) (b : Bool) → (c == sep) ≡ b → is_digit c ≡ true → b ≡ false
    differ c false e q = refl
    differ c true e q = cc (q, h, ap is_digit ((==_iff c sep).0 e))

pub itoa_nat-Lacks : (sep n : ℕ) → is_digit sep ≡ false → Lacks sep (itoa_nat n)
itoa_nat-Lacks sep n h = Lacks-of_IsDigits sep (itoa_nat n) h (itoa_nat-IsDigits n)

atoi_of_IsDigits : (s : Text) → s ≢ [] → IsDigits s → atoi s ≡ positive (scan_some s)
unfolding atoi is_digit
atoi_of_IsDigits [] h k = absurd (h refl)
atoi_of_IsDigits (c ∷ s) h (q, k) = ground arith

pub atoi-itoa_nat : (n : ℕ) → n < 2 ^ 63 → atoi (itoa_nat n) ≡ some (pos n)
atoi-itoa_nat n h =
    atoi_of_IsDigits _ (itoa_nat-ne-nil n) (itoa_nat-IsDigits n)
    ∙ rw (scan-itoa_nat n (omega arith)) (rw (lt→ltb n (2 ^ 63) h))

atoi_minus : (s : Text) → atoi (b'-' ∷ s) ≡ negative (scan_some s)
unfolding atoi
atoi_minus s = refl

-- Every 64-bit `int`, negative ones too, is read back from its text.
pub atoi-itoa : (i : ℤ) → InRange i → atoi (itoa i) ≡ some i
unfolding itoa
atoi-itoa (pos n) h = atoi-itoa_nat n h
atoi-itoa (negsuc n) h =
    atoi_minus _ ∙ rw (scan-itoa_nat (suc n) (omega arith)) (rw (lt→ltb n (2 ^ 63) h))
