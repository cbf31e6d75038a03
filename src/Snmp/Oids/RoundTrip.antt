-- ===== src/Snmp/Oids/RoundTrip.antt =====
-- An ONU's number is read back from the identifier that is built for it.
use zzte.Strings.{strip_prefix, split, is_digit}
use zzte.Strings.Prefix.{strip_prefix-append, strip_prefix_sound}
use zzte.Strings.Split.{split-Lacks, split-Lacks_sep}
use zzte.Strings.Decimal.{itoa_nat, atoi}
use zzte.Strings.Decimal
use zzte.Strings.Decimal.RoundTrip.{itoa_nat-Lacks, itoa_nat-ne-nil, atoi-itoa_nat}
use zzte.Snmp.Oids.{itoa, build_walk_oid, build_onu_oid, first_part, extract_onu_id}
use zzte.Prelude.{
  InRange, Option-cases, Text, [], append-nil, append_assoc, arith, false, inl, inr, int_eq, nat_eq,
  negsuc, pos, refl, some, text_eq, ℕ, ℤ, ◌++◌, ◌-◌, ◌<◌, ◌^◌, ◌∙◌, ◌∷◌, ◌≡◌, ◌≢◌,
}

-- What may follow the ONU's number: nothing, or a further component.
abbrev pub IsSuffix : Text → Type 0
IsSuffix [] = Unit
IsSuffix (c ∷ s) = c ≡ b'.'

dot-not-digit : is_digit b'.' ≡ false
unfolding is_digit
dot-not-digit = refl

itoa-itoa_nat : (n : ℕ) → itoa (pos n) ≡ itoa_nat n
unfolding itoa itoa_nat
itoa-itoa_nat n = refl

first_part_of_number :
    (n : ℕ) (s : Text) → IsSuffix s → first_part (split b'.' (itoa_nat n ++ s)) ≡ itoa_nat n
first_part_of_number n [] h =
    rw (append-nil, split-Lacks b'.' (itoa_nat n) (itoa_nat-Lacks b'.' n dot-not-digit))
first_part_of_number n (c ∷ s) h =
    rw (h, split-Lacks_sep b'.' (itoa_nat n) s (itoa_nat-Lacks b'.' n dot-not-digit))

extract-append :
    (base s : Text) (n : ℕ)
    → n < 2 ^ 63
    → IsSuffix s
    → extract_onu_id ((base ++ b'.' ∷ []) ++ (itoa_nat n ++ s)) base ≡ some (pos n)
unfolding extract_onu_id
extract-append base s n h k =
    rw
      (
        extract_onu_id,
        strip_prefix-append (base ++ b'.' ∷ []) (itoa_nat n ++ s),
        first_part_of_number n s k,
      )
      (ground (arith, itoa_nat-ne-nil n, atoi-itoa_nat n h))

build-shape :
    (base s : Text) (i : ℤ) (n : ℕ)
    → build_onu_oid base i (pos n) s ≡ (build_walk_oid base i ++ b'.' ∷ []) ++ (itoa_nat n ++ s)
unfolding build_onu_oid build_walk_oid
build-shape base [] i n = simp (append_assoc, append-nil, itoa-itoa_nat)
build-shape base (c ∷ s) i n = simp (append_assoc, itoa-itoa_nat)

-- A number below 2 ^ 63 is read back from the identifier that is built with it for a PON port,
-- whatever the base and the port, when the suffix is empty or begins with a dot.
pub extract_onu_id-build_onu_oid :
    (base suffix : Text) (if_index : ℤ) (n : ℕ)
    → n < 2 ^ 63
    → IsSuffix suffix
    → extract_onu_id (build_onu_oid base if_index (pos n) suffix) (build_walk_oid base if_index)
      ≡ some (pos n)
extract_onu_id-build_onu_oid base suffix if_index n h k =
    rw (build-shape base suffix if_index n)
      (extract-append (build_walk_oid base if_index) suffix n h k)

-- A number is only read from an identifier that continues the base by a dot.
pub extract_onu_id-eq-some :
    (full_oid base : Text) (i : ℤ)
    → extract_onu_id full_oid base ≡ some i
    → (rest : Text) × (full_oid ≡ base ++ b'.' ∷ rest)
      × (atoi (first_part (split b'.' rest)) ≡ some i)
unfolding extract_onu_id
extract_onu_id-eq-some full_oid base i h =
    elim (Option-cases (strip_prefix (base ++ b'.' ∷ []) full_oid)) [
      | inl e ↦ ground (arith, e, h)
      | inr (rest, e) ↦ (
        rest,
        strip_prefix_sound _ full_oid rest e ∙ append_assoc base (b'.' ∷ []) rest,
        ground (arith, e, h),
      )
    ]

-- In the range of an `int` the loop of oids.go writes what `strconv.Itoa` writes, except at the
-- least `int`.
pub itoa-eq-strconv : (i : ℤ) → InRange i → i ≢ negsuc (2 ^ 63 - 1) → itoa i ≡ Decimal.itoa i
unfolding itoa Decimal.itoa itoa_nat
itoa-eq-strconv (pos n) h k = refl
itoa-eq-strconv (negsuc n) h k = ground arith
