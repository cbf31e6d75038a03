-- ===== src/Strings/Replacer/Laws.antt =====
-- Enough fuel is given, and what a replacement does to text and to an old text.
use zzte.Strings.{strip_prefix}
use zzte.Strings.Prefix.{strip_prefix_sound}
use zzte.Strings.Replacer.{first_match, replace_from, replace}
use zzte.Prelude.{
  All, List, Option-cases, Text, [], ap, arith, inl, inr, int_eq, length, length-append, nat_eq,
  none, refl, some, suc, text_eq, zero, ℕ, ◌++◌, ◌<◌, ◌∷◌, ◌≡◌, ◌≢◌, ◌≤◌,
}

-- No old text is empty.
abbrev pub AreNonEmpty : List (Text × Text) → Type 0
AreNonEmpty = All (λ pair. pair.0 ≢ [])

nonempty-length : (p : Text) → p ≢ [] → 0 < length p
nonempty-length [] h = absurd (h refl)
nonempty-length (c ∷ p) h = omega arith

first_match-shorter :
    (pairs : List (Text × Text)) (s new rest : Text)
    → AreNonEmpty pairs
    → first_match pairs s ≡ some (new, rest)
    → length rest < length s
unfolding first_match
first_match-shorter [] s new rest h e = cc
first_match-shorter ((old, new') ∷ pairs) s new rest (q, h) e =
    elim (Option-cases (strip_prefix old s)) [
      | inl none' ↦ first_match-shorter pairs s new rest h (ground (arith, e, none'))
      | inr (r, found) ↦
          let same : r ≡ rest = ground (arith, e, found) in
          let shape : s ≡ old ++ r = strip_prefix_sound old s r found in
          omega (arith, ap length shape, ap length same, length-append old r, nonempty-length old q)
    ]

-- Any fuel beyond the length of the text gives the same result.
pub replace_from-fuel :
    (pairs : List (Text × Text)) (n m : ℕ) (s : Text)
    → AreNonEmpty pairs
    → length s ≤ n
    → length s ≤ m
    → replace_from pairs n s ≡ replace_from pairs m s
unfolding replace_from
replace_from-fuel pairs zero zero s h p q = refl
replace_from-fuel pairs zero (suc m) [] h p q = refl
replace_from-fuel pairs zero (suc m) (c ∷ s) h p q = absurd (omega arith)
replace_from-fuel pairs (suc n) zero [] h p q = refl
replace_from-fuel pairs (suc n) zero (c ∷ s) h p q = absurd (omega arith)
replace_from-fuel pairs (suc n) (suc m) [] h p q = refl
replace_from-fuel pairs (suc n) (suc m) (c ∷ s) h p q =
    elim (Option-cases (first_match pairs (c ∷ s))) [
      | inl e ↦
          rw (e, replace_from)
            (ap (λ t. c ∷ t) (replace_from-fuel pairs n m s h (omega arith) (omega arith)))
      | inr ((new, rest), e) ↦
          let shorter = first_match-shorter pairs (c ∷ s) new rest h e in
          rw (e, replace_from)
            (ap (λ t. new ++ t) (replace_from-fuel pairs n m rest h (omega arith) (omega arith)))
    ]

-- Where no old text starts, a byte is kept.
pub replace-cons :
    (pairs : List (Text × Text)) (c : ℕ) (s : Text)
    → first_match pairs (c ∷ s) ≡ none
    → replace pairs (c ∷ s) ≡ c ∷ replace pairs s
unfolding replace
replace-cons pairs c s e = rw (e, replace_from) refl

-- Where an old text starts, its new text is written, and the rest is replaced in turn.
pub replace-match :
    (pairs : List (Text × Text)) (s new rest : Text)
    → AreNonEmpty pairs
    → first_match pairs s ≡ some (new, rest)
    → replace pairs s ≡ new ++ replace pairs rest
unfolding replace
replace-match pairs [] new rest h e =
    absurd (omega (arith, first_match-shorter pairs [] new rest h e))
replace-match pairs (c ∷ s) new rest h e =
    let shorter = first_match-shorter pairs (c ∷ s) new rest h e in
    rw (e, replace_from)
      (ap (λ t. new ++ t)
        (replace_from-fuel pairs (length s) (length rest) rest h (omega arith) (omega arith)))
