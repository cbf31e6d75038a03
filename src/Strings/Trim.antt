-- ===== src/Strings/Trim.antt =====
-- Trimming: what is left neither begins nor ends with a byte of the set.
use zzte.Strings.{is_empty, trim_left, trim_right, trim, trim_space, is_space}
use zzte.Prelude.{
  All, Bool, Bool-cases, Text, [], arith, false, if◌then◌else◌, inl, inr, int_eq, nat_eq, refl,
  text_eq, true, ℕ, ◌&&◌, ◌∷◌, ◌≡◌,
}

-- The text does not begin with a byte that passes the test.
abbrev pub NoHead : (ℕ → Bool) → Text → Type 0
NoHead p [] = Unit
NoHead p (c ∷ s) = p c ≡ false

-- The text does not end with a byte that passes the test.
abbrev pub NoLast : (ℕ → Bool) → Text → Type 0
NoLast p [] = Unit
NoLast p (c ∷ []) = p c ≡ false
NoLast p (c ∷ d ∷ s) = NoLast p (d ∷ s)

module _ (p : ℕ → Bool) where
  trim_left-NoHead : (s : Text) → NoHead p (trim_left p s)
  unfolding trim_left
  trim_left-NoHead [] = tt
  trim_left-NoHead (c ∷ s) = elim (Bool-cases (p c)) [
    | inl e ↦ rw e (trim_left-NoHead s)
    | inr e ↦ rw e e
  ]

  NoLast-cons : (c : ℕ) (t : Text) → NoLast p t → NoLast p (if is_empty t && p c then [] else c ∷ t)
  NoLast-cons c [] h = elim (Bool-cases (p c)) [ inl e ↦ rw e tt | inr e ↦ rw e e ]
  NoLast-cons c (d ∷ t) h = h

  trim_right-NoLast : (s : Text) → NoLast p (trim_right p s)
  unfolding trim_right
  trim_right-NoLast [] = tt
  trim_right-NoLast (c ∷ s) = NoLast-cons c (trim_right p s) (trim_right-NoLast s)

  NoHead-cons :
      (c : ℕ) (t : Text) → p c ≡ false → NoHead p (if is_empty t && p c then [] else c ∷ t)
  NoHead-cons c [] h = rw h h
  NoHead-cons c (d ∷ t) h = h

  trim_right-NoHead : (s : Text) → NoHead p s → NoHead p (trim_right p s)
  unfolding trim_right
  trim_right-NoHead [] h = tt
  trim_right-NoHead (c ∷ s) h = NoHead-cons c (trim_right p s) h

  pub trim-NoHead : (s : Text) → NoHead p (trim p s)
  unfolding trim
  trim-NoHead s = trim_right-NoHead (trim_left p s) (trim_left-NoHead s)

  pub trim-NoLast : (s : Text) → NoLast p (trim p s)
  unfolding trim
  trim-NoLast s = trim_right-NoLast (trim_left p s)

  trim_left_fixed : (s : Text) → NoHead p s → trim_left p s ≡ s
  unfolding trim_left
  trim_left_fixed [] h = refl
  trim_left_fixed (c ∷ s) h = rw h

  trim_right_fixed : (s : Text) → NoLast p s → trim_right p s ≡ s
  unfolding trim_right
  trim_right_fixed [] h = refl
  trim_right_fixed (c ∷ []) h = rw h
  trim_right_fixed (c ∷ d ∷ s) h = ground (arith, trim_right_fixed (d ∷ s) h)

  -- A text that neither begins nor ends with such a byte is left as it is.
  pub trim_fixed : (s : Text) → NoHead p s → NoLast p s → trim p s ≡ s
  unfolding trim
  trim_fixed s h k = rw (trim_left_fixed s h) (trim_right_fixed s k)

  pub trim_idem : (s : Text) → trim p (trim p s) ≡ trim p s
  trim_idem s = trim_fixed (trim p s) (trim-NoHead s) (trim-NoLast s)

  All-trim_left {κ} : (P : ℕ → Type κ) (s : Text) → All P s → All P (trim_left p s)
  unfolding trim_left
  All-trim_left P [] h = tt
  All-trim_left P (c ∷ s) (q, h) = elim (Bool-cases (p c)) [
    | inl e ↦ rw e (All-trim_left P s h)
    | inr e ↦ rw e (q, h)
  ]

  All-cons_if {κ} :
      (P : ℕ → Type κ) (b : Bool) (c : ℕ) (t : Text)
      → P c
      → All P t
      → All P (if b then [] else c ∷ t)
  All-cons_if P true c t q h = tt
  All-cons_if P false c t q h = (q, h)

  All-trim_right {κ} : (P : ℕ → Type κ) (s : Text) → All P s → All P (trim_right p s)
  unfolding trim_right
  All-trim_right P [] h = tt
  All-trim_right P (c ∷ s) (q, h) =
      All-cons_if P (is_empty (trim_right p s) && p c) c (trim_right p s) q (All-trim_right P s h)

  -- Trimming only drops bytes.
  pub All-trim {κ} : (P : ℕ → Type κ) (s : Text) → All P s → All P (trim p s)
  unfolding trim
  All-trim P s h = All-trim_right P (trim_left p s) (All-trim_left P s h)

pub trim_space_idem : (s : Text) → trim_space (trim_space s) ≡ trim_space s
unfolding trim_space
trim_space_idem s = trim_idem is_space s
