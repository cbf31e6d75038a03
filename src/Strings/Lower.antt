-- ===== src/Strings/Lower.antt =====
-- Letter case and trimming: a change of case moves no white space.
use zzte.Strings.{
  is_empty, is_space, is_lower, is_upper, lower, upper, to_lower, to_upper, trim_left, trim_right,
  trim, trim_space,
}
use zzte.Prelude.{
  Bool, Bool-cases, Text, [], ap, arith, inl, inr, int_eq, map, nat_eq, refl, text_eq, ℕ, ◌&&◌, ◌∙◌,
  ◌∷◌, ◌≡◌,
}

module _ (p : ℕ → Bool) (f : ℕ → ℕ) (same : (c : ℕ) → p (f c) ≡ p c) where
  trim_left-map : (s : Text) → trim_left p (map f s) ≡ map f (trim_left p s)
  unfolding trim_left
  trim_left-map [] = refl
  trim_left-map (c ∷ s) = elim (Bool-cases (p c)) [
    | inl e ↦ rw (same c, e) (trim_left-map s)
    | inr e ↦ rw (same c, e) refl
  ]

  is_empty-map : (s : Text) → is_empty (map f s) ≡ is_empty s
  is_empty-map [] = refl
  is_empty-map (c ∷ s) = refl

  trim_right-map : (s : Text) → trim_right p (map f s) ≡ map f (trim_right p s)
  unfolding trim_right
  trim_right-map [] = refl
  trim_right-map (c ∷ s) = elim (Bool-cases (is_empty (trim_right p s) && p c)) [
    | inl e ↦ rw (trim_right-map s, is_empty-map (trim_right p s), same c, e) refl
    | inr e ↦ rw (trim_right-map s, is_empty-map (trim_right p s), same c, e) refl
  ]

  trim-map : (s : Text) → trim p (map f s) ≡ map f (trim p s)
  unfolding trim
  trim-map s = ap (trim_right p) (trim_left-map s) ∙ trim_right-map (trim_left p s)

is_space-lower : (c : ℕ) → is_space (lower c) ≡ is_space c
unfolding is_space lower is_upper
is_space-lower c = ground arith

upper-lower : (c : ℕ) → upper (lower c) ≡ upper c
unfolding upper lower is_upper is_lower
upper-lower c = ground arith

to_upper-to_lower : (s : Text) → to_upper (to_lower s) ≡ to_upper s
unfolding to_upper to_lower
to_upper-to_lower [] = refl
to_upper-to_lower (c ∷ s) = rw (upper-lower c) (ap (λ t. upper c ∷ t) (to_upper-to_lower s))

-- Trimmed and in upper case, a text and the same text in lower case are the same.
pub to_upper-trim_space-to_lower :
    (s : Text) → to_upper (trim_space (to_lower s)) ≡ to_upper (trim_space s)
unfolding trim_space to_lower
to_upper-trim_space-to_lower s =
    ap to_upper (trim-map is_space lower is_space-lower s) ∙ to_upper-to_lower (trim is_space s)
