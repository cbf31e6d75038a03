-- ===== src/Strings/Replacer.antt =====
-- `strings.NewReplacer(...).Replace`: at each position the first pair whose old text stands there,
-- in the order of the arguments.
pub mod Laws
use zzte.Strings.{strip_prefix}
use zzte.Prelude.{
  List, Option, Text, [], arith, int_eq, length, nat_eq, none, some, suc, text_eq, zero, ℕ, ◌++◌,
  ◌∷◌,
}

-- The first pair whose old text starts the given text, with its new text and what follows.
unfoldable pub first_match : List (Text × Text) → Text → Option (Text × Text)
first_match [] s = none
first_match ((old, new) ∷ pairs) s = elim (strip_prefix old s) [
  | some rest ↦ some (new, rest)
  | none ↦ first_match pairs s
]

-- On fuel: every step leaves a shorter text, when no old text is empty.
unfoldable pub replace_from : List (Text × Text) → ℕ → Text → Text
replace_from pairs zero s = s
replace_from pairs (suc fuel) [] = []
replace_from pairs (suc fuel) (c ∷ s) = elim (first_match pairs (c ∷ s)) [
  | none ↦ c ∷ replace_from pairs fuel s
  | some (new, rest) ↦ new ++ replace_from pairs fuel rest
]

unfoldable pub replace : List (Text × Text) → Text → Text
unfolding replace_from
replace pairs s = replace_from pairs (length s) s
