-- ===== src/Strings.antt =====
-- What the program uses of Go's `strings` package, over bytes. White space and letter case are
-- those of ASCII, so the functions are Go's on ASCII text.
pub mod Replacer
pub mod Trim
pub mod Lower
pub mod Prefix
pub mod Split
pub mod Decimal
use zzte.Prelude.{
  Bool, List, Option, Text, [], arith, false, if◌then◌else◌, int_eq, leb, map, nat_eq, none, some,
  text_eq, true, ℕ, ◌&&◌, ◌++◌, ◌+◌, ◌-◌, ◌==◌, ◌=ᵗ◌, ◌||◌, ◌∷◌,
}

unfoldable pub is_space : ℕ → Bool
is_space c = (leb 9 c && leb c 13) || c == 32

unfoldable pub is_lower : ℕ → Bool
is_lower c = leb b'a' c && leb c b'z'

unfoldable pub is_upper : ℕ → Bool
is_upper c = leb b'A' c && leb c b'Z'

unfoldable pub is_digit : ℕ → Bool
is_digit c = leb b'0' c && leb c b'9'

unfoldable pub lower : ℕ → ℕ
unfolding is_upper
lower c = if is_upper c then c + 32 else c

unfoldable pub upper : ℕ → ℕ
unfolding is_lower
upper c = if is_lower c then c - 32 else c

unfoldable pub to_lower : Text → Text
unfolding lower
to_lower s = map lower s

unfoldable pub to_upper : Text → Text
unfolding upper
to_upper s = map upper s

abbrev pub is_empty {ℓ} : {A : Type ℓ} → List A → Bool
is_empty [] = true
is_empty (c ∷ s) = false

-- Drop the bytes at the front, or at the back, that pass a test.
unfoldable pub trim_left : (ℕ → Bool) → Text → Text
trim_left p [] = []
trim_left p (c ∷ s) = let rest = trim_left p s in if p c then rest else c ∷ s

unfoldable pub trim_right : (ℕ → Bool) → Text → Text
trim_right p [] = []
trim_right p (c ∷ s) = let rest = trim_right p s in if is_empty rest && p c then [] else c ∷ rest

unfoldable pub trim : (ℕ → Bool) → Text → Text
unfolding trim_left trim_right
trim p s = trim_right p (trim_left p s)

-- `strings.TrimSpace`
unfoldable pub trim_space : Text → Text
unfolding trim is_space
trim_space s = trim is_space s

-- What follows the prefix `p` of `s`.
unfoldable pub strip_prefix : Text → Text → Option Text
strip_prefix [] s = some s
strip_prefix (d ∷ p) [] = none
strip_prefix (d ∷ p) (c ∷ s) = if c == d then strip_prefix p s else none

unfoldable pub has_prefix : Text → Text → Bool
unfolding strip_prefix
has_prefix s p = elim (strip_prefix p s) [ none ↦ false | some _ ↦ true ]

-- `strings.TrimPrefix`
unfoldable pub trim_prefix : Text → Text → Text
unfolding strip_prefix
trim_prefix s p = elim (strip_prefix p s) [ none ↦ s | some rest ↦ rest ]

unfoldable pub contains : Text → Text → Bool
unfolding has_prefix
contains [] sub = is_empty sub
contains (c ∷ s) sub = has_prefix (c ∷ s) sub || contains s sub

unfoldable pub has_suffix : Text → Text → Bool
unfolding ◌=ᵗ◌
has_suffix [] p = is_empty p
has_suffix (c ∷ s) p = (c ∷ s) =ᵗ p || has_suffix s p

-- A byte put in front of the first part.
abbrev pub extend : ℕ → List Text → List Text
extend c [] = (c ∷ []) ∷ []
extend c (p ∷ ps) = (c ∷ p) ∷ ps

-- `strings.Split` at one byte.
unfoldable pub split : ℕ → Text → List Text
split sep [] = [] ∷ []
split sep (c ∷ s) = let parts = split sep s in if c == sep then [] ∷ parts else extend c parts

-- `strings.Join` with one byte between the parts.
unfoldable pub join : ℕ → List Text → Text
join sep [] = []
join sep (p ∷ []) = p
join sep (p ∷ q ∷ ps) = p ++ sep ∷ join sep (q ∷ ps)
