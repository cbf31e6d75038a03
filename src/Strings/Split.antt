-- ===== src/Strings/Split.antt =====
-- Splitting at a byte, and joining.
use zzte.Strings.{extend, split, join}
use zzte.Prelude.{
  ==_refl, All, List, Text, [], arith, false, if◌then◌else◌, int_eq, nat_eq, refl, text_eq, ℕ, ◌++◌,
  ◌==◌, ◌∷◌, ◌≡◌, ◌≢◌,
}

-- No byte of the text is `sep`.
abbrev pub Lacks : ℕ → Text → Type 0
Lacks sep = All (λ c. (c == sep) ≡ false)

split-ne-nil : (sep : ℕ) (s : Text) → split sep s ≢ []
unfolding split
split-ne-nil sep [] = cc
split-ne-nil sep (c ∷ s) = ground arith

join-extend : (sep c : ℕ) (ps : List Text) → join sep (extend c ps) ≡ c ∷ join sep ps
unfolding join
join-extend sep c [] = refl
join-extend sep c (p ∷ []) = refl
join-extend sep c (p ∷ q ∷ ps) = refl

join-nil_cons : (sep : ℕ) (ps : List Text) → ps ≢ [] → join sep ([] ∷ ps) ≡ sep ∷ join sep ps
unfolding join
join-nil_cons sep [] h = absurd (h refl)
join-nil_cons sep (p ∷ ps) h = refl

join_step :
    (sep c : ℕ) (s : Text) (ps : List Text)
    → ps ≢ []
    → join sep ps ≡ s
    → join sep (if c == sep then [] ∷ ps else extend c ps) ≡ c ∷ s
join_step sep c s ps h e = ground (arith, join-nil_cons sep ps h, join-extend sep c ps, e)

-- Joining the parts of a split gives the text back.
pub join-split : (sep : ℕ) (s : Text) → join sep (split sep s) ≡ s
unfolding split join
join-split sep [] = refl
join-split sep (c ∷ s) = join_step sep c s (split sep s) (split-ne-nil sep s) (join-split sep s)

-- A text with no separator is one part, and stands first when a separator follows.
pub split-Lacks : (sep : ℕ) (p : Text) → Lacks sep p → split sep p ≡ p ∷ []
unfolding split
split-Lacks sep [] h = refl
split-Lacks sep (c ∷ p) (e, h) = rw (e, split-Lacks sep p h)

pub split-Lacks_sep :
    (sep : ℕ) (p s : Text) → Lacks sep p → split sep (p ++ sep ∷ s) ≡ p ∷ split sep s
unfolding split
split-Lacks_sep sep [] s h = rw (==_refl sep)
split-Lacks_sep sep (c ∷ p) s (e, h) = rw (e, split-Lacks_sep sep p s h)
