-- ===== src/Strings/Prefix.antt =====
-- Prefixes: stripping one and putting it back.
use zzte.Strings.{strip_prefix, has_prefix, trim_prefix}
use zzte.Prelude.{
  ==_refl, Text, [], arith, int_eq, nat_eq, refl, some, text_eq, true, ◌++◌, ◌∷◌, ◌≡◌,
}

pub strip_prefix-append : (p s : Text) → strip_prefix p (p ++ s) ≡ some s
unfolding strip_prefix
strip_prefix-append [] s = refl
strip_prefix-append (c ∷ p) s = rw (==_refl c) (strip_prefix-append p s)

pub strip_prefix_sound : (p s r : Text) → strip_prefix p s ≡ some r → s ≡ p ++ r
unfolding strip_prefix
strip_prefix_sound [] s r h = cc
strip_prefix_sound (d ∷ p) [] r h = cc
strip_prefix_sound (d ∷ p) (c ∷ s) r h = ground (arith, strip_prefix_sound p s r)

pub trim_prefix-append : (p s : Text) → trim_prefix (p ++ s) p ≡ s
unfolding trim_prefix
trim_prefix-append p s = rw (strip_prefix-append p s, trim_prefix)

pub has_prefix-append : (p s : Text) → has_prefix (p ++ s) p ≡ true
unfolding has_prefix
has_prefix-append p s = rw (strip_prefix-append p s, has_prefix)
