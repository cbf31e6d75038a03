-- ===== src/Prelude/Classes.antt =====
-- Equality tests on keys, as an interface, and texts as lists of bytes.
use Prim.Native.Nat.{ℕ}
use Prim.Native.Char.{code}
use Prim.Native.String.{String}
use mathlib.Core.Path.{◌≡◌, refl}
use mathlib.Core.Logic.{◌↔◌}
use mathlib.Core.Bool.{Bool, true, false, ◌&&◌}
use mathlib.Core.List.{List, [], ◌∷◌}
use native.Mathlib.Omega.{arith}
use zzte.Prelude.Tests.{◌==◌, ==_iff}
use zzte.Prelude.Int.{ℤ, eqb_ℤ}

pub record Eq {ℓ} (A : Type ℓ) : Type ℓ where
  pub beq : A → A → Bool
  pub beq_iff : (a b : A) → (beq a b ≡ true) ↔ (a ≡ b)

-- A Go string: its bytes.
abbrev pub Text : Type 0
Text = List ℕ

-- The bytes of an ASCII literal.
abbrev pub codes : String → Text
codes String.[] = []
codes (String.◌∷◌ c s) = code c ∷ codes s

infix 50 ◌=ᵗ◌
unfoldable pub ◌=ᵗ◌ : Text → Text → Bool
[] =ᵗ [] = true
[] =ᵗ (d ∷ t) = false
(c ∷ s) =ᵗ [] = false
(c ∷ s) =ᵗ (d ∷ t) = c == d && s =ᵗ t

pub =ᵗ_iff : (s t : Text) → ((s =ᵗ t) ≡ true) ↔ (s ≡ t)
unfolding ◌=ᵗ◌
=ᵗ_iff [] [] = (λ _. refl, λ _. refl)
=ᵗ_iff [] (d ∷ t) = (λ h. cc, λ h. cc)
=ᵗ_iff (c ∷ s) [] = (λ h. cc, λ h. cc)
=ᵗ_iff (c ∷ s) (d ∷ t) = ground (arith, =ᵗ_iff s t)

pub =ᵗ_refl : (s : Text) → (s =ᵗ s) ≡ true
=ᵗ_refl s = (=ᵗ_iff s s).1 refl

instance abbrev pub text_eq : Eq Text
text_eq = record { beq = ◌=ᵗ◌; beq_iff = =ᵗ_iff }

instance abbrev pub nat_eq : Eq ℕ
nat_eq = record { beq = ◌==◌; beq_iff = ==_iff }

pub eqb_ℤ_iff : (a b : ℤ) → (eqb_ℤ a b ≡ true) ↔ (a ≡ b)
eqb_ℤ_iff a b = ground arith

instance abbrev pub int_eq : Eq ℤ
int_eq = record { beq = eqb_ℤ; beq_iff = eqb_ℤ_iff }
