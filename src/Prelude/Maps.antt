-- ===== src/Prelude/Maps.antt =====
-- Go's maps, as association lists without repeated keys. A range over a map visits the entries in
-- the order of the list; what depends on that order is never stated.
use mathlib.Core.Path.{◌≡◌, refl, subst}
use mathlib.Core.Logic.{◌≢◌}
use mathlib.Core.Bool.{Bool, true, false}
use mathlib.Core.Option.{Option, none, some}
use mathlib.Core.List.{List, [], ◌∷◌}
use native.Mathlib.Omega.{arith}
use zzte.Prelude.Tests.{if◌then◌else◌, Bool-cases}
use zzte.Prelude.Lists.{All}
use Prim.Native.Nat.{ℕ, ◌+◌}
use mathlib.Core.Logic.{inl, inr}
use zzte.Prelude.Classes.{Eq}

abbrev pub Map {ℓ κ} : Type ℓ → Type κ → Type (ℓ ⊔ κ)
Map K V = List (K × V)

pub beq-false_of_ne : {K : Type 0} ⦃e : Eq K⦄ (k j : K) → k ≢ j → e.beq k j ≡ false
beq-false_of_ne ⦃e⦄ k j h = ground (arith, e.beq_iff k j)

module _ {K V : Type 0} ⦃e : Eq K⦄ where
  unfoldable pub lookup : K → Map K V → Option V
  lookup k [] = none
  lookup k ((j, v) ∷ m) = if e.beq j k then some v else lookup k m

  unfoldable pub insert : K → V → Map K V → Map K V
  insert k v [] = (k, v) ∷ []
  insert k v ((j, w) ∷ m) = if e.beq j k then (k, v) ∷ m else (j, w) ∷ insert k v m

  unfoldable pub remove : K → Map K V → Map K V
  remove k [] = []
  remove k ((j, w) ∷ m) = let rest = remove k m in if e.beq j k then rest else (j, w) ∷ rest

  pub lookup-insert :
      (k j : K) (v : V) (m : Map K V)
      → lookup j (insert k v m) ≡ (if e.beq k j then some v else lookup j m)
  unfolding lookup insert
  lookup-insert k j v [] = refl
  lookup-insert k j v ((i, w) ∷ m) =
      ground (arith, e.beq_iff k j, e.beq_iff i k, e.beq_iff i j, lookup-insert k j v m)

  pub lookup-remove :
      (k j : K) (m : Map K V) → lookup j (remove k m) ≡ (if e.beq k j then none else lookup j m)
  unfolding lookup remove
  lookup-remove k j [] = ground arith
  lookup-remove k j ((i, w) ∷ m) =
      ground (arith, e.beq_iff k j, e.beq_iff i k, e.beq_iff i j, lookup-remove k j m)

  pub lookup-insert_self : (k : K) (v : V) (m : Map K V) → lookup k (insert k v m) ≡ some v
  lookup-insert_self k v m = rw (lookup-insert k k v m, (e.beq_iff k k).1 refl)

  pub lookup-remove_self : (k : K) (m : Map K V) → lookup k (remove k m) ≡ none
  lookup-remove_self k m = rw (lookup-remove k k m, (e.beq_iff k k).1 refl)

  pub lookup-insert_ne :
      (k j : K) (v : V) (m : Map K V) → k ≢ j → lookup j (insert k v m) ≡ lookup j m
  lookup-insert_ne k j v m h = rw (lookup-insert k j v m, beq-false_of_ne k j h)

  pub lookup-remove_ne : (k j : K) (m : Map K V) → k ≢ j → lookup j (remove k m) ≡ lookup j m
  lookup-remove_ne k j m h = rw (lookup-remove k j m, beq-false_of_ne k j h)

  -- No key stands twice.
  abbrev pub UniqueKeys : Map K V → Type 0
  UniqueKeys [] = Unit
  UniqueKeys ((k, v) ∷ m) = (lookup k m ≡ none) × UniqueKeys m

  UniqueKeys-cons :
      (b : Bool) (j : K) (w : V) (m rest : Map K V)
      → (b ≡ true → UniqueKeys m)
      → (b ≡ false → (lookup j rest ≡ none) × UniqueKeys rest)
      → UniqueKeys (if b then m else (j, w) ∷ rest)
  UniqueKeys-cons true j w m rest h k = h refl
  UniqueKeys-cons false j w m rest h k = k refl

  pub insert-UniqueKeys : (k : K) (v : V) (m : Map K V) → UniqueKeys m → UniqueKeys (insert k v m)
  unfolding insert
  insert-UniqueKeys k v [] h = (unfold lookup in refl, tt)
  insert-UniqueKeys k v ((j, w) ∷ m) (q, h) =
      UniqueKeys-cons (e.beq j k) j w ((k, v) ∷ m) (insert k v m)
        (λ same. (rw (← (e.beq_iff j k).0 same) q, h))
        (λ other. (
          ground (arith, lookup-insert k j v m, e.beq_iff j k, e.beq_iff k j),
          insert-UniqueKeys k v m h,
        ))

  pub remove-UniqueKeys : (k : K) (m : Map K V) → UniqueKeys m → UniqueKeys (remove k m)
  unfolding remove
  remove-UniqueKeys k [] h = tt
  remove-UniqueKeys k ((j, w) ∷ m) (q, h) =
      UniqueKeys-cons (e.beq j k) j w (remove k m) (remove k m) (λ same. remove-UniqueKeys k m h)
        (λ other. (
          ground (arith, lookup-remove k j m, e.beq_iff j k, e.beq_iff k j),
          remove-UniqueKeys k m h,
        ))

module _ {K V : Type 0} where
  -- How many entries have a value that passes the test.
  unfoldable pub count_values : (V → Bool) → Map K V → ℕ
  count_values p [] = 0
  count_values p ((k, v) ∷ m) = (if p v then 1 else 0) + count_values p m

abbrev pub one : {V : Type 0} → (V → Bool) → Option V → ℕ
one p none = 0
one p (some v) = if p v then 1 else 0

module _ {K V : Type 0} ⦃e : Eq K⦄ (p : V → Bool) where
  count_values-remove-none :
      (k : K) (m : Map K V) → lookup k m ≡ none → count_values p (remove k m) ≡ count_values p m
  unfolding count_values remove lookup
  count_values-remove-none k [] h = refl
  count_values-remove-none k ((j, v) ∷ m) h = ground (arith, count_values-remove-none k m)

  pub count_values-remove :
      (k : K) (m : Map K V)
      → UniqueKeys m
      → count_values p (remove k m) + one p (lookup k m) ≡ count_values p m
  unfolding count_values remove lookup
  count_values-remove k [] h = refl
  count_values-remove k ((j, v) ∷ m) (q, h) =
      ground (arith, e.beq_iff j k, count_values-remove k m h, count_values-remove-none k m, q)

  pub count_values-insert :
      (k : K) (v : V) (m : Map K V)
      → count_values p (insert k v m) + one p (lookup k m) ≡ count_values p m + one p (some v)
  unfolding count_values insert lookup
  count_values-insert k v [] = ground arith
  count_values-insert k v ((j, w) ∷ m) = ground (arith, count_values-insert k v m)

module _ {K V : Type 0} ⦃e : Eq K⦄ (P : K × V → Type 0) where
  pub All-insert : (k : K) (v : V) (m : Map K V) → P (k, v) → All P m → All P (insert k v m)
  unfolding insert
  All-insert k v [] p h = (p, tt)
  All-insert k v ((j, w) ∷ m) p (q, h) = elim (Bool-cases (e.beq j k)) [
    | inl b ↦ rw b (p, h)
    | inr b ↦ rw b (q, All-insert k v m p h)
  ]

  pub All-remove : (k : K) (m : Map K V) → All P m → All P (remove k m)
  unfolding remove
  All-remove k [] h = tt
  All-remove k ((j, w) ∷ m) (q, h) = elim (Bool-cases (e.beq j k)) [
    | inl b ↦ rw b (All-remove k m h)
    | inr b ↦ rw b (q, All-remove k m h)
  ]

  pub All-lookup : (k : K) (v : V) (m : Map K V) → All P m → lookup k m ≡ some v → P (k, v)
  unfolding lookup
  All-lookup k v [] h l = cc
  All-lookup k v ((j, w) ∷ m) (q, h) l = elim (Bool-cases (e.beq j k)) [
    | inl b ↦ subst P (ground (arith, e.beq_iff j k, l, b)) q
    | inr b ↦ All-lookup k v m h (ground (arith, l, b))
  ]
