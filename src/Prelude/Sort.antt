-- ===== src/Prelude/Sort.antt =====
-- Sorting by an integer key, as `sort.Slice` does. Go leaves the order of equal keys open; here
-- they keep theirs.
use Prim.Native.Nat.{◌+◌, ◌<◌}
use mathlib.Core.Path.{◌≡◌, refl, ap, ◌∙◌}
use mathlib.Core.Logic.{◌≢◌, inl, inr}
use mathlib.Core.Option.{Option, none, some}
use mathlib.Core.List.{List, [], ◌∷◌, map, Perm}
use mathlib.Core.List.Perm
use native.Mathlib.Omega.{arith}
use zzte.Prelude.Tests.{if◌then◌else◌, Bool-cases}
use zzte.Prelude.Int.{ℤ, pos_part, neg_part, ltb_ℤ, eqb_ℤ}
use zzte.Prelude.Lists.{All}

infix 50 ◌<ℤ◌
abbrev pub ◌<ℤ◌ : ℤ → ℤ → Type 0
a <ℤ b = pos_part a + neg_part b < pos_part b + neg_part a

module _ {A : Type 0} (key : A → ℤ) where
  unfoldable pub insert_by : A → List A → List A
  insert_by x [] = x ∷ []
  insert_by x (y ∷ ys) = if ltb_ℤ (key y) (key x) then y ∷ insert_by x ys else x ∷ y ∷ ys

  unfoldable pub sort_by : List A → List A
  sort_by [] = []
  sort_by (x ∷ xs) = insert_by x (sort_by xs)

  -- The keys grow from each element to every later one.
  abbrev pub IsAscending : List A → Type 0
  IsAscending [] = Unit
  IsAscending (x ∷ xs) = All (λ y. key x <ℤ key y) xs × IsAscending xs

  -- No two elements have the same key.
  abbrev pub IsDistinct : List A → Type 0
  IsDistinct [] = Unit
  IsDistinct (x ∷ xs) = All (λ y. key x ≢ key y) xs × IsDistinct xs

module _ {A : Type 0} (key : A → ℤ) (P : A → Type 0) where
  All-insert_by : (x : A) (l : List A) → P x → All P l → All P (insert_by key x l)
  unfolding insert_by
  All-insert_by x [] p h = (p, tt)
  All-insert_by x (y ∷ ys) p (q, h) = elim (Bool-cases (ltb_ℤ (key y) (key x))) [
    | inl b ↦ rw b (q, All-insert_by x ys p h)
    | inr b ↦ rw b (p, (q, h))
  ]

  pub All-sort_by : (l : List A) → All P l → All P (sort_by key l)
  unfolding sort_by
  All-sort_by [] h = tt
  All-sort_by (x ∷ xs) (p, h) = All-insert_by x (sort_by key xs) p (All-sort_by xs h)

module _ {A : Type 0} (key : A → ℤ) where
  above_all :
      (x y : A) (l : List A)
      → key x <ℤ key y
      → All (λ z. key y <ℤ key z) l
      → All (λ z. key x <ℤ key z) l
  above_all x y [] h k = tt
  above_all x y (z ∷ zs) h (p, k) = (omega arith, above_all x y zs h k)

  insert_by-IsAscending :
      (x : A) (l : List A)
      → All (λ y. key x ≢ key y) l
      → IsAscending key l
      → IsAscending key (insert_by key x l)
  unfolding insert_by
  insert_by-IsAscending x [] d h = (tt, tt)
  insert_by-IsAscending x (y ∷ ys) (n, d) (b, h) = elim (Bool-cases (ltb_ℤ (key y) (key x))) [
    | inl e ↦ rw e (
      All-insert_by key (λ z. key y <ℤ key z) x ys (ground (arith, e)) b,
      insert_by-IsAscending x ys d h,
    )
    | inr e ↦
        let less : key x <ℤ key y = ground (arith, e, n) in
        rw e ((less, above_all x y ys less b), (b, h))
  ]

  -- Distinct keys are sorted to growing ones.
  pub sort_by-IsAscending : (l : List A) → IsDistinct key l → IsAscending key (sort_by key l)
  unfolding sort_by
  sort_by-IsAscending [] d = tt
  sort_by-IsAscending (x ∷ xs) (n, d) =
      insert_by-IsAscending x (sort_by key xs) (All-sort_by key (λ y. key x ≢ key y) xs n)
        (sort_by-IsAscending xs d)

  insert_by-perm : (x : A) (l : List A) → Perm (insert_by key x l) (x ∷ l)
  unfolding insert_by
  insert_by-perm x [] = Perm.rfl
  insert_by-perm x (y ∷ ys) = elim (Bool-cases (ltb_ℤ (key y) (key x))) [
    | inl b ↦ rw b (Perm.trans (Perm.cons y (insert_by-perm x ys)) (Perm.swap x y ys))
    | inr b ↦ rw b Perm.rfl
  ]

  -- Sorting rearranges.
  pub sort_by-perm : (l : List A) → Perm (sort_by key l) l
  unfolding sort_by
  sort_by-perm [] = Perm.rfl
  sort_by-perm (x ∷ xs) =
      Perm.trans (insert_by-perm x (sort_by key xs)) (Perm.cons x (sort_by-perm xs))

module _ {A : Type 0} (key : A → ℤ) where
  -- the first element with the key
  abbrev pub find_by : ℤ → List A → Option A
  find_by k [] = none
  find_by k (x ∷ xs) = if eqb_ℤ (key x) k then some x else find_by k xs

  find_by-insert_by :
      (k : ℤ) (x : A) (l : List A)
      → find_by k (insert_by key x l) ≡ (if eqb_ℤ (key x) k then some x else find_by k l)
  unfolding insert_by
  find_by-insert_by k x [] = refl
  find_by-insert_by k x (y ∷ ys) = ground (arith, find_by-insert_by k x ys)

  -- Sorting leaves the first element of each key.
  pub find_by-sort_by : (k : ℤ) (l : List A) → find_by k (sort_by key l) ≡ find_by k l
  unfolding sort_by
  find_by-sort_by k [] = refl
  find_by-sort_by k (x ∷ xs) =
      find_by-insert_by k x (sort_by key xs)
      ∙ ap (λ r. if eqb_ℤ (key x) k then some x else r) (find_by-sort_by k xs)

module _ {A B : Type 0} (key : A → ℤ) (key' : B → ℤ) (f : A → B)
    (same : (a : A) → key' (f a) ≡ key a) where
  All-above-map :
      (x : A) (l : List A) → All (λ y. key x <ℤ key y) l → All (λ y. key' (f x) <ℤ key' y) (map f l)
  All-above-map x [] h = tt
  All-above-map x (y ∷ ys) (p, h) = (rw (same x, same y) p, All-above-map x ys h)

  -- A map that keeps the keys keeps their order, and what is found by them.
  pub IsAscending-map : (l : List A) → IsAscending key l → IsAscending key' (map f l)
  IsAscending-map [] h = tt
  IsAscending-map (x ∷ xs) (p, h) = (All-above-map x xs p, IsAscending-map xs h)

  pub find_by-map :
      (k : ℤ) (l : List A)
      → find_by key' k (map f l) ≡ (elim (find_by key k l) [ none ↦ none | some a ↦ some (f a) ])
  find_by-map k [] = refl
  find_by-map k (x ∷ xs) = elim (Bool-cases (eqb_ℤ (key x) k)) [
    | inl e ↦ rw (same x, e) refl
    | inr e ↦ rw (same x, e) (find_by-map k xs)
  ]
