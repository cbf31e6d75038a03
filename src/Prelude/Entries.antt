-- ===== src/Prelude/Entries.antt =====
-- Sorted lists made of the entries of a map, under their keys.
use mathlib.Core.Path.{◌≡◌, refl, ap, ◌∙◌}
use mathlib.Core.Logic.{◌≢◌, inl, inr}
use mathlib.Core.Option.{Option, none, some}
use mathlib.Core.List.{[], ◌∷◌, map}
use native.Mathlib.Omega.{arith}
use zzte.Prelude.Tests.{Bool-cases}
use zzte.Prelude.Int.{ℤ, eqb_ℤ}
use zzte.Prelude.Classes.{int_eq, eqb_ℤ_iff}
use zzte.Prelude.Lists.{All}
use zzte.Prelude.Maps.{Map, lookup, UniqueKeys}
use zzte.Prelude.Sort.{
  sort_by, IsAscending, IsDistinct, sort_by-IsAscending, find_by, find_by-sort_by,
}

module _ {V B : Type 0} (key : B → ℤ) (f : ℤ × V → B) (same : (e : ℤ × V) → key (f e) ≡ e.0) where
  others-differ :
      (e : ℤ × V) (m : Map ℤ V) → lookup e.0 m ≡ none → All (λ b. key (f e) ≢ key b) (map f m)
  unfolding lookup
  others-differ e [] h = tt
  others-differ e (d ∷ m) h = (
    (λ equal. ground (arith, eqb_ℤ_iff d.0 e.0, h, same e, same d, equal)),
    others-differ e m (ground (arith, h)),
  )

  entries-IsDistinct : (m : Map ℤ V) → UniqueKeys m → IsDistinct key (map f m)
  entries-IsDistinct [] u = tt
  entries-IsDistinct ((n, v) ∷ m) (h, u) = (others-differ (n, v) m h, entries-IsDistinct m u)

  -- Without a key twice, the sorted entries ascend.
  pub entries-IsAscending : (m : Map ℤ V) → UniqueKeys m → IsAscending key (sort_by key (map f m))
  entries-IsAscending m u = sort_by-IsAscending key (map f m) (entries-IsDistinct m u)

  -- the entry of a key
  abbrev pub entry_of : ℤ → Option V → Option B
  entry_of n none = none
  entry_of n (some v) = some (f (n, v))

  find_by-entries : (n : ℤ) (m : Map ℤ V) → find_by key n (map f m) ≡ entry_of n (lookup n m)
  unfolding lookup
  find_by-entries n [] = refl
  find_by-entries n ((j, v) ∷ m) = elim (Bool-cases (eqb_ℤ j n)) [
    | inl e ↦ rw (same (j, v), e, lookup) (ap (λ k. some (f (k, v))) ((eqb_ℤ_iff j n).0 e))
    | inr e ↦ rw (same (j, v), e, lookup) (find_by-entries n m)
  ]

  -- What is found by a key is its entry.
  pub find_by-sorted_entries :
      (n : ℤ) (m : Map ℤ V) → find_by key n (sort_by key (map f m)) ≡ entry_of n (lookup n m)
  find_by-sorted_entries n m = find_by-sort_by key n (map f m) ∙ find_by-entries n m
