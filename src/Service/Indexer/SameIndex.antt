-- ===== src/Service/Indexer/SameIndex.antt =====
-- What each OLT of a sync adds to the index, and when two indices have the same items.
use mathlib.Core.Path.{subst}
use mathlib.Core.Logic.{∥∥₁_prop}
use mathlib.Core.List.{Perm}
use mathlib.Core.List.Permᴰ
use mathlib.Core.List.Perm
use zzte.Domain.{SearchItem, Result, ok, err}
use zzte.Prelude.{
  Bool, List, Option, [], append_assoc, false, if◌then◌else◌, int_eq, nat_eq, none, refl, some,
  text_eq, true, ◌++◌,
}

-- what an OLT adds to the index
abbrev pub added : Option (Result (List SearchItem)) → Option (List SearchItem)
added none = none
added (some (err e)) = some []
added (some (ok items)) = some items

-- the lists one after the other, unless one is missing
unfoldable pub joined :
    Option (List SearchItem) → Option (List SearchItem) → Option (List SearchItem)
joined none rest = none
joined (some items) none = none
joined (some items) (some rest) = some (items ++ rest)

-- Both are missing, or they hold the same items in some order.
abbrev pub IsSameIndex : Option (List SearchItem) → Option (List SearchItem) → Type 0
IsSameIndex none none = Unit
IsSameIndex (some items) (some items') = Perm items items'
IsSameIndex _ _ = ⊥

pub IsSameIndex-prop : (a b : Option (List SearchItem)) → IsProp (IsSameIndex a b)
IsSameIndex-prop none none = λ _ _. refl
IsSameIndex-prop (some items) (some items') = ∥∥₁_prop
IsSameIndex-prop none (some items) = λ x. absurd x
IsSameIndex-prop (some items) none = λ x. absurd x

pub IsSameIndex-refl : (a : Option (List SearchItem)) → IsSameIndex a a
IsSameIndex-refl none = tt
IsSameIndex-refl (some items) = Perm.rfl

pub IsSameIndex-trans :
    (a b c : Option (List SearchItem)) → IsSameIndex a b → IsSameIndex b c → IsSameIndex a c
IsSameIndex-trans none none none h k = tt
IsSameIndex-trans none none (some z) h k = absurd k
IsSameIndex-trans none (some y) c h k = absurd h
IsSameIndex-trans (some x) none c h k = absurd h
IsSameIndex-trans (some x) (some y) none h k = absurd k
IsSameIndex-trans (some x) (some y) (some z) h k = Perm.trans h k

pub IsSameIndex-joined :
    (first a b : Option (List SearchItem))
    → IsSameIndex a b
    → IsSameIndex (joined first a) (joined first b)
unfolding joined
IsSameIndex-joined none a b h = tt
IsSameIndex-joined (some items) none none h = tt
IsSameIndex-joined (some items) none (some y) h = absurd h
IsSameIndex-joined (some items) (some x) none h = absurd h
IsSameIndex-joined (some items) (some x) (some y) h = Perm.append_left items h

pub IsSameIndex-swapped :
    (x y rest : Option (List SearchItem))
    → IsSameIndex (joined x (joined y rest)) (joined y (joined x rest))
unfolding joined
IsSameIndex-swapped none none rest = tt
IsSameIndex-swapped none (some y) rest = tt
IsSameIndex-swapped (some x) none rest = tt
IsSameIndex-swapped (some x) (some y) none = tt
IsSameIndex-swapped (some x) (some y) (some rest) =
    subst (λ l. Perm l (y ++ (x ++ rest))) (append_assoc x y rest)
      (subst (λ l. Perm ((x ++ y) ++ rest) l) (append_assoc y x rest)
        (Perm.append_right rest ∣ Permᴰ.append_comm x y ∣₁))

pub IsSameIndex-joined_left :
    (a b rest : Option (List SearchItem))
    → IsSameIndex a b
    → IsSameIndex (joined a rest) (joined b rest)
unfolding joined
IsSameIndex-joined_left none none rest h = tt
IsSameIndex-joined_left none (some y) rest h = absurd h
IsSameIndex-joined_left (some x) none rest h = absurd h
IsSameIndex-joined_left (some x) (some y) none h = tt
IsSameIndex-joined_left (some x) (some y) (some rest) h = Perm.append_right rest h

pub IsSameIndex-if :
    (b : Bool) (x y z : Option (Result (List SearchItem)))
    → IsSameIndex (added x) (added y)
    → IsSameIndex (added (if b then x else z)) (added (if b then y else z))
IsSameIndex-if true x y z h = h
IsSameIndex-if false x y z h = IsSameIndex-refl (added z)
