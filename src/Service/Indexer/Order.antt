-- ===== src/Service/Indexer/Order.antt =====
-- The order in which the goroutines of `SyncAll` end.
use mathlib.Core.Path.{subst}
use mathlib.Core.Logic.{∥∥₁_elim}
use mathlib.Core.List.{Perm, Permᴰ}
use mathlib.Core.List.Perm
use zzte.Domain.{OltInstance, SearchItem, Result, Result-cases, ok, err, message, deadline_exceeded}
use zzte.Service.Manager.Registry.{olts-lock_of}
use zzte.Service.Manager.{OltManager, Devices, get_new_client, lock_of}
use zzte.Snmp.Client.{Agent, walk}
use zzte.Snmp.Oids.{oid_onu_status}
use zzte.Service.Indexer.{
  TempOnu, read_statuses, add_names, add_serials, to_search_item, walk_items, walk_olt,
  append_found, collect_items,
}
use zzte.Service.Indexer.SameIndex.{
  IsSameIndex, IsSameIndex-if, IsSameIndex-joined, IsSameIndex-joined_left, IsSameIndex-prop,
  IsSameIndex-swapped, IsSameIndex-trans, added, joined,
}
use zzte.Prelude.{
  Bool, Bool-cases, List, Map, Option, Option-cases, Text, [], ap, if◌then◌else◌, inl, inr, int_eq,
  nat_eq, none, not, refl, some, sym, text_eq, ◌∙◌, ◌∷◌, ◌≡◌,
}

get_new_client-olts :
    (olt_id : Text) (m n : OltManager)
    → m.olts ≡ n.olts
    → get_new_client olt_id m ≡ get_new_client olt_id n
unfolding get_new_client
get_new_client-olts olt_id m n h = rw (h, get_new_client) refl

-- Whatever the order of a range over a map, it visits each entry once.
abbrev pub Permutes : (Text → Map Text TempOnu → Map Text TempOnu) → Type 0
Permutes ranged = (olt_id : Text) (onus : Map Text TempOnu) → Perm (ranged olt_id onus) onus

module _ (devices : Devices) (acquired : Text → Bool)
    (ranged : Text → Map Text TempOnu → Map Text TempOnu) where
  -- what a walk answers, by the registry
  answer : Text → OltManager → Option (Result (List SearchItem))
  answer olt_id m =
      if not (acquired olt_id)
      then some (err deadline_exceeded)
      else elim (get_new_client olt_id m) [
        | err e ↦ some (err e)
        | ok client ↦
            if (devices client).connects
            then walk_items (ranged olt_id) (devices client) olt_id
            else some (err (message "failed to connect for indexing"))
      ]

  walk_olt-answer :
      (olt_id : Text) (m : OltManager)
      → walk_olt devices acquired ranged olt_id m ≡ ((lock_of olt_id m).1, answer olt_id m)
  unfolding walk_olt answer
  walk_olt-answer olt_id m =
      let same = get_new_client-olts olt_id (lock_of olt_id m).1 m (olts-lock_of olt_id m) in
      elim (Bool-cases (acquired olt_id)) [
        | inr b ↦ rw (b, walk_olt) refl
        | inl b ↦ elim (Result-cases (get_new_client olt_id m)) [
          | inr (x, e) ↦ rw (b, same, e, walk_olt) refl
          | inl (client, e) ↦ elim (Bool-cases (devices client).connects) [
            | inl k ↦ rw (b, same, e, k, walk_olt) refl
            | inr k ↦ rw (b, same, e, k, walk_olt) refl
          ]
        ]
      ]

  answer-olts :
      (olt_id : Text) (m n : OltManager) → m.olts ≡ n.olts → answer olt_id m ≡ answer olt_id n
  unfolding answer
  answer-olts olt_id m n h = rw (get_new_client-olts olt_id m n h) refl

  -- The index that one OLT after the other gives, by the registry as it is at first.
  unfoldable pub index_of : OltManager → List OltInstance → Option (List SearchItem)
  unfolding answer joined
  index_of m [] = some []
  index_of m (olt ∷ olts) = joined (added (answer olt.id m)) (index_of m olts)

  index_of-olts :
      (m n : OltManager) (olts : List OltInstance)
      → m.olts ≡ n.olts
      → index_of m olts ≡ index_of n olts
  unfolding index_of
  index_of-olts m n [] h = refl
  index_of-olts m n (olt ∷ olts) h = rw (answer-olts olt.id m n h, index_of-olts m n olts h) refl

  append_found-joined :
      (a : Option (Result (List SearchItem))) (m : OltManager)
      (later : OltManager × Option (List SearchItem))
      → (append_found a m later).1 ≡ joined (added a) later.1
  unfolding joined
  append_found-joined none m later = refl
  append_found-joined (some (err _)) m later = elim (Option-cases later.1) [
    | inl e ↦ rw e refl
    | inr (items, e) ↦ rw e refl
  ]
  append_found-joined (some (ok found)) m later = elim (Option-cases later.1) [
    | inl e ↦ rw e refl
    | inr (items, e) ↦ rw e refl
  ]

  pub collect_items-eq-index_of :
      (m : OltManager) (olts : List OltInstance)
      → (collect_items devices acquired ranged olts m).1 ≡ index_of m olts
  unfolding collect_items index_of
  collect_items-eq-index_of m [] = refl
  collect_items-eq-index_of m (olt ∷ olts) =
      let state = ap (λ r. r.0) (walk_olt-answer olt.id m) in
      append_found-joined (walk_olt devices acquired ranged olt.id m).1
        (walk_olt devices acquired ranged olt.id m).0
        (collect_items devices acquired ranged olts (walk_olt devices acquired ranged olt.id m).0)
      ∙ rw
          (
            ap (λ r. r.1) (walk_olt-answer olt.id m),
            collect_items-eq-index_of (walk_olt devices acquired ranged olt.id m).0 olts,
            index_of-olts (walk_olt devices acquired ranged olt.id m).0 m olts
                (ap (λ n. n.olts) state ∙ olts-lock_of olt.id m),
          )
          refl

module _ (ranged ranged' : Text → Map Text TempOnu → Map Text TempOnu) (perm : Permutes ranged)
    (perm' : Permutes ranged') where
  walk_items-perm :
      (agent : Agent) (olt_id : Text)
      → IsSameIndex
          (added (walk_items (ranged olt_id) agent olt_id))
          (added (walk_items (ranged' olt_id) agent olt_id))
  unfolding walk_items
  walk_items-perm agent olt_id = elim (Result-cases (walk agent oid_onu_status)) [
    | inr (x, e) ↦ rw (e, walk_items) Perm.rfl
    | inl (statuses, e) ↦
        elim (Option-cases (add_serials agent (add_names agent (read_statuses statuses [])))) [
          | inl k ↦ rw (e, k, walk_items) tt
          | inr (onus, k) ↦
              rw (e, k, walk_items)
                (Perm.map (λ entry. to_search_item olt_id entry.1)
                  (Perm.trans (perm olt_id onus) (Perm.symm (perm' olt_id onus))))
        ]
  ]

  module _ (devices : Devices) (acquired : Text → Bool) (m : OltManager) where
    answer-perm :
        (olt_id : Text)
        → IsSameIndex
            (added (answer devices acquired ranged olt_id m))
            (added (answer devices acquired ranged' olt_id m))
    unfolding answer
    answer-perm olt_id = elim (Bool-cases (acquired olt_id)) [
      | inr b ↦ rw b Perm.rfl
      | inl b ↦ elim (Result-cases (get_new_client olt_id m)) [
        | inr (x, e) ↦ rw (b, e) Perm.rfl
        | inl (client, e) ↦
            rw (b, e)
              (IsSameIndex-if (devices client).connects _ _ _
                (walk_items-perm (devices client) olt_id))
      ]
    ]

    index_of-ranged :
        (olts : List OltInstance)
        → IsSameIndex
            (index_of devices acquired ranged m olts)
            (index_of devices acquired ranged' m olts)
    unfolding index_of
    index_of-ranged [] = Perm.rfl
    index_of-ranged (olt ∷ olts) =
        IsSameIndex-trans _ _ _
          (IsSameIndex-joined_left _ _ (index_of devices acquired ranged m olts)
            (answer-perm olt.id))
          (IsSameIndex-joined (added (answer devices acquired ranged' olt.id m)) _ _
            (index_of-ranged olts))

module _ (devices : Devices) (acquired : Text → Bool)
    (ranged : Text → Map Text TempOnu → Map Text TempOnu) (m : OltManager) where
  index_of-perm :
      {order order' : List OltInstance}
      → Permᴰ order order'
      → IsSameIndex
          (index_of devices acquired ranged m order)
          (index_of devices acquired ranged m order')
  unfolding index_of
  index_of-perm Permᴰ.nil = Perm.rfl
  index_of-perm (Permᴰ.cons {a = a} {l₁ = l} {l₂ = l'} e d) =
      subst
        (λ o.
          IsSameIndex (index_of devices acquired ranged m (a ∷ l))
            (index_of devices acquired ranged m (o ∷ l')))
        e (IsSameIndex-joined (added (answer devices acquired ranged a.id m)) _ _ (index_of-perm d))
  index_of-perm (Permᴰ.swap {a = a} {b = b} {a' = a'} {l = l} e k) =
      let start = index_of devices acquired ranged m (a ∷ b ∷ l) in
      subst (λ o. IsSameIndex start (index_of devices acquired ranged m (a' ∷ o ∷ l))) e
        (subst (λ o. IsSameIndex start (index_of devices acquired ranged m (o ∷ a ∷ l))) k
          (IsSameIndex-swapped (added (answer devices acquired ranged a.id m))
            (added (answer devices acquired ranged b.id m)) (index_of devices acquired ranged m l)))
  index_of-perm (Permᴰ.trans {l₁ = x} {l₂ = y} {l₃ = z} d d') =
      IsSameIndex-trans _ _ _ (index_of-perm d) (index_of-perm d')

-- Whatever the order in which the walks of the OLTs end, and in whatever orders their maps are
-- ranged over, the index has the same items, as often as each is there, in some order; and either
-- both runs panic or none does.
pub collect_items-perm :
    (devices : Devices) (acquired : Text → Bool)
    (ranged ranged' : Text → Map Text TempOnu → Map Text TempOnu) (m : OltManager)
    (order order' : List OltInstance)
    → Permutes ranged
    → Permutes ranged'
    → Perm order order'
    → IsSameIndex
        (collect_items devices acquired ranged order m).1
        (collect_items devices acquired ranged' order' m).1
collect_items-perm devices acquired ranged ranged' m order order' perm perm' h =
    subst (λ a. IsSameIndex a (collect_items devices acquired ranged' order' m).1)
      (sym (collect_items-eq-index_of devices acquired ranged m order))
      (subst (IsSameIndex (index_of devices acquired ranged m order))
        (sym (collect_items-eq-index_of devices acquired ranged' m order'))
        (IsSameIndex-trans _ _ _
          (∥∥₁_elim h (IsSameIndex-prop _ _) (index_of-perm devices acquired ranged m))
          (index_of-ranged ranged ranged' perm perm' devices acquired m order')))
