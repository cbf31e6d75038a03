-- ===== src/Service/Indexer/Items.antt =====
-- What the three walks of an OLT contribute to the index.
use mathlib.Core.Path.{subst}
use mathlib.Core.Option.{some-injective}
use mathlib.Core.List.{Perm}
use mathlib.Core.List.Perm
use zzte.Domain.{SearchItem, Result-cases, ok}
use zzte.Snmp.Oids.{oid_onu_status, oid_onu_name, oid_onu_serial_number}
use zzte.Snmp.Values.{SnmpPdu, pdu_to_string}
use zzte.Snmp.Parsers.{parse_serial_number}
use zzte.Snmp.Client.{Agent, walk}
use zzte.Service.Indexer.{
  TempOnu, read_place, place_key, update_found, read_statuses, read_names, read_serial,
  read_serials, to_search_item, add_names, add_serials, walk_items,
}
use zzte.Prelude.{
  Bool-cases, List, Map, Option-cases, Text, [], ap, inl, inr, insert, int_eq, lookup, map, nat_eq,
  refl, some, sym, text_eq, ◌=ᵗ◌, ◌∙◌, ◌∷◌, ◌≡◌,
}

-- an item without its texts
abbrev pub outline : SearchItem → SearchItem
outline item = record item { name = []; serial_number = [] }

abbrev outlines : Text → Map Text TempOnu → List SearchItem
outlines olt_id onus = map (λ entry. outline (to_search_item olt_id entry.1)) onus

module _ (olt_id : Text) where
  -- Writing an ONU that is there, with the same outline, keeps all outlines.
  outlines-insert :
      (key : Text) (o o' : TempOnu) (onus : Map Text TempOnu)
      → lookup key onus ≡ some o
      → outline (to_search_item olt_id o') ≡ outline (to_search_item olt_id o)
      → outlines olt_id (insert key o' onus) ≡ outlines olt_id onus
  unfolding insert lookup
  outlines-insert key o o' [] h same = absurd (cc h)
  outlines-insert key o o' ((j, w) ∷ onus) h same = elim (Bool-cases (j =ᵗ key)) [
    | inl e ↦
        let here : w ≡ o = some-injective w o (rw e at h) in
        rw e (
          ap (λ item. item ∷ outlines olt_id onus)
            (same ∙ ap (λ v. outline (to_search_item olt_id v)) (sym here)))
    | inr e ↦ rw e (
        ap (λ l. outline (to_search_item olt_id w) ∷ l)
          (outlines-insert key o o' onus (rw e at h) same))
  ]

  outlines-update_found :
      (key : Text) (set' : TempOnu → TempOnu) (onus : Map Text TempOnu)
      → ((o : TempOnu)
          → outline (to_search_item olt_id (set' o)) ≡ outline (to_search_item olt_id o))
      → outlines olt_id (update_found key set' onus) ≡ outlines olt_id onus
  unfolding update_found
  outlines-update_found key set' onus same = elim (Option-cases (lookup key onus)) [
    | inl e ↦ rw (e, update_found) refl
    | inr (o, e) ↦ rw (e, update_found) (outlines-insert key o (set' o) onus e (same o))
  ]

  outlines-read_names :
      (pdus : List SnmpPdu) (onus : Map Text TempOnu)
      → outlines olt_id (read_names pdus onus) ≡ outlines olt_id onus
  unfolding read_names to_search_item
  outlines-read_names [] onus = refl
  outlines-read_names (pdu ∷ pdus) onus = elim (Option-cases (read_place oid_onu_name pdu)) [
    | inl e ↦ rw (e, read_names) (outlines-read_names pdus onus)
    | inr (place, e) ↦
        rw (e, read_names)
          (outlines-read_names pdus _
            ∙ outlines-update_found (place_key place.0 place.1)
                (λ o. record o { name = pdu_to_string pdu }) onus (λ o. refl))
  ]

  outlines-read_serial :
      (pdu : SnmpPdu) (key : Text) (onus onus' : Map Text TempOnu)
      → read_serial pdu key onus ≡ some onus'
      → outlines olt_id onus' ≡ outlines olt_id onus
  unfolding read_serial to_search_item
  outlines-read_serial pdu key onus onus' h = elim (Option-cases (lookup key onus)) [
    | inl e ↦ ap (outlines olt_id) (sym (some-injective onus onus' (rw (e, read_serial) at h)))
    | inr (o, e) ↦ elim (Option-cases (parse_serial_number (some pdu))) [
      | inl p ↦ absurd (let q = rw (e, p, read_serial) at h in cc)
      | inr (sn, p) ↦
          let o' : TempOnu = record o { sn = sn } in
          ap (outlines olt_id)
            (sym (some-injective (insert key o' onus) onus' (rw (e, p, read_serial) at h)))
          ∙ outlines-insert key o o' onus e refl
    ]
  ]

  outlines-read_serials :
      (pdus : List SnmpPdu) (onus onus' : Map Text TempOnu)
      → read_serials pdus onus ≡ some onus'
      → outlines olt_id onus' ≡ outlines olt_id onus
  unfolding read_serials
  outlines-read_serials [] onus onus' h = ap (outlines olt_id) (sym (some-injective onus onus' h))
  outlines-read_serials (pdu ∷ pdus) onus onus' h =
      elim (Option-cases (read_place oid_onu_serial_number pdu)) [
        | inl e ↦ outlines-read_serials pdus onus onus' (rw (e, read_serials) at h)
        | inr (place, e) ↦ elim (Option-cases (read_serial pdu (place_key place.0 place.1) onus)) [
          | inl k ↦ absurd (let q = rw (e, k, read_serials) at h in cc)
          | inr (next, k) ↦
              outlines-read_serials pdus next onus' (rw (e, k, read_serials) at h)
              ∙ outlines-read_serial pdu (place_key place.0 place.1) onus next k
        ]
      ]

outlines-map :
    (olt_id : Text) (onus : Map Text TempOnu)
    → map outline (map (λ entry. to_search_item olt_id entry.1) onus) ≡ outlines olt_id onus
outlines-map olt_id [] = refl
outlines-map olt_id ((key, o) ∷ onus) =
    ap (λ l. outline (to_search_item olt_id o) ∷ l) (outlines-map olt_id onus)

outlines-add_names :
    (agent : Agent) (olt_id : Text) (onus : Map Text TempOnu)
    → outlines olt_id (add_names agent onus) ≡ outlines olt_id onus
unfolding add_names
outlines-add_names agent olt_id onus = elim (Result-cases (walk agent oid_onu_name)) [
  | inr (x, e) ↦ rw (e, add_names) refl
  | inl (names, e) ↦ rw (e, add_names) (outlines-read_names olt_id names onus)
]

outlines-add_serials :
    (agent : Agent) (olt_id : Text) (onus onus' : Map Text TempOnu)
    → add_serials agent onus ≡ some onus'
    → outlines olt_id onus' ≡ outlines olt_id onus
unfolding add_serials
outlines-add_serials agent olt_id onus onus' h =
    elim (Result-cases (walk agent oid_onu_serial_number)) [
      | inr (x, e) ↦
          ap (outlines olt_id) (sym (some-injective onus onus' (rw (e, add_serials) at h)))
      | inl (serials, e) ↦
          outlines-read_serials olt_id serials onus onus' (rw (e, add_serials) at h)
    ]

-- In whatever order the map of what was found is ranged over, what the walks of an OLT contribute
-- is settled by the walk of the states: the items have its places and states, as often as each is
-- there, in some order, and the OLT's identifier; the walks of the names and of the serial numbers
-- add no item, remove none and change only the texts.
pub walk_items-outline :
    (ranged : Map Text TempOnu → Map Text TempOnu) (agent : Agent) (olt_id : Text)
    (items : List SearchItem)
    → ((onus : Map Text TempOnu) → Perm (ranged onus) onus)
    → walk_items ranged agent olt_id ≡ some (ok items)
    → (statuses : List SnmpPdu) × (walk agent oid_onu_status ≡ ok statuses)
      × Perm
          (map outline items)
          (map (λ entry. outline (to_search_item olt_id entry.1)) (read_statuses statuses []))
unfolding walk_items
walk_items-outline ranged agent olt_id items perm h =
    elim (Result-cases (walk agent oid_onu_status)) [
      | inr (x, e) ↦ absurd (let q = rw (e, walk_items) at h in cc)
      | inl (statuses, e) ↦
          let found = read_statuses statuses [] in
          elim (Option-cases (add_serials agent (add_names agent found))) [
            | inl k ↦ absurd (let q = rw (e, k, walk_items) at h in cc)
            | inr (onus, k) ↦
                let q : some (ok (map (λ entry. to_search_item olt_id entry.1) (ranged onus)))
                    ≡ some (ok items) =
                  rw (e, k, walk_items) at h in
                let same : map (λ entry. to_search_item olt_id entry.1) (ranged onus) ≡ items =
                  cc q in
                (
                  statuses,
                  e,
                  subst (λ l. Perm l (outlines olt_id found))
                      (sym (outlines-map olt_id (ranged onus)) ∙ ap (map outline) same)
                      (subst (Perm (outlines olt_id (ranged onus)))
                        (outlines-add_serials agent olt_id (add_names agent found) onus k
                          ∙ outlines-add_names agent olt_id found)
                        (Perm.map (λ entry. outline (to_search_item olt_id entry.1)) (perm onus))),
                )
          ]
    ]
