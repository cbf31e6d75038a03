-- ===== src/Service/Onus/Items.antt =====
-- The list that `GetONUList` makes of what it has read: sorted by number, one item for each, and
-- what the walks describe.
use mathlib.Core.Path.{subst}
use mathlib.Core.Option.{some-injective}
use zzte.Strings.{is_empty}
use zzte.Domain.{Onu, OnuListItem, to_list_item, Result-cases, ok}
use zzte.Snmp.Oids.{
  extract_onu_id, oid_onu_status, oid_onu_name, oid_onu_serial_number, oid_onu_rx_power,
}
use zzte.Snmp.Values.{SnmpPdu}
use zzte.Snmp.Client.{Agent, bulk_walk}
use zzte.Snmp.Adapter.{FirmwareAdapter}
use zzte.Service.Onus.Walks.{
  set_status, set_name, set_rx_power, blank_onu, with_onu, read_walk, walk_oid, add_walk,
  add_serials, add_details, collect_onus,
}
use zzte.Service.Onus.Listing.{list_items}
use zzte.Service.Onus.Described.{set_serial, read_serials-eq-read_walk}
use zzte.Prelude.{
  All, All-insert, All-lookup, Bool-cases, IsAscending, IsAscending-map, IsDistinct, List, Map,
  Option, Option-cases, Text, UniqueKeys, [], ap, arith, eqb_ℤ_iff, find_by, find_by-map,
  find_by-sort_by, inl, inr, insert-UniqueKeys, int_eq, lookup, map, nat_eq, none, refl, some,
  sort_by, sort_by-IsAscending, text_eq, ℤ, ◌∙◌, ◌∷◌, ◌≡◌, ◌≢◌,
}

-- Each ONU stands under its number, and no number stands twice.
pub record IsKeyed (onus : Map ℤ Onu) : Type 0 where
  pub unique : UniqueKeys onus
  pub named : All (λ entry. entry.1.onu_id ≡ entry.0) onus

-- A write leaves an ONU its number.
abbrev KeepsNumber : (SnmpPdu → Onu → Onu) → Type 0
KeepsNumber set' = (p : SnmpPdu) (o : Onu) → (set' p o).onu_id ≡ o.onu_id

module _ (olt_id : Text) (board pon : ℤ) where
  with_onu-IsKeyed :
      (set' : SnmpPdu → Onu → Onu) (p : SnmpPdu) (n : ℤ) (onus : Map ℤ Onu)
      → KeepsNumber set'
      → IsKeyed onus
      → IsKeyed (with_onu olt_id board pon n (set' p) onus)
  unfolding with_onu blank_onu
  with_onu-IsKeyed set' p n onus keeps k = record {
    unique = insert-UniqueKeys n _ onus k.unique;
    named = All-insert (λ entry. entry.1.onu_id ≡ entry.0) n _ onus number k.named;
  }
    where
      number :
          (set' p
            (elim (lookup n onus) [ none ↦ blank_onu olt_id board pon n | some o ↦ o ])).onu_id
          ≡ n
      number = elim (Option-cases (lookup n onus)) [
        | inl e ↦ rw e (keeps p (blank_onu olt_id board pon n))
        | inr (o, e) ↦
            rw e (keeps p o ∙ All-lookup (λ entry. entry.1.onu_id ≡ entry.0) n o onus k.named e)
      ]

  read_walk-IsKeyed :
      (oid : Text) (set' : SnmpPdu → Onu → Onu)
      → KeepsNumber set'
      → (pdus : List SnmpPdu) (onus : Map ℤ Onu) → IsKeyed onus
      → IsKeyed (read_walk olt_id board pon oid set' pdus onus)
  unfolding read_walk
  read_walk-IsKeyed oid set' keeps [] onus k = k
  read_walk-IsKeyed oid set' keeps (pdu ∷ pdus) onus k =
      read_walk-IsKeyed oid set' keeps pdus _ (by_number (extract_onu_id pdu.name oid))
    where
      by_number :
          (number : Option ℤ)
          → IsKeyed
              (elim number [ none ↦ onus | some n ↦ with_onu olt_id board pon n (set' pdu) onus ])
      by_number none = k
      by_number (some n) = with_onu-IsKeyed set' pdu n onus keeps k

  empty-IsKeyed : IsKeyed []
  empty-IsKeyed = record { unique = tt; named = tt }

  module _ (agent : Agent) (adapter : Option FirmwareAdapter) where
    add_walk-IsKeyed :
        (oid : Text) (set' : SnmpPdu → Onu → Onu)
        → KeepsNumber set'
        → (onus : Map ℤ Onu) → IsKeyed onus
        → IsKeyed (add_walk olt_id board pon agent adapter oid set' onus)
    unfolding add_walk
    add_walk-IsKeyed oid set' keeps onus k = elim (Result-cases (bulk_walk agent oid)) [
      | inl (pdus, e) ↦ rw (e, add_walk) (read_walk-IsKeyed oid set' keeps pdus onus k)
      | inr (x, e) ↦ rw (e, add_walk) k
    ]

    add_serials-IsKeyed :
        (oid : Text) (onus onus' : Map ℤ Onu)
        → IsKeyed onus
        → add_serials olt_id board pon agent adapter oid onus ≡ some onus'
        → IsKeyed onus'
    unfolding add_serials
    add_serials-IsKeyed oid onus onus' k h = elim (Result-cases (bulk_walk agent oid)) [
      | inl (pdus, e) ↦
          subst IsKeyed
            (read_serials-eq-read_walk olt_id board pon oid pdus onus onus'
              (rw (e, add_serials) at h))
            (read_walk-IsKeyed oid set_serial (λ p o. refl) pdus onus k)
      | inr (x, e) ↦
          let q : some onus ≡ some onus' = rw (e, add_serials) at h in
          subst IsKeyed (some-injective onus onus' q) k
    ]

    add_details-IsKeyed :
        (onus onus' : Map ℤ Onu)
        → IsKeyed onus
        → add_details olt_id board pon agent adapter onus ≡ some onus'
        → IsKeyed onus'
    unfolding add_details set_name set_rx_power
    add_details-IsKeyed onus onus' k h =
        let oid = walk_oid olt_id board pon in
        let named = add_walk olt_id board pon agent adapter (oid oid_onu_name) set_name onus in
        let k' = add_walk-IsKeyed (oid oid_onu_name) set_name (λ p o. refl) onus k in
        elim (Option-cases
          (add_serials olt_id board pon agent adapter (oid oid_onu_serial_number) named)) [
            | inl e ↦ absurd (let q = rw (e, add_details) at h in cc)
            | inr (numbered, e) ↦
                subst IsKeyed (some-injective _ onus' (rw (e, add_details) at h)) (
                  add_walk-IsKeyed (oid oid_onu_rx_power) (set_rx_power adapter) (λ p o. refl)
                    numbered (add_serials-IsKeyed (oid oid_onu_serial_number) named numbered k' e))
          ]

    pub collect_onus-IsKeyed :
        (statuses : List SnmpPdu) (onus : Map ℤ Onu)
        → bulk_walk agent (walk_oid olt_id board pon oid_onu_status) ≡ ok statuses
        → collect_onus olt_id board pon agent adapter ≡ some (ok onus)
        → IsKeyed onus
    unfolding collect_onus set_status
    collect_onus-IsKeyed statuses onus walked h =
        let oid = walk_oid olt_id board pon oid_onu_status in
        let found = read_walk olt_id board pon oid set_status statuses [] in
        let k = read_walk-IsKeyed oid set_status (λ p o. refl) statuses [] empty-IsKeyed in
        elim (Bool-cases (is_empty found)) [
          | inl b ↦
              let q : some (ok []) ≡ some (ok onus) = rw (walked, b, collect_onus) at h in
              let same : [] ≡ onus = cc q in subst IsKeyed same empty-IsKeyed
          | inr b ↦ elim (Option-cases (add_details olt_id board pon agent adapter found)) [
            | inl e ↦ absurd (let q = rw (walked, b, e, collect_onus) at h in cc)
            | inr (whole, e) ↦
                let q : some (ok whole) ≡ some (ok onus) = rw (walked, b, e, collect_onus) at h in
                let same : whole ≡ onus = cc q in
                subst IsKeyed same (add_details-IsKeyed found whole k e)
          ]
        ]

abbrev number_of : Onu → ℤ
number_of o = o.onu_id

abbrev pub item_number : OnuListItem → ℤ
item_number item = item.onu_id

abbrev onus_of : Map ℤ Onu → List Onu
onus_of onus = map (λ entry. entry.1) onus

others-differ :
    (n : ℤ) (o : Onu) (onus : Map ℤ Onu)
    → o.onu_id ≡ n
    → lookup n onus ≡ none
    → All (λ entry. entry.1.onu_id ≡ entry.0) onus
    → All (λ (o' : Onu). o.onu_id ≢ o'.onu_id) (onus_of onus)
unfolding lookup
others-differ n o [] e h k = tt
others-differ n o ((j, o') ∷ onus) e h (p, k) = (
  (λ same. ground (arith, eqb_ℤ_iff j n, h, e, p, same)),
  others-differ n o onus e (ground (arith, h)) k,
)

onus_of-IsDistinct :
    (onus : Map ℤ Onu)
    → UniqueKeys onus
    → All (λ entry. entry.1.onu_id ≡ entry.0) onus
    → IsDistinct number_of (onus_of onus)
onus_of-IsDistinct [] u k = tt
onus_of-IsDistinct ((n, o) ∷ onus) (h, u) (e, k) =
    (others-differ n o onus e h k, onus_of-IsDistinct onus u k)

find_by-onus_of :
    (n : ℤ) (onus : Map ℤ Onu)
    → All (λ entry. entry.1.onu_id ≡ entry.0) onus
    → find_by number_of n (onus_of onus) ≡ lookup n onus
unfolding lookup
find_by-onus_of n [] k = refl
find_by-onus_of n ((j, o) ∷ onus) (e, k) = ground (arith, find_by-onus_of n onus k, e)

-- the item of a number
abbrev pub as_item : Option Onu → Option OnuListItem
as_item none = none
as_item (some o) = some (to_list_item o)

pub list_items-IsAscending :
    (onus : Map ℤ Onu) → IsKeyed onus → IsAscending item_number (list_items onus)
unfolding list_items to_list_item
list_items-IsAscending onus k =
    IsAscending-map number_of item_number to_list_item (λ o. refl)
      (sort_by number_of (onus_of onus))
      (sort_by-IsAscending number_of (onus_of onus) (onus_of-IsDistinct onus k.unique k.named))

pub find_by-list_items :
    (n : ℤ) (onus : Map ℤ Onu)
    → IsKeyed onus
    → find_by item_number n (list_items onus) ≡ as_item (lookup n onus)
unfolding list_items to_list_item
find_by-list_items n onus k =
    find_by-map number_of item_number to_list_item (λ o. refl) n (sort_by number_of (onus_of onus))
    ∙ by_case (find_by number_of n (sort_by number_of (onus_of onus)))
    ∙ ap as_item (find_by-sort_by number_of n (onus_of onus) ∙ find_by-onus_of n onus k.named)
  where
    by_case :
        (o : Option Onu) → (elim o [ none ↦ none | some a ↦ some (to_list_item a) ]) ≡ as_item o
    by_case none = refl
    by_case (some o) = refl
