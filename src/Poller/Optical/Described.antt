-- ===== src/Poller/Optical/Described.antt =====
-- The list that the optical poller makes of a port.
use mathlib.Core.Path.{subst}
use zzte.Strings.{is_empty}
use zzte.Domain.{OnuListItem, Result-cases, ok, err, Error}
use zzte.Snmp.Oids.{build_walk_oid, oid_onu_status, oid_onu_rx_power}
use zzte.Snmp.Values.{SnmpPdu}
use zzte.Snmp.Client.{Agent, bulk_walk}
use zzte.Snmp.Adapter.{FirmwareAdapter}
use zzte.Service.Onus.Described.{walked}
use zzte.Service.Onus.Items.{item_number}
use zzte.Poller.Walks.{read_number}
use zzte.Poller.Optical.{
  TempOnu, read_statuses, put_power, read_powers, walk_onus, to_item, sorted_items,
}
use zzte.Poller.Optical.Items.{
  last_with, is_status, is_power, of_status, with_status, with_power, lookup-read_statuses,
  lookup-read_powers,
}
use zzte.Prelude.{
  Bool-cases, IsAscending, List, Map, Option, Option-cases, Text, UniqueKeys, [], ap, arith,
  entries-IsAscending, entry_of, find_by, find_by-sorted_entries, if◌then◌else◌, inl, inr, insert,
  insert-UniqueKeys, int_eq, lookup, nat_eq, none, refl, some, sym, text_eq, true, ℤ, ◌∙◌, ◌∷◌, ◌≡◌,
}

read_statuses-UniqueKeys :
    (oid : Text) (pdus : List SnmpPdu) (onus : Map ℤ TempOnu)
    → UniqueKeys onus
    → UniqueKeys (read_statuses oid pdus onus)
unfolding read_statuses
read_statuses-UniqueKeys oid [] onus u = u
read_statuses-UniqueKeys oid (pdu ∷ pdus) onus u =
    read_statuses-UniqueKeys oid pdus _ (put (read_number oid pdu))
  where
    put :
        (number : Option (ℤ × List Text))
        → UniqueKeys (elim number as (λ _. Map ℤ TempOnu) [
          | none ↦ onus
          | some (m, _) ↦ insert m (of_status pdu) onus
        ])
    put none = u
    put (some (m, _)) = insert-UniqueKeys m (of_status pdu) onus u

put_power-UniqueKeys :
    (adapter : Option FirmwareAdapter) (pdu : SnmpPdu) (m : ℤ) (onus : Map ℤ TempOnu)
    → UniqueKeys onus
    → UniqueKeys (put_power adapter pdu m onus)
unfolding put_power
put_power-UniqueKeys adapter pdu m onus u = elim (Option-cases (lookup m onus)) [
  | inl k ↦ rw (k, put_power) u
  | inr (o, k) ↦ rw (k, put_power) (insert-UniqueKeys m _ onus u)
]

read_powers-UniqueKeys :
    (adapter : Option FirmwareAdapter) (oid : Text) (pdus : List SnmpPdu) (onus : Map ℤ TempOnu)
    → UniqueKeys onus
    → UniqueKeys (read_powers adapter oid pdus onus)
unfolding read_powers
read_powers-UniqueKeys adapter oid [] onus u = u
read_powers-UniqueKeys adapter oid (pdu ∷ pdus) onus u =
    read_powers-UniqueKeys adapter oid pdus _ (put (read_number oid pdu))
  where
    put :
        (number : Option (ℤ × List Text))
        → UniqueKeys (elim number as (λ _. Map ℤ TempOnu) [
          | none ↦ onus
          | some (m, more) ↦ if is_empty more then onus else put_power adapter pdu m onus
        ])
    put none = u
    put (some (m, [])) = u
    put (some (m, p ∷ ps)) = put_power-UniqueKeys adapter pdu m onus u

-- the ONU of a number, if the walk of the states has it
abbrev pub measured : Agent → Option FirmwareAdapter → ℤ → List SnmpPdu → ℤ → Option TempOnu
measured agent adapter if_index statuses n =
    let rx_oid = build_walk_oid oid_onu_rx_power if_index in
    with_power adapter (last_with (is_power rx_oid n) (walked agent rx_oid))
      (with_status (last_with (is_status (build_walk_oid oid_onu_status if_index) n) statuses) none)

-- What the map holds.
record IsMeasured (agent : Agent) (adapter : Option FirmwareAdapter) (if_index : ℤ)
    (statuses : List SnmpPdu) (onus : Map ℤ TempOnu) : Type 0 where
  unique : UniqueKeys onus
  found : (n : ℤ) → lookup n onus ≡ measured agent adapter if_index statuses n

with_power-none :
    (adapter : Option FirmwareAdapter) (power : Option SnmpPdu)
    → with_power adapter power none ≡ none
with_power-none adapter none = refl
with_power-none adapter (some pdu) = refl

module _ (agent : Agent) (oid : Text) where
  pub walked-ok : {pdus : List SnmpPdu} → bulk_walk agent oid ≡ ok pdus → walked agent oid ≡ pdus
  walked-ok e = rw (e, walked) refl

  pub walked-err : {x : Error} → bulk_walk agent oid ≡ err x → walked agent oid ≡ []
  walked-err e = rw (e, walked) refl

pub lookup-empty :
    {V : Type 0} (n : ℤ) (onus : Map ℤ V) → is_empty onus ≡ true → lookup n onus ≡ none
unfolding lookup
lookup-empty n [] h = refl
lookup-empty n (o ∷ onus) h = ground (arith, h)

walk_onus-IsMeasured :
    (agent : Agent) (adapter : Option FirmwareAdapter) (if_index : ℤ) (statuses : List SnmpPdu)
    (onus : Map ℤ TempOnu)
    → bulk_walk agent (build_walk_oid oid_onu_status if_index) ≡ ok statuses
    → walk_onus agent adapter if_index ≡ ok onus
    → IsMeasured agent adapter if_index statuses onus
unfolding walk_onus lookup
walk_onus-IsMeasured agent adapter if_index statuses onus asked h =
    let oid = build_walk_oid oid_onu_status if_index in
    let rx_oid = build_walk_oid oid_onu_rx_power if_index in
    let found = read_statuses oid statuses [] in
    let u = read_statuses-UniqueKeys oid statuses [] tt in
    let seen : (n : ℤ) → lookup n found ≡ with_status (last_with (is_status oid n) statuses) none =
      lookup-read_statuses oid statuses [] in
    elim (Bool-cases (is_empty found)) [
      | inl b ↦
          let q : ok [] ≡ ok onus = rw (asked, b, walk_onus) at h in
          let same : [] ≡ onus = cc q in
          subst (IsMeasured agent adapter if_index statuses) same (record {
            unique = tt;
            found = λ n. sym (
                ap (with_power adapter (last_with (is_power rx_oid n) (walked agent rx_oid)))
                  (sym (seen n) ∙ lookup-empty n found b)
                ∙ with_power-none adapter (last_with (is_power rx_oid n) (walked agent rx_oid)));
          })
      | inr b ↦ elim (Result-cases (bulk_walk agent rx_oid)) [
        | inl (powers, e) ↦
            let q : ok (read_powers adapter rx_oid powers found) ≡ ok onus =
              rw (asked, b, e, walk_onus) at h in
            let same : read_powers adapter rx_oid powers found ≡ onus = cc q in
            subst (IsMeasured agent adapter if_index statuses) same (record {
              unique = read_powers-UniqueKeys adapter rx_oid powers found u;
              found = λ n.
                  lookup-read_powers adapter rx_oid powers found n
                  ∙ ap (with_power adapter (last_with (is_power rx_oid n) powers)) (seen n)
                  ∙ ap
                      (λ pdus.
                        with_power adapter (last_with (is_power rx_oid n) pdus)
                          (with_status (last_with (is_status oid n) statuses) none))
                      (sym (walked-ok agent rx_oid e));
            })
        | inr (x, e) ↦
            let q : ok found ≡ ok onus = rw (asked, b, e, walk_onus) at h in
            let same : found ≡ onus = cc q in
            subst (IsMeasured agent adapter if_index statuses) same (record {
              unique = u;
              found = λ n.
                  seen n
                  ∙ ap
                      (λ pdus.
                        with_power adapter (last_with (is_power rx_oid n) pdus)
                          (with_status (last_with (is_status oid n) statuses) none))
                      (sym (walked-err agent rx_oid e));
            })
      ]
    ]

-- the item of a number
abbrev pub item_of : Text → ℤ → ℤ → ℤ → Option TempOnu → Option OnuListItem
item_of olt_id board pon n none = none
item_of olt_id board pon n (some o) = some (to_item olt_id board pon (n, o))

-- The list that the optical poller makes of a port is sorted by number, without a number twice,
-- and an ONU is in it exactly if the walk of the states has its number: with the last state of the
-- number, and with its last power, or power 0 where none is read.
pub sorted_items-measured :
    (olt_id : Text) (board pon : ℤ) (agent : Agent) (adapter : Option FirmwareAdapter)
    (if_index : ℤ) (statuses : List SnmpPdu) (onus : Map ℤ TempOnu)
    → bulk_walk agent (build_walk_oid oid_onu_status if_index) ≡ ok statuses
    → walk_onus agent adapter if_index ≡ ok onus
    → IsAscending item_number (sorted_items olt_id board pon onus)
      × ((n : ℤ)
          → find_by item_number n (sorted_items olt_id board pon onus)
            ≡ item_of olt_id board pon n (measured agent adapter if_index statuses n))
unfolding sorted_items to_item
sorted_items-measured olt_id board pon agent adapter if_index statuses onus asked h =
    let k = walk_onus-IsMeasured agent adapter if_index statuses onus asked h in
    (
      entries-IsAscending item_number (to_item olt_id board pon) (λ e. refl) onus k.unique,
      λ n.
          find_by-sorted_entries item_number (to_item olt_id board pon) (λ e. refl) n onus
          ∙ by_case n (lookup n onus)
          ∙ ap (item_of olt_id board pon n) (k.found n),
    )
  where
    by_case :
        (n : ℤ) (o : Option TempOnu)
        → entry_of item_number (to_item olt_id board pon) (λ e. refl) n o
          ≡ item_of olt_id board pon n o
    by_case n none = refl
    by_case n (some o) = refl
