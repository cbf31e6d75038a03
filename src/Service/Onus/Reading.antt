-- ===== src/Service/Onus/Reading.antt =====
-- The maps that the walks of `GetONUList` build are what `described` says, number by number.
use zzte.Service.Onus.Described.{
  has, has_number, walked, set_serial, seen, described, lookup-read_walk, read_serials-eq-read_walk,
}
use mathlib.Core.Option.{some-injective}
use zzte.Strings.{is_empty}
use zzte.Domain.{Onu, Result-cases, ok}
use zzte.Snmp.Oids.{
  extract_onu_id, oid_onu_status, oid_onu_name, oid_onu_serial_number, oid_onu_rx_power,
}
use zzte.Snmp.Values.{SnmpPdu}
use zzte.Snmp.Client.{Agent, bulk_walk}
use zzte.Snmp.Adapter.{FirmwareAdapter}
use zzte.Service.Onus.Walks.{
  set_status, set_name, set_rx_power, with_onu, read_walk, walk_oid, add_walk, add_serials,
  add_details, collect_onus,
}
use zzte.Prelude.{
  Bool-cases, List, Map, Option, Option-cases, Text, [], ap, arith, false, inl, inr, insert, int_eq,
  lookup, nat_eq, none, not, refl, some, sym, text_eq, true, ℤ, ◌&&◌, ◌||◌, ◌∙◌, ◌∷◌, ◌≡◌,
}

set_status_last : (p q : SnmpPdu) (o : Onu) → set_status q (set_status p o) ≡ set_status q o
unfolding set_status
set_status_last p q o = refl

set_name_last : (p q : SnmpPdu) (o : Onu) → set_name q (set_name p o) ≡ set_name q o
unfolding set_name
set_name_last p q o = refl

set_rx_power_last :
    (adapter : Option FirmwareAdapter) (p q : SnmpPdu) (o : Onu)
    → set_rx_power adapter q (set_rx_power adapter p o) ≡ set_rx_power adapter q o
unfolding set_rx_power
set_rx_power_last adapter p q o = refl

lookup-empty : (j : ℤ) → ◌≡◌ {A = Option Onu} (lookup j []) none
unfolding lookup
lookup-empty j = refl

module _ (olt_id : Text) (board pon : ℤ) where
  with_onu-nonempty :
      (n : ℤ) (f : Onu → Onu) (onus : Map ℤ Onu)
      → is_empty (with_onu olt_id board pon n f onus) ≡ false
  unfolding with_onu insert
  with_onu-nonempty n f [] = refl
  with_onu-nonempty n f ((j, o) ∷ onus) = ground arith

  is_empty-read_walk :
      (oid : Text) (set' : SnmpPdu → Onu → Onu) (pdus : List SnmpPdu) (onus : Map ℤ Onu)
      → is_empty (read_walk olt_id board pon oid set' pdus onus)
        ≡ (is_empty onus && not (has_number oid pdus))
  unfolding read_walk
  is_empty-read_walk oid set' [] onus = ground arith
  is_empty-read_walk oid set' (pdu ∷ pdus) onus =
      is_empty-read_walk oid set' pdus _ ∙ by_number (extract_onu_id pdu.name oid)
    where
      by_number :
          (number : Option ℤ)
          → (is_empty
                (elim number [ none ↦ onus | some n ↦ with_onu olt_id board pon n (set' pdu) onus ])
              && not (has_number oid pdus))
            ≡ (is_empty onus && not (has number || has_number oid pdus))
      by_number none = refl
      by_number (some n) = ground (arith, with_onu-nonempty n (set' pdu) onus)

  module _ (agent : Agent) (adapter : Option FirmwareAdapter) where
    lookup-add_walk :
        (oid : Text) (set' : SnmpPdu → Onu → Onu)
        → ((p q : SnmpPdu) (o : Onu) → set' q (set' p o) ≡ set' q o)
        → (onus : Map ℤ Onu) (j : ℤ)
        → lookup j (add_walk olt_id board pon agent adapter oid set' onus)
          ≡ seen olt_id board pon oid set' (walked agent oid) j (lookup j onus)
    unfolding add_walk
    lookup-add_walk oid set' last onus j = elim (Result-cases (bulk_walk agent oid)) [
      | inl (pdus, e) ↦
          rw (e, add_walk, walked) (lookup-read_walk olt_id board pon oid set' last pdus onus j)
      | inr (x, e) ↦ rw (e, add_walk, walked) refl
    ]

    lookup-add_serials :
        (oid : Text) (onus onus' : Map ℤ Onu) (j : ℤ)
        → add_serials olt_id board pon agent adapter oid onus ≡ some onus'
        → lookup j onus' ≡ seen olt_id board pon oid set_serial (walked agent oid) j (lookup j onus)
    unfolding add_serials
    lookup-add_serials oid onus onus' j h = elim (Result-cases (bulk_walk agent oid)) [
      | inl (pdus, e) ↦
          let read =
            read_serials-eq-read_walk olt_id board pon oid pdus onus onus'
              (rw (e, add_serials) at h) in
          rw (e, walked)
            (ap (lookup j) (sym read)
              ∙ lookup-read_walk olt_id board pon oid set_serial (λ p q o. refl) pdus onus j)
      | inr (x, e) ↦
          let same : some onus ≡ some onus' = rw (e, add_serials) at h in
          rw (e, walked) (ap (lookup j) (sym (some-injective onus onus' same)))
    ]

    details-described :
        (found whole : Map ℤ Onu)
        → add_details olt_id board pon agent adapter found ≡ some whole
        → (j : ℤ)
        → let oid = walk_oid olt_id board pon in
          lookup j whole
          ≡ seen olt_id board pon
              (oid oid_onu_rx_power)
              (set_rx_power adapter)
              (walked agent (oid oid_onu_rx_power))
              j
              (seen olt_id board pon
                (oid oid_onu_serial_number)
                set_serial
                (walked agent (oid oid_onu_serial_number))
                j
                (seen olt_id board pon
                  (oid oid_onu_name)
                  set_name
                  (walked agent (oid oid_onu_name))
                  j
                  (lookup j found)))
    unfolding add_details
    details-described found whole h j =
        let oid = walk_oid olt_id board pon in
        let named = add_walk olt_id board pon agent adapter (oid oid_onu_name) set_name found in
        elim (Option-cases
          (add_serials olt_id board pon agent adapter (oid oid_onu_serial_number) named)) [
            | inl e ↦ absurd (let q = rw (e, add_details) at h in cc)
            | inr (numbered, e) ↦
                let q : some (
                      add_walk olt_id board pon agent adapter (oid oid_onu_rx_power)
                        (set_rx_power adapter) numbered)
                    ≡ some whole =
                  rw (e, add_details) at h in
                ap (lookup j) (sym (some-injective _ _ q))
                ∙ lookup-add_walk (oid oid_onu_rx_power) (set_rx_power adapter)
                    (set_rx_power_last adapter) numbered j
                ∙ ap
                    (seen olt_id board pon (oid oid_onu_rx_power) (set_rx_power adapter)
                      (walked agent (oid oid_onu_rx_power)) j)
                    (lookup-add_serials (oid oid_onu_serial_number) named numbered j e
                      ∙ ap
                          (seen olt_id board pon (oid oid_onu_serial_number) set_serial
                            (walked agent (oid oid_onu_serial_number)) j)
                          (lookup-add_walk (oid oid_onu_name) set_name set_name_last found j))
          ]

    -- The map of a reading is what the walks describe.
    pub collect_onus-eq-described :
        (statuses : List SnmpPdu) (onus : Map ℤ Onu)
        → bulk_walk agent (walk_oid olt_id board pon oid_onu_status) ≡ ok statuses
        → collect_onus olt_id board pon agent adapter ≡ some (ok onus)
        → (j : ℤ) → lookup j onus ≡ described olt_id board pon agent adapter statuses j
    unfolding collect_onus
    collect_onus-eq-described statuses onus walked' h j =
        let oid = walk_oid olt_id board pon in
        let found = read_walk olt_id board pon (oid oid_onu_status) set_status statuses [] in
        let some_number = is_empty-read_walk (oid oid_onu_status) set_status statuses [] in
        elim (Bool-cases (has_number (oid oid_onu_status) statuses)) [
          | inl b ↦
              let full : is_empty found ≡ false = some_number ∙ ap not b in
              elim (Option-cases (add_details olt_id board pon agent adapter found)) [
                | inl e ↦ absurd (let q = rw (walked', full, e, collect_onus) at h in cc)
                | inr (whole, e) ↦
                    let q : some (ok whole) ≡ some (ok onus) =
                      rw (walked', full, e, collect_onus) at h in
                    let same : whole ≡ onus = cc q in
                    rw b (
                      ap (lookup j) (sym same)
                      ∙ details-described found whole e j
                      ∙ ap
                          (λ (o : Option Onu).
                            seen olt_id board pon (oid oid_onu_rx_power) (set_rx_power adapter)
                              (walked agent (oid oid_onu_rx_power)) j
                              (seen olt_id board pon (oid oid_onu_serial_number) set_serial
                                (walked agent (oid oid_onu_serial_number)) j
                                (seen olt_id board pon (oid oid_onu_name) set_name
                                  (walked agent (oid oid_onu_name)) j o)))
                          (lookup-read_walk olt_id board pon (oid oid_onu_status) set_status
                              set_status_last statuses [] j
                            ∙ ap (seen olt_id board pon (oid oid_onu_status) set_status statuses j)
                                (lookup-empty j)))
              ]
          | inr b ↦
              let empty : is_empty found ≡ true = some_number ∙ ap not b in
              let q : some (ok []) ≡ some (ok onus) = rw (walked', empty, collect_onus) at h in
              let same : onus ≡ [] = cc q in rw b (ap (lookup j) same ∙ (lookup-empty j))
        ]
