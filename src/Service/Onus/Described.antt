-- ===== src/Service/Onus/Described.antt =====
-- What a list of ONUs has to be, number by number: of each walk the last variable of a number
-- counts. The maps that the walks of `GetONUList` build are that.
use zzte.Domain.{Onu, ok, err}
use zzte.Snmp.Oids.{
  extract_onu_id, oid_onu_status, oid_onu_name, oid_onu_serial_number, oid_onu_rx_power,
}
use zzte.Snmp.Values.{SnmpPdu}
use zzte.Snmp.Parsers.{parse_serial_number}
use zzte.Snmp.Client.{Agent, bulk_walk}
use zzte.Snmp.Adapter.{FirmwareAdapter}
use zzte.Service.Onus.Walks.{
  set_status, set_name, set_rx_power, blank_onu, with_onu, read_walk, read_serials, walk_oid,
}
use zzte.Prelude.{
  Bool, List, Map, Option, Option-cases, Text, [], any, ap, arith, eqb_ℤ, eqb_ℤ_iff, false,
  if◌then◌else◌, inl, inr, int_eq, lookup, lookup-insert, nat_eq, none, refl, some, text_eq, true,
  ℤ, ◌∙◌, ◌∷◌, ◌≡◌,
}

-- whether a variable is of the ONU with the number
abbrev is_number : ℤ → Option ℤ → Bool
is_number onu_id none = false
is_number onu_id (some n) = eqb_ℤ n onu_id

abbrev pub is_of : Text → ℤ → SnmpPdu → Bool
is_of oid onu_id pdu = is_number onu_id (extract_onu_id pdu.name oid)

-- the last variable of the number
abbrev pub last_of : Text → ℤ → List SnmpPdu → Option SnmpPdu
last_of oid onu_id [] = none
last_of oid onu_id (pdu ∷ pdus) = elim (last_of oid onu_id pdus) [
  | some later ↦ some later
  | none ↦ if is_of oid onu_id pdu then some pdu else none
]

-- whether a walk has the number of any ONU
abbrev pub has : Option ℤ → Bool
has none = false
has (some n) = true

abbrev pub has_number : Text → List SnmpPdu → Bool
has_number oid pdus = any (λ (p : SnmpPdu). has (extract_onu_id p.name oid)) pdus

-- the variables of a walk, none if it fails
abbrev pub walked : Agent → Text → List SnmpPdu
walked agent oid = elim (bulk_walk agent oid) [ err _ ↦ [] | ok pdus ↦ pdus ]

-- the serial number of a variable, which has one unless its reading panics
abbrev pub serial_of : SnmpPdu → Text
serial_of pdu = elim (parse_serial_number (some pdu)) [ none ↦ [] | some sn ↦ sn ]

abbrev pub set_serial : SnmpPdu → Onu → Onu
set_serial pdu o = record o { serial_number = serial_of pdu }

module _ (olt_id : Text) (board pon : ℤ) where
  abbrev pub or_blank : ℤ → Option Onu → Onu
  or_blank onu_id none = blank_onu olt_id board pon onu_id
  or_blank onu_id (some o) = o

  -- an ONU after a walk, by the last variable of its number
  abbrev pub seen : Text → (SnmpPdu → Onu → Onu) → List SnmpPdu → ℤ → Option Onu → Option Onu
  seen oid set' pdus onu_id o = elim (last_of oid onu_id pdus) [
    | none ↦ o
    | some pdu ↦ some (set' pdu (or_blank onu_id o))
  ]

  -- the ONU with the number, if the walks show one
  abbrev pub described : Agent → Option FirmwareAdapter → List SnmpPdu → ℤ → Option Onu
  described agent adapter statuses onu_id =
      let oid = walk_oid olt_id board pon in
      if has_number (oid oid_onu_status) statuses
      then seen (oid oid_onu_rx_power) (set_rx_power adapter) (walked agent (oid oid_onu_rx_power))
          onu_id
          (seen (oid oid_onu_serial_number) set_serial (walked agent (oid oid_onu_serial_number))
            onu_id
            (seen (oid oid_onu_name) set_name (walked agent (oid oid_onu_name)) onu_id
              (seen (oid oid_onu_status) set_status statuses onu_id none)))
      else none

  lookup-with_onu :
      (n j : ℤ) (f : Onu → Onu) (onus : Map ℤ Onu)
      → lookup j (with_onu olt_id board pon n f onus)
        ≡ (if eqb_ℤ n j then some (f (or_blank j (lookup j onus))) else lookup j onus)
  unfolding with_onu
  lookup-with_onu n j f onus =
      ground (arith, lookup-insert n j (f (or_blank n (lookup n onus))) onus, eqb_ℤ_iff n j)

  -- the write of one variable
  lookup-written :
      (oid : Text) (set' : SnmpPdu → Onu → Onu) (pdu : SnmpPdu) (onus : Map ℤ Onu) (j : ℤ)
      → lookup j (elim (extract_onu_id pdu.name oid) [
        | none ↦ onus
        | some n ↦ with_onu olt_id board pon n (set' pdu) onus
      ])
        ≡ (if is_of oid j pdu then some (set' pdu (or_blank j (lookup j onus))) else lookup j onus)
  lookup-written oid set' pdu onus j = by_number (extract_onu_id pdu.name oid)
    where
      by_number :
          (number : Option ℤ)
          → lookup j
              (elim number [ none ↦ onus | some n ↦ with_onu olt_id board pon n (set' pdu) onus ])
            ≡ (if is_number j number
                then some (set' pdu (or_blank j (lookup j onus)))
                else lookup j onus)
      by_number none = refl
      by_number (some n) = lookup-with_onu n j (set' pdu) onus

  seen-cons :
      (set' : SnmpPdu → Onu → Onu) (pdu : SnmpPdu) (j : ℤ)
      → ((q : SnmpPdu) (o : Onu) → set' q (set' pdu o) ≡ set' q o)
      → (later : Option SnmpPdu) (b : Bool) (o : Option Onu)
      → let o' : Option Onu = if b then some (set' pdu (or_blank j o)) else o in
        let pick : Option SnmpPdu = elim later [
          | some q ↦ some q
          | none ↦ if b then some pdu else none
        ] in
        (elim later [ none ↦ o' | some q ↦ some (set' q (or_blank j o')) ])
        ≡ (elim pick [ none ↦ o | some q ↦ some (set' q (or_blank j o)) ])
  seen-cons set' pdu j last none true o = refl
  seen-cons set' pdu j last none false o = refl
  seen-cons set' pdu j last (some q) true o = ap some (last q (or_blank j o))
  seen-cons set' pdu j last (some q) false o = refl

  pub lookup-read_walk :
      (oid : Text) (set' : SnmpPdu → Onu → Onu)
      → ((p q : SnmpPdu) (o : Onu) → set' q (set' p o) ≡ set' q o)
      → (pdus : List SnmpPdu) (onus : Map ℤ Onu) (j : ℤ)
      → lookup j (read_walk olt_id board pon oid set' pdus onus)
        ≡ seen oid set' pdus j (lookup j onus)
  unfolding read_walk
  lookup-read_walk oid set' last [] onus j = refl
  lookup-read_walk oid set' last (pdu ∷ pdus) onus j =
      lookup-read_walk oid set' last pdus _ j
      ∙ ap (seen oid set' pdus j) (lookup-written oid set' pdu onus j)
      ∙ seen-cons set' pdu j (last pdu) (last_of oid j pdus) (is_of oid j pdu) (lookup j onus)

  -- A walk of serial numbers that does not panic is read like any other.
  pub read_serials-eq-read_walk :
      (oid : Text) (pdus : List SnmpPdu) (onus onus' : Map ℤ Onu)
      → read_serials olt_id board pon oid pdus onus ≡ some onus'
      → read_walk olt_id board pon oid set_serial pdus onus ≡ onus'
  unfolding read_serials read_walk
  read_serials-eq-read_walk oid [] onus onus' h = ground (arith, h)
  read_serials-eq-read_walk oid (pdu ∷ pdus) onus onus' h =
      elim (Option-cases (extract_onu_id pdu.name oid)) [
        | inl e ↦ rw e (read_serials-eq-read_walk oid pdus onus onus' (rw (e, read_serials) at h))
        | inr (n, e) ↦ elim (Option-cases (parse_serial_number (some pdu))) [
          | inl p ↦ absurd (let q = rw (e, p, read_serials) at h in cc)
          | inr (sn, p) ↦
              let same : serial_of pdu ≡ sn = rw (p, serial_of) refl in
              rw e (
                ap
                  (λ (t : Text).
                    read_walk olt_id board pon oid set_serial pdus
                      (with_onu olt_id board pon n (λ o. record o { serial_number = t }) onus))
                  same
                ∙ read_serials-eq-read_walk oid pdus
                    (with_onu olt_id board pon n (λ o. record o { serial_number = sn }) onus) onus'
                    (rw (e, p, read_serials) at h))
        ]
      ]
