-- ===== src/Poller/Optical/Items.antt =====
-- What the optical poller makes of the two walks of a port, number by number: of each walk the
-- last variable of a number counts.
use zzte.Strings.{is_empty}
use zzte.Snmp.Values.{SnmpPdu, get_pdu_int}
use zzte.Snmp.Parsers.{parse_onu_status, parse_status_to_int}
use zzte.Snmp.Adapter.{FirmwareAdapter}
use zzte.Service.Onus.Walks.{no_power, power_of}
use zzte.Poller.Walks.{read_number}
use zzte.Poller.Optical.{TempOnu, read_statuses, put_power, read_powers}
use zzte.Prelude.{
  Bool, Bool-cases, List, Map, Option, Option-cases, Text, [], ap, eqb_ℤ, eqb_ℤ_iff, false,
  if◌then◌else◌, inl, inr, insert, int_eq, lookup, lookup-insert, nat_eq, none, not, refl, some,
  text_eq, true, ℤ, ◌&&◌, ◌∙◌, ◌∷◌, ◌≡◌,
}

-- the last variable that passes a test
abbrev pub last_with : (SnmpPdu → Bool) → List SnmpPdu → Option SnmpPdu
last_with test [] = none
last_with test (pdu ∷ pdus) = elim (last_with test pdus) [
  | some later ↦ some later
  | none ↦ if test pdu then some pdu else none
]

-- whether a variable of the walk is of the number, and is followed by enough
abbrev pub has_number : ℤ → Option (ℤ × List Text) → Bool
has_number n none = false
has_number n (some (m, more)) = eqb_ℤ m n

abbrev has_more : ℤ → Option (ℤ × List Text) → Bool
has_more n none = false
has_more n (some (m, more)) = eqb_ℤ m n && not (is_empty more)

abbrev pub is_status : Text → ℤ → SnmpPdu → Bool
is_status oid n pdu = has_number n (read_number oid pdu)

abbrev pub is_power : Text → ℤ → SnmpPdu → Bool
is_power oid n pdu = has_more n (read_number oid pdu)

abbrev pub of_status : SnmpPdu → TempOnu
of_status pdu = record {
  status = parse_onu_status (some pdu);
  status_code = parse_status_to_int (some pdu);
  rx_power = no_power;
}

abbrev pub set_power : Option FirmwareAdapter → SnmpPdu → TempOnu → TempOnu
set_power adapter pdu o = record o { rx_power = power_of adapter (get_pdu_int (some pdu)) }

-- an ONU after the walk of the states
abbrev pub with_status : Option SnmpPdu → Option TempOnu → Option TempOnu
with_status none o = o
with_status (some pdu) o = some (of_status pdu)

-- an ONU after the walk of the powers
abbrev pub with_power : Option FirmwareAdapter → Option SnmpPdu → Option TempOnu → Option TempOnu
with_power adapter none o = o
with_power adapter (some pdu) none = none
with_power adapter (some pdu) (some o) = some (set_power adapter pdu o)

and_false : (b : Bool) → (b && false) ≡ false
and_false true = refl
and_false false = refl

and_true : (b : Bool) → (b && true) ≡ b
and_true true = refl
and_true false = refl

module _ (pdu : SnmpPdu) (onus : Map ℤ TempOnu) (n : ℤ) where
  lookup-put_status :
      (number : Option (ℤ × List Text))
      → lookup n (elim number [ none ↦ onus | some (m, _) ↦ insert m (of_status pdu) onus ])
        ≡ with_status (if has_number n number then some pdu else none) (lookup n onus)
  lookup-put_status none = refl
  lookup-put_status (some (m, more)) = elim (Bool-cases (eqb_ℤ m n)) [
    | inl e ↦ rw (lookup-insert m n (of_status pdu) onus, e) refl
    | inr e ↦ rw (lookup-insert m n (of_status pdu) onus, e) refl
  ]

  lookup-put_power_one :
      (adapter : Option FirmwareAdapter) (m : ℤ)
      → lookup n (put_power adapter pdu m onus)
        ≡ with_power adapter (if eqb_ℤ m n then some pdu else none) (lookup n onus)
  unfolding put_power
  lookup-put_power_one adapter m = elim (Bool-cases (eqb_ℤ m n)) [
    | inl e ↦
        let same : lookup m onus ≡ lookup n onus = ap (λ j. lookup j onus) ((eqb_ℤ_iff m n).0 e) in
        elim (Option-cases (lookup n onus)) [
          | inl k ↦ rw (same ∙ k, put_power) (rw (e, k) refl)
          | inr (o, k) ↦
              rw (same ∙ k, put_power)
                (rw (lookup-insert m n (set_power adapter pdu o) onus, e, k) refl)
        ]
    | inr e ↦ elim (Option-cases (lookup m onus)) [
      | inl k ↦ rw (e, k, put_power) refl
      | inr (o, k) ↦
          rw (k, put_power) (rw (lookup-insert m n (set_power adapter pdu o) onus, e) refl)
    ]
  ]

  lookup-put_power :
      (adapter : Option FirmwareAdapter) (number : Option (ℤ × List Text))
      → lookup n (elim number [
        | none ↦ onus
        | some (m, more) ↦ if is_empty more then onus else put_power adapter pdu m onus
      ])
        ≡ with_power adapter (if has_more n number then some pdu else none) (lookup n onus)
  lookup-put_power adapter none = refl
  lookup-put_power adapter (some (m, [])) = rw (and_false (eqb_ℤ m n)) refl
  lookup-put_power adapter (some (m, p ∷ ps)) =
      rw (and_true (eqb_ℤ m n)) (lookup-put_power_one adapter m)

status-cons :
    (later : Option SnmpPdu) (b : Bool) (pdu : SnmpPdu) (o : Option TempOnu)
    → with_status later (with_status (if b then some pdu else none) o)
      ≡ with_status (elim later [ some q ↦ some q | none ↦ if b then some pdu else none ]) o
status-cons none b pdu o = refl
status-cons (some q) b pdu o = refl

power-cons :
    (adapter : Option FirmwareAdapter) (later : Option SnmpPdu) (b : Bool) (pdu : SnmpPdu)
    (o : Option TempOnu)
    → with_power adapter later (with_power adapter (if b then some pdu else none) o)
      ≡ with_power adapter (elim later [ some q ↦ some q | none ↦ if b then some pdu else none ]) o
power-cons adapter none b pdu o = refl
power-cons adapter (some q) true pdu none = refl
power-cons adapter (some q) true pdu (some o) = refl
power-cons adapter (some q) false pdu o = refl

pub lookup-read_statuses :
    (oid : Text) (pdus : List SnmpPdu) (onus : Map ℤ TempOnu) (n : ℤ)
    → lookup n (read_statuses oid pdus onus)
      ≡ with_status (last_with (is_status oid n) pdus) (lookup n onus)
unfolding read_statuses
lookup-read_statuses oid [] onus n = refl
lookup-read_statuses oid (pdu ∷ pdus) onus n =
    lookup-read_statuses oid pdus _ n
    ∙ ap (with_status (last_with (is_status oid n) pdus))
        (lookup-put_status pdu onus n (read_number oid pdu))
    ∙ status-cons (last_with (is_status oid n) pdus) (is_status oid n pdu) pdu (lookup n onus)

pub lookup-read_powers :
    (adapter : Option FirmwareAdapter) (oid : Text) (pdus : List SnmpPdu) (onus : Map ℤ TempOnu)
    (n : ℤ)
    → lookup n (read_powers adapter oid pdus onus)
      ≡ with_power adapter (last_with (is_power oid n) pdus) (lookup n onus)
unfolding read_powers
lookup-read_powers adapter oid [] onus n = refl
lookup-read_powers adapter oid (pdu ∷ pdus) onus n =
    lookup-read_powers adapter oid pdus _ n
    ∙ ap (with_power adapter (last_with (is_power oid n) pdus))
        (lookup-put_power pdu onus n adapter (read_number oid pdu))
    ∙ power-cons adapter (last_with (is_power oid n) pdus) (is_power oid n pdu) pdu (lookup n onus)
