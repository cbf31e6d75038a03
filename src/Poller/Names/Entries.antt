-- ===== src/Poller/Names/Entries.antt =====
-- What the names poller makes of the two walks of a port, number by number.
use mathlib.Core.Option.{some-injective}
use zzte.Strings.{trim_space}
use zzte.Snmp.Values.{SnmpPdu, pdu_to_string}
use zzte.Snmp.Parsers.{parse_serial_number}
use zzte.Service.Onus.Described.{serial_of}
use zzte.Poller.Walks.{read_number}
use zzte.Poller.Names.{TempEntry, read_names, read_serial, read_serials}
use zzte.Poller.Optical.Items.{last_with, has_number}
use zzte.Prelude.{
  Bool, Bool-cases, List, Map, Option, Option-cases, Text, [], ap, eqb_ℤ, eqb_ℤ_iff, false,
  if◌then◌else◌, inl, inr, insert, int_eq, lookup, lookup-insert, nat_eq, none, refl, some, sym,
  text_eq, true, ℤ, ◌∙◌, ◌∷◌, ◌≡◌,
}

abbrev pub of_number : Text → ℤ → SnmpPdu → Bool
of_number oid n pdu = has_number n (read_number oid pdu)

abbrev pub of_name : SnmpPdu → TempEntry
of_name pdu = record { name = trim_space (pdu_to_string pdu); serial_number = [] }

-- an entry after the walk of the names, and after that of the serial numbers
abbrev pub with_name : Option SnmpPdu → Option TempEntry → Option TempEntry
with_name none o = o
with_name (some pdu) o = some (of_name pdu)

abbrev pub with_serial : Option SnmpPdu → Option TempEntry → Option TempEntry
with_serial none o = o
with_serial (some pdu) none = none
with_serial (some pdu) (some o) = some (record o { serial_number = serial_of pdu })

module _ (pdu : SnmpPdu) (onus : Map ℤ TempEntry) (n : ℤ) where
  lookup-put_name :
      (number : Option (ℤ × List Text))
      → lookup n (elim number [ none ↦ onus | some (m, _) ↦ insert m (of_name pdu) onus ])
        ≡ with_name (if has_number n number then some pdu else none) (lookup n onus)
  lookup-put_name none = refl
  lookup-put_name (some (m, more)) = elim (Bool-cases (eqb_ℤ m n)) [
    | inl e ↦ rw (lookup-insert m n (of_name pdu) onus, e) refl
    | inr e ↦ rw (lookup-insert m n (of_name pdu) onus, e) refl
  ]

  lookup-unread :
      (m : ℤ)
      → lookup m onus ≡ none
      → lookup n onus ≡ with_serial (if eqb_ℤ m n then some pdu else none) (lookup n onus)
  lookup-unread m k = elim (Bool-cases (eqb_ℤ m n)) [
    | inl e ↦
        let k' : lookup n onus ≡ none = ap (λ j. lookup j onus) (sym ((eqb_ℤ_iff m n).0 e)) ∙ k in
        rw (e, k') refl
    | inr e ↦ rw e refl
  ]

  lookup-reread :
      (m : ℤ) (o : TempEntry) (sn : Text)
      → lookup m onus ≡ some o
      → parse_serial_number (some pdu) ≡ some sn
      → (if eqb_ℤ m n then some (record o { serial_number = sn }) else lookup n onus)
        ≡ with_serial (if eqb_ℤ m n then some pdu else none) (lookup n onus)
  lookup-reread m o sn k p = elim (Bool-cases (eqb_ℤ m n)) [
    | inl e ↦
        let k' : lookup n onus ≡ some o = ap (λ j. lookup j onus) (sym ((eqb_ℤ_iff m n).0 e)) ∙ k in
        let same : serial_of pdu ≡ sn = rw (p, serial_of) refl in
        rw (e, k') (ap (λ (t : Text). some (record o { serial_number = t })) (sym same))
    | inr e ↦ rw e refl
  ]

  lookup-read_serial :
      (m : ℤ) (onus' : Map ℤ TempEntry)
      → read_serial pdu m onus ≡ some onus'
      → lookup n onus' ≡ with_serial (if eqb_ℤ m n then some pdu else none) (lookup n onus)
  unfolding read_serial
  lookup-read_serial m onus' h = elim (Option-cases (lookup m onus)) [
    | inl k ↦
        let same : onus ≡ onus' = some-injective onus onus' (rw (k, read_serial) at h) in
        ap (lookup n) (sym same) ∙ lookup-unread m k
    | inr (o, k) ↦ elim (Option-cases (parse_serial_number (some pdu))) [
      | inl p ↦ absurd (let q = rw (k, p, read_serial) at h in cc)
      | inr (sn, p) ↦
          let o' : TempEntry = record o { serial_number = sn } in
          let same : insert m o' onus ≡ onus' =
            some-injective (insert m o' onus) onus' (rw (k, p, read_serial) at h) in
          ap (lookup n) (sym same) ∙ lookup-insert m n o' onus ∙ lookup-reread m o sn k p
    ]
  ]

name-cons :
    (later : Option SnmpPdu) (b : Bool) (pdu : SnmpPdu) (o : Option TempEntry)
    → with_name later (with_name (if b then some pdu else none) o)
      ≡ with_name (elim later [ some q ↦ some q | none ↦ if b then some pdu else none ]) o
name-cons none b pdu o = refl
name-cons (some q) b pdu o = refl

serial-cons :
    (later : Option SnmpPdu) (b : Bool) (pdu : SnmpPdu) (o : Option TempEntry)
    → with_serial later (with_serial (if b then some pdu else none) o)
      ≡ with_serial (elim later [ some q ↦ some q | none ↦ if b then some pdu else none ]) o
serial-cons none b pdu o = refl
serial-cons (some q) true pdu none = refl
serial-cons (some q) true pdu (some o) = refl
serial-cons (some q) false pdu o = refl

pub lookup-read_names :
    (oid : Text) (pdus : List SnmpPdu) (onus : Map ℤ TempEntry) (n : ℤ)
    → lookup n (read_names oid pdus onus)
      ≡ with_name (last_with (of_number oid n) pdus) (lookup n onus)
unfolding read_names
lookup-read_names oid [] onus n = refl
lookup-read_names oid (pdu ∷ pdus) onus n =
    lookup-read_names oid pdus _ n
    ∙ ap (with_name (last_with (of_number oid n) pdus))
        (lookup-put_name pdu onus n (read_number oid pdu))
    ∙ name-cons (last_with (of_number oid n) pdus) (of_number oid n pdu) pdu (lookup n onus)

pub lookup-read_serials :
    (oid : Text) (pdus : List SnmpPdu) (onus onus' : Map ℤ TempEntry) (n : ℤ)
    → read_serials oid pdus onus ≡ some onus'
    → lookup n onus' ≡ with_serial (last_with (of_number oid n) pdus) (lookup n onus)
unfolding read_serials
lookup-read_serials oid [] onus onus' n h = ap (lookup n) (sym (some-injective onus onus' h))
lookup-read_serials oid (pdu ∷ pdus) onus onus' n h = elim (Option-cases (read_number oid pdu)) [
  | inl e ↦
      lookup-read_serials oid pdus onus onus' n (rw (e, read_serials) at h) ∙ later onus (rw e refl)
  | inr ((m, more), e) ↦ elim (Option-cases (read_serial pdu m onus)) [
    | inl k ↦ absurd (let q = rw (e, k, read_serials) at h in cc)
    | inr (next, k) ↦
        lookup-read_serials oid pdus next onus' n (rw (e, k, read_serials) at h)
        ∙ later next (rw e (lookup-read_serial pdu onus n m next k))
  ]
]
  where
    later :
        (next : Map ℤ TempEntry)
        → lookup n next
          ≡ with_serial (if of_number oid n pdu then some pdu else none) (lookup n onus)
        → with_serial (last_with (of_number oid n) pdus) (lookup n next)
          ≡ with_serial (last_with (of_number oid n) (pdu ∷ pdus)) (lookup n onus)
    later next step =
        ap (with_serial (last_with (of_number oid n) pdus)) step
        ∙ serial-cons (last_with (of_number oid n) pdus) (of_number oid n pdu) pdu (lookup n onus)
