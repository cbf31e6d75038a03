-- ===== src/Poller/Names/Described.antt =====
-- The list of names that the names poller makes of a port.
use mathlib.Core.Path.{subst}
use mathlib.Core.Option.{some-injective}
use zzte.Strings.{is_empty}
use zzte.Domain.{OnuNameEntry, Result-cases, ok, err, Error}
use zzte.Snmp.Oids.{build_walk_oid, oid_onu_name, oid_onu_serial_number}
use zzte.Snmp.Values.{SnmpPdu}
use zzte.Snmp.Parsers.{parse_serial_number}
use zzte.Snmp.Client.{Agent, bulk_walk}
use zzte.Service.Onus.Described.{walked}
use zzte.Poller.Walks.{read_number}
use zzte.Poller.Names.{
  TempEntry, read_names, read_serial, read_serials, to_entry, name_entries, walk_names,
}
use zzte.Poller.Names.Entries.{
  of_number, of_name, with_name, with_serial, lookup-read_names, lookup-read_serials,
}
use zzte.Poller.Optical.Items.{last_with}
use zzte.Poller.Optical.Described.{walked-ok, walked-err, lookup-empty}
use zzte.Prelude.{
  Bool-cases, IsAscending, List, Map, Option, Option-cases, Text, UniqueKeys, [], ap,
  entries-IsAscending, entry_of, find_by, find_by-sorted_entries, inl, inr, insert,
  insert-UniqueKeys, int_eq, lookup, nat_eq, none, refl, some, sort_by, sym, text_eq, true, ℤ, ◌∙◌,
  ◌∷◌, ◌≡◌,
}

read_names-UniqueKeys :
    (oid : Text) (pdus : List SnmpPdu) (onus : Map ℤ TempEntry)
    → UniqueKeys onus
    → UniqueKeys (read_names oid pdus onus)
unfolding read_names
read_names-UniqueKeys oid [] onus u = u
read_names-UniqueKeys oid (pdu ∷ pdus) onus u =
    read_names-UniqueKeys oid pdus _ (put (read_number oid pdu))
  where
    put :
        (number : Option (ℤ × List Text))
        → UniqueKeys (elim number as (λ _. Map ℤ TempEntry) [
          | none ↦ onus
          | some (m, _) ↦ insert m (of_name pdu) onus
        ])
    put none = u
    put (some (m, _)) = insert-UniqueKeys m (of_name pdu) onus u

read_serial-UniqueKeys :
    (pdu : SnmpPdu) (m : ℤ) (onus onus' : Map ℤ TempEntry)
    → UniqueKeys onus
    → read_serial pdu m onus ≡ some onus'
    → UniqueKeys onus'
unfolding read_serial
read_serial-UniqueKeys pdu m onus onus' u h = elim (Option-cases (lookup m onus)) [
  | inl k ↦ subst UniqueKeys (some-injective onus onus' (rw (k, read_serial) at h)) u
  | inr (o, k) ↦ elim (Option-cases (parse_serial_number (some pdu))) [
    | inl p ↦ absurd (let q = rw (k, p, read_serial) at h in cc)
    | inr (sn, p) ↦
        subst UniqueKeys (some-injective _ onus' (rw (k, p, read_serial) at h))
          (insert-UniqueKeys m _ onus u)
  ]
]

read_serials-UniqueKeys :
    (oid : Text) (pdus : List SnmpPdu) (onus onus' : Map ℤ TempEntry)
    → UniqueKeys onus
    → read_serials oid pdus onus ≡ some onus'
    → UniqueKeys onus'
unfolding read_serials
read_serials-UniqueKeys oid [] onus onus' u h = subst UniqueKeys (some-injective onus onus' h) u
read_serials-UniqueKeys oid (pdu ∷ pdus) onus onus' u h =
    elim (Option-cases (read_number oid pdu)) [
      | inl e ↦ read_serials-UniqueKeys oid pdus onus onus' u (rw (e, read_serials) at h)
      | inr ((m, more), e) ↦ elim (Option-cases (read_serial pdu m onus)) [
        | inl k ↦ absurd (let q = rw (e, k, read_serials) at h in cc)
        | inr (next, k) ↦
            read_serials-UniqueKeys oid pdus next onus' (read_serial-UniqueKeys pdu m onus next u k)
              (rw (e, k, read_serials) at h)
      ]
    ]

-- the entry of a number, if the walk of the names has it
abbrev pub described : Agent → ℤ → List SnmpPdu → ℤ → Option TempEntry
described agent if_index names n =
    let sn_oid = build_walk_oid oid_onu_serial_number if_index in
    with_serial (last_with (of_number sn_oid n) (walked agent sn_oid))
      (with_name (last_with (of_number (build_walk_oid oid_onu_name if_index) n) names) none)

-- What the list is made of.
record IsDescribed (agent : Agent) (if_index : ℤ) (names : List SnmpPdu) (onus : Map ℤ TempEntry)
    : Type 0 where
  unique : UniqueKeys onus
  found : (n : ℤ) → lookup n onus ≡ described agent if_index names n

with_serial-none : (serial : Option SnmpPdu) → with_serial serial none ≡ none
with_serial-none none = refl
with_serial-none (some pdu) = refl

abbrev pub entry_number : OnuNameEntry → ℤ
entry_number e = e.onu_id

module _ (agent : Agent) (if_index : ℤ) (pdus : List SnmpPdu) where
  abbrev names_oid : Text
  names_oid = build_walk_oid oid_onu_name if_index

  abbrev serials_oid : Text
  serials_oid = build_walk_oid oid_onu_serial_number if_index

  abbrev named : Map ℤ TempEntry
  named = read_names names_oid pdus []

  seen : (n : ℤ) → lookup n named ≡ with_name (last_with (of_number names_oid n) pdus) none
  unfolding lookup
  seen = lookup-read_names names_oid pdus []

  abbrev after : ℤ → List SnmpPdu → Option TempEntry
  after n serials =
      with_serial (last_with (of_number serials_oid n) serials)
        (with_name (last_with (of_number names_oid n) pdus) none)

  unnamed-IsDescribed : is_empty named ≡ true → IsDescribed agent if_index pdus []
  unfolding lookup
  unnamed-IsDescribed b = record {
    unique = tt;
    found = λ n.
        let serial = last_with (of_number serials_oid n) (walked agent serials_oid) in
        sym (
          ap (with_serial serial) (sym (seen n) ∙ lookup-empty n named b)
          ∙ with_serial-none serial);
  }

  unnumbered-IsDescribed :
      (x : Error) → bulk_walk agent serials_oid ≡ err x → IsDescribed agent if_index pdus named
  unnumbered-IsDescribed x e = record {
    unique = read_names-UniqueKeys names_oid pdus [] tt;
    found = λ n. seen n ∙ ap (after n) (sym (walked-err agent serials_oid e));
  }

  numbered-IsDescribed :
      (serials : List SnmpPdu) (onus : Map ℤ TempEntry)
      → bulk_walk agent serials_oid ≡ ok serials
      → read_serials serials_oid serials named ≡ some onus
      → IsDescribed agent if_index pdus onus
  numbered-IsDescribed serials onus e k = record {
    unique =
        read_serials-UniqueKeys serials_oid serials named onus
          (read_names-UniqueKeys names_oid pdus [] tt) k;
    found = λ n.
        lookup-read_serials serials_oid serials named onus n k
        ∙ ap (with_serial (last_with (of_number serials_oid n) serials)) (seen n)
        ∙ ap (after n) (sym (walked-ok agent serials_oid e));
  }

  -- What is listed is what the walks describe.
  walk_names-IsDescribed :
      (names : List OnuNameEntry)
      → bulk_walk agent names_oid ≡ ok pdus
      → walk_names agent if_index ≡ some (ok names)
      → (onus : Map ℤ TempEntry) × (name_entries onus ≡ names)
        × IsDescribed agent if_index pdus onus
  unfolding walk_names name_entries sort_by
  walk_names-IsDescribed names asked h = elim (Bool-cases (is_empty named)) [
    | inl b ↦
        let q : some (ok []) ≡ some (ok names) = rw (asked, b, walk_names) at h in
        let same : [] ≡ names = cc q in ([], same, unnamed-IsDescribed b)
    | inr b ↦ elim (Result-cases (bulk_walk agent serials_oid)) [
      | inr (x, e) ↦
          let q : some (ok (name_entries named)) ≡ some (ok names) =
            rw (asked, b, e, walk_names) at h in
          let same : name_entries named ≡ names = cc q in (named, same, unnumbered-IsDescribed x e)
      | inl (serials, e) ↦ elim (Option-cases (read_serials serials_oid serials named)) [
        | inl k ↦ absurd (let q = rw (asked, b, e, k, walk_names) at h in cc)
        | inr (onus, k) ↦
            let q : some (ok (name_entries onus)) ≡ some (ok names) =
              rw (asked, b, e, k, walk_names) at h in
            let same : name_entries onus ≡ names = cc q in
            (onus, same, numbered-IsDescribed serials onus e k)
      ]
    ]
  ]

-- the entry of a number
abbrev pub entry_at : ℤ → Option TempEntry → Option OnuNameEntry
entry_at n none = none
entry_at n (some o) = some (to_entry (n, o))

-- The names that the names poller stores for a port are sorted by number, without a number twice,
-- and an ONU is among them exactly if the walk of the names has its number: with the last name of
-- the number, trimmed, and with its last serial number, or none where none is read.
pub walk_names-described :
    (agent : Agent) (if_index : ℤ) (pdus : List SnmpPdu) (names : List OnuNameEntry)
    → bulk_walk agent (build_walk_oid oid_onu_name if_index) ≡ ok pdus
    → walk_names agent if_index ≡ some (ok names)
    → IsAscending entry_number names
      × ((n : ℤ) → find_by entry_number n names ≡ entry_at n (described agent if_index pdus n))
unfolding name_entries
walk_names-described agent if_index pdus names asked h =
    let (onus, same, k) = walk_names-IsDescribed agent if_index pdus names asked h in
    (
      subst (IsAscending entry_number) same
          (entries-IsAscending entry_number to_entry (λ e. refl) onus k.unique),
      λ n.
          ap (find_by entry_number n) (sym same)
          ∙ find_by-sorted_entries entry_number to_entry (λ e. refl) n onus
          ∙ by_case n (lookup n onus)
          ∙ ap (entry_at n) (k.found n),
    )
  where
    by_case :
        (n : ℤ) (o : Option TempEntry)
        → entry_of entry_number to_entry (λ e. refl) n o ≡ entry_at n o
    by_case n none = refl
    by_case n (some o) = refl
