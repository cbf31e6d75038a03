-- ===== src/Poller/Names.antt =====
-- internal/poller/names.go: `pollPON` and `pollOLT`. JSON and the order in which the ports are
-- polled are parameters. `none` is a panic, which ends the process.
pub mod Entries
pub mod Described
use zzte.Strings.{trim_space, is_empty}
use zzte.Domain.{OnuNameEntry, Result, ok, err, message}
use zzte.Cache.{RedisCache, set_onu_names}
use zzte.Snmp.Oids.{build_walk_oid, oid_onu_name, oid_onu_serial_number}
use zzte.Snmp.Values.{SnmpPdu, pdu_to_string}
use zzte.Snmp.Parsers.{parse_serial_number}
use zzte.Snmp.Client.{Agent, bulk_walk}
use zzte.Service.Manager.{OltManager, Devices, get_new_client}
use zzte.Service.Onus.Listing.{store}
use zzte.Service.Onus.Pons.{PonPort}
use zzte.Poller.Walks.{discover_pons, read_number}
use zzte.Prelude.{
  List, Map, Option, Text, [], arith, if◌then◌else◌, insert, int_eq, length, lookup, map, nat_eq,
  none, not, some, sort_by, text_eq, ℕ, ℤ, ◌+◌, ◌∷◌,
}

-- `tempEntry`
pub record TempEntry : Type 0 where
  pub name : Text
  pub serial_number : Text

-- the loop over the names
unfoldable pub read_names : Text → List SnmpPdu → Map ℤ TempEntry → Map ℤ TempEntry
read_names name_oid [] onus = onus
read_names name_oid (pdu ∷ results) onus =
    read_names name_oid results (elim (read_number name_oid pdu) [
      | none ↦ onus
      | some (onu_id, _) ↦
          insert onu_id (record { name = trim_space (pdu_to_string pdu); serial_number = [] }) onus
    ])

-- the write of a serial number, to an entry that has a name
unfoldable pub read_serial : SnmpPdu → ℤ → Map ℤ TempEntry → Option (Map ℤ TempEntry)
read_serial pdu onu_id onus = elim (lookup onu_id onus) [
  | none ↦ some onus
  | some entry ↦ elim (parse_serial_number (some pdu)) [
    | none ↦ none
    | some sn ↦ some (insert onu_id (record entry { serial_number = sn }) onus)
  ]
]

-- the loop over the serial numbers
unfoldable pub read_serials : Text → List SnmpPdu → Map ℤ TempEntry → Option (Map ℤ TempEntry)
read_serials sn_oid [] onus = some onus
read_serials sn_oid (pdu ∷ results) onus = elim (read_number sn_oid pdu) [
  | none ↦ read_serials sn_oid results onus
  | some (onu_id, _) ↦ elim (read_serial pdu onu_id onus) [
    | none ↦ none
    | some onus' ↦ read_serials sn_oid results onus'
  ]
]

abbrev pub to_entry : ℤ × TempEntry → OnuNameEntry
to_entry (onu_id, entry) = record {
  onu_id = onu_id;
  name = entry.name;
  serial_number = entry.serial_number;
}

-- the entries of the map, sorted
unfoldable pub name_entries : Map ℤ TempEntry → List OnuNameEntry
name_entries onus = sort_by (λ (n : OnuNameEntry). n.onu_id) (map to_entry onus)

module _ (agent : Agent) (if_index : ℤ) where
  -- both walks of a port; no names are an empty list, and failed serial numbers are left out
  unfoldable pub walk_names : Option (Result (List OnuNameEntry))
  walk_names =
      let sn_oid = build_walk_oid oid_onu_serial_number if_index in
      elim (bulk_walk agent (build_walk_oid oid_onu_name if_index)) [
        | err _ ↦ some (err (message "walk name gagal"))
        | ok results ↦
            (let onus = read_names (build_walk_oid oid_onu_name if_index) results [] in
              if is_empty onus then some (ok []) else elim (bulk_walk agent sn_oid) [
                | err _ ↦ some (ok (name_entries onus))
                | ok serials ↦ elim (read_serials sn_oid serials onus) [
                  | none ↦ none
                  | some onus' ↦ some (ok (name_entries onus'))
                ]
              ])
      ]

module _ (encode_names : List OnuNameEntry → Option Text) (now : ℕ) (olt_id : Text) where
  -- the write of `pollPON`
  unfoldable pub cache_names : ℤ → ℤ → List OnuNameEntry → Option RedisCache → Option RedisCache
  cache_names board pon names none = none
  cache_names board pon names (some c) =
      if is_empty names
      then some c
      else some (store (encode_names names) (λ data'. set_onu_names now olt_id board pon data') c)

  -- `pollPON`: the number of names
  unfoldable pub poll_pon :
      Agent → PonPort → Option RedisCache → Option RedisCache × Option (Result ℕ)
  poll_pon agent port cache = elim (walk_names agent port.if_index) [
    | none ↦ (cache, none)
    | some (err e) ↦ (cache, some (err e))
    | some (ok names) ↦
        (cache_names port.info.board port.info.pon names cache, some (ok (length names)))
  ]

  -- the goroutines of `pollOLT`, in the order in which they write, and the sum of what they count
  unfoldable pub poll_ports :
      Agent → List PonPort → Option RedisCache → Option RedisCache × Option ℕ
  poll_ports agent [] cache = (cache, some 0)
  poll_ports agent (port ∷ ports) cache =
      let (cache', result) = poll_pon agent port cache in
      let (cache'', total) = poll_ports agent ports cache' in
      elim result [
        | none ↦ (cache', none)
        | some (err _) ↦ (cache'', total)
        | some (ok count) ↦ (cache'', elim total [ none ↦ none | some n ↦ some (count + n) ])
      ]

  -- `pollOLT`; `order` arranges the ports as they are polled
  unfoldable pub poll_olt :
      Devices
      → (List PonPort → List PonPort)
      → OltManager
      → Option RedisCache
      → Option RedisCache × Option (Result ℕ)
  poll_olt devices order m cache = elim (get_new_client olt_id m) [
    | err _ ↦ (cache, some (err (message "gagal mendapat client SNMP")))
    | ok client ↦
        if not (devices client).connects
        then (cache, some (err (message "gagal konek ke OLT")))
        else elim (discover_pons (devices client)) [
          | err _ ↦ (cache, some (err (message "gagal discover PON")))
          | ok pons ↦
              (let (cache', total) = poll_ports (devices client) (order pons) cache in
                (cache', elim total [ none ↦ none | some n ↦ some (ok n) ]))
        ]
  ]
