-- ===== src/Service/Onus/Walks.antt =====
-- `GetONUList` of internal/service/onu_service.go: the walks, and the ONUs that they make up.
use zzte.Strings.{trim_space, is_empty}
use zzte.Snmp.IfIndex.{calculate_if_index}
use zzte.Snmp.Oids.{
  build_walk_oid, extract_onu_id, oid_onu_status, oid_onu_name, oid_onu_serial_number,
  oid_onu_rx_power,
}
use zzte.Snmp.Values.{SnmpPdu, pdu_to_string, get_pdu_int}
use zzte.Snmp.Parsers.{
  Ratio, convert_power, parse_onu_status, parse_status_to_int, parse_serial_number,
}
use zzte.Snmp.Client.{Agent, bulk_walk}
use zzte.Snmp.Adapter.{FirmwareAdapter, adapter_convert_power}
use zzte.Domain.{Onu, Result, ok, err, message}
use zzte.Prelude.{
  List, Map, Option, Text, [], if◌then◌else◌, insert, int_eq, lookup, nat_eq, none, pos, some,
  text_eq, ℤ, ◌∷◌,
}

abbrev pub no_power : Ratio
no_power = record { num = pos 0; den = 1 }

-- the power of a raw value, where the adapter may be missing
unfoldable pub power_of : Option FirmwareAdapter → ℤ → Ratio
power_of none raw = convert_power raw
power_of (some adapter) raw = adapter_convert_power adapter raw

unfoldable pub set_status : SnmpPdu → Onu → Onu
set_status pdu o = record o {
  status = parse_onu_status (some pdu);
  status_code = parse_status_to_int (some pdu);
}

unfoldable pub set_name : SnmpPdu → Onu → Onu
set_name pdu o = record o { name = trim_space (pdu_to_string pdu) }

unfoldable pub set_rx_power : Option FirmwareAdapter → SnmpPdu → Onu → Onu
set_rx_power adapter pdu o = record o { rx_power = power_of adapter (get_pdu_int (some pdu)) }

module _ (olt_id : Text) (board pon : ℤ) where
  -- an ONU of which only the place is known
  unfoldable pub blank_onu : ℤ → Onu
  blank_onu onu_id = record {
    olt_id = olt_id;
    board = board;
    pon = pon;
    onu_id = onu_id;
    name = [];
    serial_number = [];
    type = [];
    status = [];
    status_code = pos 0;
    rx_power = no_power;
    tx_power = no_power;
    last_online = pos 0;
    last_offline = pos 0;
    offline_reason = [];
    offline_code = pos 0;
    wan_ip = [];
  }

  -- `getONU`, and a write to what it returns
  unfoldable pub with_onu : ℤ → (Onu → Onu) → Map ℤ Onu → Map ℤ Onu
  with_onu onu_id set' onus =
      insert onu_id (set' (elim (lookup onu_id onus) [ none ↦ blank_onu onu_id | some o ↦ o ])) onus

  -- the loop over a walk
  unfoldable pub read_walk : Text → (SnmpPdu → Onu → Onu) → List SnmpPdu → Map ℤ Onu → Map ℤ Onu
  read_walk base_oid set' [] onus = onus
  read_walk base_oid set' (pdu ∷ pdus) onus =
      read_walk base_oid set' pdus (elim (extract_onu_id pdu.name base_oid) [
        | none ↦ onus
        | some onu_id ↦ with_onu onu_id (set' pdu) onus
      ])

  -- the loop over the serial numbers; `none` is a panic
  unfoldable pub read_serials : Text → List SnmpPdu → Map ℤ Onu → Option (Map ℤ Onu)
  read_serials base_oid [] onus = some onus
  read_serials base_oid (pdu ∷ pdus) onus = elim (extract_onu_id pdu.name base_oid) [
    | none ↦ read_serials base_oid pdus onus
    | some onu_id ↦ elim (parse_serial_number (some pdu)) [
      | none ↦ none
      | some sn ↦
          read_serials base_oid pdus (with_onu onu_id (λ o. record o { serial_number = sn }) onus)
    ]
  ]

  abbrev pub walk_oid : Text → Text
  walk_oid base_oid = build_walk_oid base_oid (calculate_if_index (pos 1) board pon)

  module _ (agent : Agent) (adapter : Option FirmwareAdapter) where
    -- a walk after the first, which adds nothing when it fails
    unfoldable pub add_walk : Text → (SnmpPdu → Onu → Onu) → Map ℤ Onu → Map ℤ Onu
    add_walk oid set' onus = elim (bulk_walk agent oid) [
      | err _ ↦ onus
      | ok pdus ↦ read_walk oid set' pdus onus
    ]

    unfoldable pub add_serials : Text → Map ℤ Onu → Option (Map ℤ Onu)
    add_serials oid onus = elim (bulk_walk agent oid) [
      | err _ ↦ some onus
      | ok pdus ↦ read_serials oid pdus onus
    ]

    -- the walks 2 to 4
    unfoldable pub add_details : Map ℤ Onu → Option (Map ℤ Onu)
    add_details onus =
        elim (add_serials (walk_oid oid_onu_serial_number)
          (add_walk (walk_oid oid_onu_name) set_name onus)) [
            | none ↦ none
            | some onus' ↦ some (add_walk (walk_oid oid_onu_rx_power) (set_rx_power adapter) onus')
          ]

    -- all walks: an error of the first is the answer, and a port without ONUs is walked only once
    unfoldable pub collect_onus : Option (Result (Map ℤ Onu))
    collect_onus = elim (bulk_walk agent (walk_oid oid_onu_status)) [
      | err _ ↦ some (err (message "SNMP walk failed"))
      | ok pdus ↦
          (let onus = read_walk (walk_oid oid_onu_status) set_status pdus [] in
            if is_empty onus
            then some (ok [])
            else elim (add_details onus) [ none ↦ none | some onus' ↦ some (ok onus') ])
    ]
