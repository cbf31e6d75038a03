-- ===== src/Examples/Snmp.antt =====
-- Indices, identifiers, serial numbers and adapters.
use zzte.Domain.{ok}
use zzte.Snmp.IfIndex.{calculate_if_index, parse_if_index, parse_if_index-calculate_if_index}
use zzte.Snmp.Oids.{
  build_walk_oid, build_onu_oid, extract_onu_id, oid_onu_name, oid_firmware_version,
}
use zzte.Snmp.Oids.RoundTrip.{extract_onu_id-build_onu_oid}
use zzte.Snmp.Values.{octet_string, bytes, pdu_to_string}
use zzte.Snmp.Parsers.{serial_of_bytes}
use zzte.Snmp.Parsers.Serial.{bytes_of_serial, bytes_of_serial-serial_of_bytes}
use zzte.Snmp.Client.{Agent, get_string}
use zzte.Prelude.{
  Text, [], arith, codes, int_eq, length, nat_eq, none, pos, refl, some, text_eq, true, ℕ, ◌++◌,
  ◌∷◌, ◌≡◌,
}

parse_if_index_example : parse_if_index (calculate_if_index (pos 1) (pos 2) (pos 16)) ≡ (1, 2, 16)
parse_if_index_example = parse_if_index-calculate_if_index (pos 1) 2 16 (omega arith) (omega arith)

abbrev slot : ℕ
slot = 2

abbrev port : ℕ
port = 16

extract_onu_id_example :
    extract_onu_id
      (build_onu_oid oid_onu_name (pos 268566784) (pos 12) (codes ".1"))
      (build_walk_oid oid_onu_name (pos 268566784))
    ≡ some (pos 12)
extract_onu_id_example =
    extract_onu_id-build_onu_oid oid_onu_name (codes ".1") (pos 268566784) 12 (omega arith) refl

abbrev serial_bytes : Text
serial_bytes = codes "ZTEG" ++ 200 ∷ 18 ∷ 0 ∷ 255 ∷ []

serial_example :
    (length (serial_of_bytes serial_bytes) ≡ 12)
    × (bytes_of_serial (serial_of_bytes serial_bytes) ≡ serial_bytes)
serial_example = bytes_of_serial-serial_of_bytes serial_bytes refl (ground arith)

-- A device with firmware V2 that refuses bulk walks.
abbrev device : Agent
device = record {
  get = λ oids. some (
      (record { name = oid_firmware_version; asn1 = octet_string; value = bytes (codes "V2.1.0") })
      ∷ []);
  walk = λ oid. some [];
  bulk_walk = λ oid. none;
  connects = true;
}

device-version : get_string device oid_firmware_version ≡ ok (codes "V2.1.0")
unfolding get_string pdu_to_string
device-version = refl
