-- ===== src/Snmp/Parsers.antt =====
-- internal/snmp/parsers.go, and the status texts of internal/domain/onu.go.
pub mod Serial
use zzte.Strings.{trim_space, has_prefix, is_empty, to_upper}
use zzte.Strings.Decimal.{itoa}
use zzte.Snmp.IfIndex.{int_of, pattern_of}
use zzte.Snmp.Values.{SnmpPdu, get_pdu_int, get_pdu_bytes}
use zzte.Prelude.{
  Option, Text, [], arith, codes, drop, eqb_ℤ, if◌then◌else◌, int_eq, length, ltb, nat_eq, none,
  pos, some, take, text_eq, ℕ, ℤ, ◌||◌, ◌%◌, ◌++◌, ◌+◌, ◌-ℤ◌, ◌-◌, ◌/◌, ◌==◌, ◌∷◌,
}

-- `ParseFirmwareVersion`
unfoldable pub parse_firmware_version : Text → Text
unfolding trim_space has_prefix
parse_firmware_version value =
    let v = trim_space value in
    if has_prefix v (codes "V1.")
    then codes "v1"
    else if has_prefix v (codes "V2.")
    then codes "v2"
    else codes "unknown"

-- `ParseONUName`
unfoldable pub parse_onu_name : Text → Text
parse_onu_name value = trim_space value

-- `encoding/hex`
unfoldable pub hex_digit : ℕ → ℕ
hex_digit d = if ltb d 10 then b'0' + d else b'a' + (d - 10)

unfoldable pub encode_hex : Text → Text
unfolding hex_digit
encode_hex [] = []
encode_hex (c ∷ s) = hex_digit (c / 16) ∷ hex_digit (c % 16) ∷ encode_hex s

-- the body of `ParseSerialNumber`, once the bytes are read
unfoldable pub serial_of_bytes : Text → Text
unfolding encode_hex to_upper
serial_of_bytes bytes =
    if length bytes == 8
    then take 4 bytes ++ to_upper (encode_hex (drop 4 bytes))
    else to_upper (encode_hex bytes)

-- `ParseSerialNumber`; `none` is the panic of `getPDUBytes`.
unfoldable pub parse_serial_number : Option SnmpPdu → Option Text
parse_serial_number pdu = elim (get_pdu_bytes pdu) [
  | none ↦ none
  | some bytes ↦ some (serial_of_bytes bytes)
]

-- An exact fraction, in place of a `float64`.
pub record Ratio : Type 0 where
  pub num : ℤ
  pub den : ℕ

-- The sum that an `int` keeps.
abbrev pub wrap : ℤ → ℤ
wrap i = int_of (pattern_of i)

-- `ParsePower`, in dBm
unfoldable pub parse_power : Option SnmpPdu → Ratio
parse_power pdu =
    let raw = get_pdu_int pdu in
    if eqb_ℤ raw (pos 65535)
    then record { num = pos 0; den = 1 }
    else record { num = wrap (raw -ℤ pos 10000); den = 100 }

-- `domain.ConvertPower`, in dBm
unfoldable pub convert_power : ℤ → Ratio
convert_power raw = record { num = wrap (raw -ℤ pos 10000); den = 100 }

-- `ParseDistance`, in kilometres
unfoldable pub parse_distance : Option SnmpPdu → Ratio
parse_distance pdu = record { num = get_pdu_int pdu; den = 1000 }

-- `fmt.Sprintf("Unknown(%d)", code)`
unfoldable pub unknown_code : ℤ → Text
unknown_code code = codes "Unknown(" ++ (itoa code ++ codes ")")

-- the `switch` of `ParseONUStatus`
unfoldable pub onu_status : ℤ → Text
onu_status code =
    if eqb_ℤ code (pos 1)
    then codes "Offline"
    else if eqb_ℤ code (pos 2)
    then codes "Ranging"
    else if eqb_ℤ code (pos 3)
    then codes "Online"
    else if eqb_ℤ code (pos 4)
    then codes "LOS"
    else if eqb_ℤ code (pos 5)
    then codes "DyingGasp"
    else if eqb_ℤ code (pos 6)
    then codes "PowerOff"
    else if eqb_ℤ code (pos 7)
    then codes "Unauthorized"
    else if eqb_ℤ code (pos 8)
    then codes "AutoConfig"
    else if eqb_ℤ code (pos 9)
    then codes "FirmwareUpgrade"
    else unknown_code code

-- `ParseONUStatus` and `ParseStatusToInt`
unfoldable pub parse_onu_status : Option SnmpPdu → Text
unfolding onu_status
parse_onu_status pdu = onu_status (get_pdu_int pdu)

unfoldable pub parse_status_to_int : Option SnmpPdu → ℤ
parse_status_to_int pdu = get_pdu_int pdu

-- the `switch` of `ParseOfflineReason`
unfoldable pub offline_reason : ℤ → Text
offline_reason code =
    if eqb_ℤ code (pos 0)
    then codes "Normal"
    else if eqb_ℤ code (pos 2)
    then codes "LOS"
    else if eqb_ℤ code (pos 6)
    then codes "DyingGasp"
    else if eqb_ℤ code (pos 7)
    then codes "ManualShutdown"
    else unknown_code code

-- `ParseOfflineReason` and `ParseOfflineReasonToInt`
unfoldable pub parse_offline_reason : Option SnmpPdu → Text
unfolding offline_reason
parse_offline_reason pdu = offline_reason (get_pdu_int pdu)

unfoldable pub parse_offline_reason_to_int : Option SnmpPdu → ℤ
parse_offline_reason_to_int pdu = get_pdu_int pdu

-- `domain.StatusCodeToString`
unfoldable pub status_code_to_string : ℤ → Text
status_code_to_string code =
    if eqb_ℤ code (pos 1)
    then codes "Offline"
    else if eqb_ℤ code (pos 2)
    then codes "Ranging"
    else if eqb_ℤ code (pos 3)
    then codes "Online"
    else if eqb_ℤ code (pos 4)
    then codes "LOS"
    else if eqb_ℤ code (pos 5)
    then codes "DyingGasp"
    else if eqb_ℤ code (pos 6)
    then codes "PowerOff"
    else if eqb_ℤ code (pos 7)
    then codes "Unauthorized"
    else if eqb_ℤ code (pos 8)
    then codes "AutoConfig"
    else if eqb_ℤ code (pos 9)
    then codes "FirmwareUpgrade"
    else codes "Unknown"

-- `domain.OfflineCodeToString`
unfoldable pub offline_code_to_string : ℤ → Text
offline_code_to_string code =
    if eqb_ℤ code (pos 0)
    then codes "Normal"
    else if eqb_ℤ code (pos 2)
    then codes "LOS"
    else if eqb_ℤ code (pos 6)
    then codes "DyingGasp"
    else if eqb_ℤ code (pos 7)
    then codes "ManualShutdown"
    else codes "Unknown"

-- `ParseTime`; `parse_layout` is `time.Parse` on the layout "2006-01-02 15:04:05", and 0 the zero
-- time.
unfoldable pub parse_time : (Text → Option ℤ) → Text → ℤ
parse_time parse_layout value =
    let v = trim_space value in
    if is_empty v || has_prefix v (codes "0000-00-00")
    then pos 0
    else elim (parse_layout v) [ none ↦ pos 0 | some t ↦ t ]
