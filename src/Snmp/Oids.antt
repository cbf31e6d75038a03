-- ===== src/Snmp/Oids.antt =====
-- internal/snmp/oids.go, and the readers of an ONU's number from an identifier: `extractONUID` of
-- internal/service/onu_service.go and `ExtractONUIDFromOID` of internal/snmp/client.go. The `itoa`
-- of oids.go writes the digits of the number from the last to the first, as `Decimal.itoa` does.
pub mod RoundTrip
use zzte.Strings.{strip_prefix, split, is_empty}
use zzte.Strings.Decimal.{put_digits, max_digits, atoi}
use zzte.Prelude.{
  List, Option, Text, [], arith, codes, if◌then◌else◌, int_eq, nat_eq, negsuc, none, pos, some, suc,
  text_eq, ℤ, ◌++◌, ◌==◌, ◌^◌, ◌∷◌,
}

abbrev pub oid_base : Text
oid_base = codes ".1.3.6.1.4.1.3902.1012"

abbrev pub oid_firmware_version : Text
oid_firmware_version = codes ".1.3.6.1.4.1.3902.1015.2.1.2.2.1.4.1.1.1"

abbrev pub oid_onu_name : Text
oid_onu_name = oid_base ++ codes ".3.28.1.1.2"

abbrev pub oid_onu_serial_number : Text
oid_onu_serial_number = oid_base ++ codes ".3.28.1.1.5"

abbrev pub oid_onu_type : Text
oid_onu_type = oid_base ++ codes ".3.50.11.2.1.17"

abbrev pub oid_onu_rx_power : Text
oid_onu_rx_power = oid_base ++ codes ".3.50.12.1.1.10"

abbrev pub oid_onu_tx_power : Text
oid_onu_tx_power = oid_base ++ codes ".3.50.12.1.1.9"

abbrev pub oid_onu_status : Text
oid_onu_status = oid_base ++ codes ".3.28.2.1.4"

abbrev pub oid_onu_last_online : Text
oid_onu_last_online = oid_base ++ codes ".3.28.2.1.5"

abbrev pub oid_onu_last_offline : Text
oid_onu_last_offline = oid_base ++ codes ".3.28.2.1.6"

abbrev pub oid_onu_offline_reason : Text
oid_onu_offline_reason = oid_base ++ codes ".3.28.2.1.3"

abbrev pub oid_onu_wan_ip : Text
oid_onu_wan_ip = oid_base ++ codes ".3.50.16.1.1.10"

abbrev pub oid_pon_description : Text
oid_pon_description = oid_base ++ codes ".3.13.1.1.1"

-- The `itoa` of oids.go. The least `int` is its own negation, so the loop writes no digit for it.
unfoldable pub itoa : ℤ → Text
itoa (pos n) = if n == 0 then b'0' ∷ [] else put_digits max_digits n []
itoa (negsuc n) = b'-' ∷ (if suc n == 2 ^ 63 then [] else put_digits max_digits (suc n) [])

unfoldable pub build_walk_oid : Text → ℤ → Text
build_walk_oid base_oid if_index = base_oid ++ b'.' ∷ itoa if_index

unfoldable pub build_onu_oid : Text → ℤ → ℤ → Text → Text
build_onu_oid base_oid if_index onu_id suffix =
    let oid = base_oid ++ b'.' ∷ (itoa if_index ++ b'.' ∷ itoa onu_id) in
    if is_empty suffix then oid else oid ++ suffix

-- `parts[0]`; `Split` never returns an empty slice.
abbrev pub first_part : List Text → Text
first_part [] = []
first_part (p ∷ ps) = p

-- `extractONUID`: an error is `none`.
unfoldable pub extract_onu_id : Text → Text → Option ℤ
extract_onu_id full_oid base_oid = elim (strip_prefix (base_oid ++ b'.' ∷ []) full_oid) [
  | none ↦ none
  | some suffix ↦
      (let part = first_part (split b'.' suffix) in if is_empty part then none else atoi part)
]
