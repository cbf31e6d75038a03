-- ===== src/Snmp/Adapter.antt =====
-- internal/snmp/adapter.go
use zzte.Domain.{ok, err}
use zzte.Snmp.Oids.{oid_firmware_version}
use zzte.Snmp.Parsers.{Ratio, wrap, parse_firmware_version}
use zzte.Snmp.Client.{Agent, get_string}
use zzte.Prelude.{
  Text, arith, codes, eqb_ℤ, if◌then◌else◌, int_eq, nat_eq, pos, text_eq, ℤ, ◌-ℤ◌, ◌=ᵗ◌, ◌||◌, ◌≡◌,
}

pub record BaseAdapter : Type 0 where
  pub version : Text
  pub full_version : Text

-- The two implementations of the interface `FirmwareAdapter`.
pub data FirmwareAdapter : Type 0 where
  v1_adapter v2_adapter : BaseAdapter → FirmwareAdapter

abbrev base : FirmwareAdapter → BaseAdapter
base (v1_adapter b) = b
base (v2_adapter b) = b

unfoldable pub get_version : FirmwareAdapter → Text
get_version a = (base a).version

unfoldable pub get_full_version : FirmwareAdapter → Text
get_full_version a = (base a).full_version

-- the body that both versions of `ConvertPower` share
abbrev power : ℤ → Ratio
power raw =
    if eqb_ℤ raw (pos 65535) || eqb_ℤ raw (pos 0)
    then record { num = pos 0; den = 1 }
    else record { num = wrap (raw -ℤ pos 15000); den = 500 }

unfoldable pub adapter_convert_power : FirmwareAdapter → ℤ → Ratio
adapter_convert_power (v1_adapter b) raw = power raw
adapter_convert_power (v2_adapter b) raw = power raw

-- `NewAdapterFromVersion`
unfoldable pub new_adapter_from_version : Text → Text → FirmwareAdapter
new_adapter_from_version version full_version =
    if version =ᵗ codes "v2"
    then v2_adapter (record { version = codes "v2"; full_version = full_version })
    else v1_adapter (record { version = codes "v1"; full_version = full_version })

-- `DetectFirmware`, which never returns an error
unfoldable pub detect_firmware : Agent → FirmwareAdapter
detect_firmware agent = elim (get_string agent oid_firmware_version) [
  | err e ↦ v1_adapter (record { version = codes "v1"; full_version = codes "Unknown" })
  | ok version_str ↦
      if parse_firmware_version version_str =ᵗ codes "v2"
      then v2_adapter (record { version = codes "v2"; full_version = version_str })
      else v1_adapter (record { version = codes "v1"; full_version = version_str })
]

-- When the device answers the version query, the detected adapter keeps its whole answer, and
-- reports version "v2" exactly when the parsed version of the answer is "v2", and else "v1".
pub get_version-detect_firmware :
    (agent : Agent) (s : Text)
    → get_string agent oid_firmware_version ≡ ok s
    → (get_full_version (detect_firmware agent) ≡ s)
      × (get_version (detect_firmware agent)
          ≡ (if parse_firmware_version s =ᵗ codes "v2" then codes "v2" else codes "v1"))
unfolding detect_firmware get_version get_full_version
get_version-detect_firmware agent s h = (ground (arith, h), ground (arith, h))
