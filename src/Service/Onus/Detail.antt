-- ===== src/Service/Onus/Detail.antt =====
-- `GetONUDetail` of internal/service/onu_service.go: one request for ten variables.
use zzte.Strings.{trim_space}
use zzte.Domain.{Onu, Result, ok, err, message, deadline_exceeded}
use zzte.Cache
use zzte.Cache.{RedisCache, ttl_onu_detail, set_onu_detail_with_ttl}
use zzte.Snmp.IfIndex.{calculate_if_index}
use zzte.Snmp.Oids.{
  build_onu_oid, oid_onu_name, oid_onu_serial_number, oid_onu_type, oid_onu_status,
  oid_onu_rx_power, oid_onu_tx_power, oid_onu_last_online, oid_onu_last_offline,
  oid_onu_offline_reason, oid_onu_wan_ip,
}
use zzte.Snmp.Values.{SnmpPdu, pdu_to_string, get_pdu_int}
use zzte.Snmp.Parsers.{
  Ratio, parse_onu_status, parse_status_to_int, parse_serial_number, parse_offline_reason,
  parse_offline_reason_to_int, parse_time,
}
use zzte.Snmp.Client.{get_multiple}
use zzte.Snmp.Adapter.{FirmwareAdapter}
use zzte.Service.Manager.{Devices, get_client, get_adapter, lock_of}
use zzte.Service.Onus.{adaptive_ttl}
use zzte.Service.Onus.Walks.{no_power, power_of, blank_onu}
use zzte.Service.Onus.Listing.{OnuService, Clock, elapsed, or_absent, store}
use zzte.Prelude.{
  Bool, List, Map, Option, Text, [], codes, if◌then◌else◌, insert, int_eq, lookup, nat_eq, none,
  not, pos, some, text_eq, ℕ, ℤ, ◌∷◌,
}

-- encoding/json on an ONU, and `time.Parse` on the layout of the device.
pub record DetailCodec : Type 0 where
  pub encode : Onu → Option Text
  pub decode : Text → Option Onu
  pub parse_layout : Text → Option ℤ

-- `pduMap`: of two variables with one name the later counts
unfoldable pub pdu_map_from : Map Text SnmpPdu → List SnmpPdu → Map Text SnmpPdu
pdu_map_from m [] = m
pdu_map_from m (pdu ∷ results) = pdu_map_from (insert pdu.name pdu m) results

unfoldable pub pdu_map : List SnmpPdu → Map Text SnmpPdu
pdu_map results = pdu_map_from [] results

-- `getString`
unfoldable pub get_string : Map Text SnmpPdu → Text → Text
get_string m oid = elim (lookup oid m) [ none ↦ [] | some pdu ↦ trim_space (pdu_to_string pdu) ]

-- a reading of the variable, or the zero value of the field
abbrev pub or_zero : {A : Type 0} → A → (Option SnmpPdu → A) → Option SnmpPdu → A
or_zero zero' read none = zero'
or_zero zero' read (some pdu) = read (some pdu)

-- the serial number, `none` where its reading panics
abbrev pub serial_or_nil : Option SnmpPdu → Option Text
serial_or_nil none = some []
serial_or_nil (some pdu) = parse_serial_number (some pdu)

module _ (codec : DetailCodec) (olt_id : Text) (board pon onu_id : ℤ) where
  -- the identifier of a variable of the ONU
  abbrev pub onu_oid : Text → Text → Text
  onu_oid base_oid suffix =
      build_onu_oid base_oid (calculate_if_index (pos 1) board pon) onu_id suffix

  abbrev pub detail_oids : List Text
  detail_oids =
      onu_oid oid_onu_name []
      ∷ onu_oid oid_onu_serial_number []
      ∷ onu_oid oid_onu_type []
      ∷ onu_oid oid_onu_status []
      ∷ onu_oid oid_onu_rx_power (codes ".1")
      ∷ onu_oid oid_onu_tx_power (codes ".1")
      ∷ onu_oid oid_onu_last_online []
      ∷ onu_oid oid_onu_last_offline []
      ∷ onu_oid oid_onu_offline_reason []
      ∷ onu_oid oid_onu_wan_ip []
      ∷ []

  -- the ONU that the variables describe; `none` is a panic
  unfoldable pub read_detail : Option FirmwareAdapter → Map Text SnmpPdu → Option Onu
  read_detail adapter m = elim (serial_or_nil (lookup (onu_oid oid_onu_serial_number []) m)) [
    | none ↦ none
    | some serial_number ↦
        (let status = lookup (onu_oid oid_onu_status []) m in
          let reason = lookup (onu_oid oid_onu_offline_reason []) m in
          let power : Option SnmpPdu → Ratio =
            or_zero no_power (λ p. power_of adapter (get_pdu_int p)) in
          some (record (blank_onu olt_id board pon onu_id) {
            name = get_string m (onu_oid oid_onu_name []);
            serial_number = serial_number;
            type = get_string m (onu_oid oid_onu_type []);
            status = or_zero [] parse_onu_status status;
            status_code = or_zero (pos 0) parse_status_to_int status;
            rx_power = power (lookup (onu_oid oid_onu_rx_power (codes ".1")) m);
            tx_power = power (lookup (onu_oid oid_onu_tx_power (codes ".1")) m);
            last_online =
                parse_time codec.parse_layout (get_string m (onu_oid oid_onu_last_online []));
            last_offline =
                parse_time codec.parse_layout (get_string m (onu_oid oid_onu_last_offline []));
            offline_reason = or_zero [] parse_offline_reason reason;
            offline_code = or_zero (pos 0) parse_offline_reason_to_int reason;
            wan_ip = get_string m (onu_oid oid_onu_wan_ip []);
          }))
  ]

  unfoldable pub cached_detail : Bool → ℕ → Option RedisCache → Option Onu
  cached_detail force_fresh now none = none
  cached_detail force_fresh now (some c) =
      if force_fresh then none else elim (Cache.get_onu_detail now olt_id board pon onu_id c) [
        | none ↦ none
        | some cache_data ↦ codec.decode cache_data
      ]

  unfoldable pub cache_detail : Clock → Onu → Option RedisCache → Option RedisCache
  cache_detail clock onu none = none
  cache_detail clock onu (some c) = some (
      store (codec.encode onu)
        (λ data'.
          set_onu_detail_with_ttl clock.finished olt_id board pon onu_id data'
            (adaptive_ttl (pos ttl_onu_detail) (elapsed clock)))
        c)

  module _ (devices : Devices) (acquired : Text → Bool) where
    -- `GetONUDetail` after a miss in the cache
    unfoldable pub fetch_onu_detail : Clock → OnuService → OnuService × Option (Result Onu)
    fetch_onu_detail clock s = elim (get_client olt_id s.manager) [
      | err e ↦ (s, some (err e))
      | ok client ↦
          (let adapter = or_absent (get_adapter olt_id s.manager) in
            let locked : OnuService = record s { manager = (lock_of olt_id s.manager).1 } in
            if not (acquired olt_id)
            then (locked, some (err deadline_exceeded))
            else elim (get_multiple (devices client) detail_oids) [
              | err _ ↦ (locked, some (err (message "SNMP GET failed")))
              | ok results ↦ elim (read_detail adapter (pdu_map results)) [
                | none ↦ (locked, none)
                | some onu ↦
                    (record locked { cache = cache_detail clock onu s.cache }, some (ok onu))
              ]
            ])
    ]

    -- `GetONUDetail`
    unfoldable pub get_onu_detail : Clock → Bool → OnuService → OnuService × Option (Result Onu)
    get_onu_detail clock force_fresh s = elim (cached_detail force_fresh clock.asked s.cache) [
      | some onu ↦ (s, some (ok onu))
      | none ↦ fetch_onu_detail clock s
    ]
