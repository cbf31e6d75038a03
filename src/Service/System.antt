-- ===== src/Service/System.antt =====
-- internal/service/system_service.go. `acquired` tells for which OLTs the lock is got before the
-- context of the request ends, and `encode` and `decode` are encoding/json on OLTSystemInfo.
pub mod Cached
pub mod Uptime
use zzte.Strings.{has_suffix}
use zzte.Strings.Decimal.{itoa}
use zzte.Snmp.Values.{SnmpPdu, pdu_to_string, get_pdu_int64}
use zzte.Snmp.Client.{get_multiple}
use zzte.Domain.{Result, ok, err, message, deadline_exceeded, OltInstance}
use zzte.Cache.{RedisCache, get_health, set_health}
use zzte.Service.Manager.{OltManager, Devices, get_olt, get_client, list_olts, lock_of}
use zzte.Prelude.{
  Bool, List, Option, Text, [], arith, codes, false, if◌then◌else◌, int_eq, ltb_ℤ, nat_eq, negsuc,
  none, not, pos, some, suc, text_eq, true, zero, ℕ, ℤ, ◌%◌, ◌++◌, ◌/◌, ◌∷◌,
}

pub record OltSystemInfo : Type 0 where
  pub olt_id : Text
  pub name : Text
  pub host : Text
  pub sys_descr : Text
  pub sys_name : Text
  pub uptime : Text
  pub uptime_ticks : ℤ
  pub cpu_usage : ℤ
  pub memory_usage : ℤ
  pub is_online : Bool

-- The service reads the registry and may have a cache.
pub record SystemState : Type 0 where
  pub manager : OltManager
  pub cache : Option RedisCache

pub record Codec : Type 0 where
  pub encode : OltSystemInfo → Option Text
  pub decode : Text → Option OltSystemInfo

abbrev pub oid_sys_descr : Text
oid_sys_descr = codes ".1.3.6.1.2.1.1.1.0"

abbrev pub oid_sys_name : Text
oid_sys_name = codes ".1.3.6.1.2.1.1.5.0"

abbrev pub oid_sys_uptime : Text
oid_sys_uptime = codes ".1.3.6.1.2.1.1.3.0"

abbrev pub oid_cpu_usage : Text
oid_cpu_usage = codes ".1.3.6.1.4.1.3902.1015.2.1.1.3.1.9.1.1.1"

abbrev pub oid_memory_usage : Text
oid_memory_usage = codes ".1.3.6.1.4.1.3902.1015.2.1.1.3.1.11.1.1.1"

-- Go's `/` and `%` by a positive number, which round toward 0
abbrev negate : ℕ → ℤ
negate zero = pos 0
negate (suc n) = negsuc n

abbrev quotient : ℤ → ℕ → ℤ
quotient (pos n) d = pos (n / d)
quotient (negsuc n) d = negate (suc n / d)

abbrev remainder : ℤ → ℕ → ℤ
remainder (pos n) d = pos (n % d)
remainder (negsuc n) d = negate (suc n % d)

-- `ParseUptime`
unfoldable pub parse_uptime : ℤ → Text
parse_uptime ticks =
    let seconds = quotient ticks 100 in
    let minutes = quotient seconds 60 in
    let hours = quotient minutes 60 in
    let days = quotient hours 24 in
    let hours' = remainder hours 24 in
    let minutes' = remainder minutes 60 in
    if ltb_ℤ (pos 0) days
    then itoa days ++ (codes "d " ++ (itoa hours' ++ (codes "h " ++ (itoa minutes' ++ codes "m"))))
    else if ltb_ℤ (pos 0) hours'
    then itoa hours' ++ (codes "h " ++ (itoa minutes' ++ codes "m"))
    else itoa minutes' ++ codes "m"

-- the information before anything is read
abbrev pub blank_info : Text → OltInstance → Bool → OltSystemInfo
blank_info olt_id olt is_online = record {
  olt_id = olt_id;
  name = olt.name;
  host = olt.snmp.host;
  sys_descr = [];
  sys_name = [];
  uptime = [];
  uptime_ticks = pos 0;
  cpu_usage = pos 0;
  memory_usage = pos 0;
  is_online = is_online;
}

-- one turn of the loop over the variables
unfoldable pub read_variable : OltSystemInfo → SnmpPdu → OltSystemInfo
read_variable info pdu =
    let ticks = get_pdu_int64 (some pdu) in
    if has_suffix pdu.name oid_sys_descr
    then record info { sys_descr = pdu_to_string pdu }
    else if has_suffix pdu.name oid_sys_name
    then record info { sys_name = pdu_to_string pdu }
    else if has_suffix pdu.name oid_sys_uptime
    then record info { uptime_ticks = ticks; uptime = parse_uptime ticks }
    else if has_suffix pdu.name oid_cpu_usage
    then record info { cpu_usage = ticks }
    else if has_suffix pdu.name oid_memory_usage
    then record info { memory_usage = ticks }
    else info

unfoldable pub read_variables : OltSystemInfo → List SnmpPdu → OltSystemInfo
read_variables info [] = info
read_variables info (pdu ∷ result) = read_variables (read_variable info pdu) result

module _ (codec : Codec) (devices : Devices) (acquired : Text → Bool) (now : ℕ) where
  -- what the cache has of an OLT, decoded
  unfoldable pub cached_info : Text → Option RedisCache → Option OltSystemInfo
  cached_info olt_id none = none
  cached_info olt_id (some c) = elim (get_health now olt_id c) [
    | none ↦ none
    | some data' ↦ codec.decode data'
  ]

  -- An information that cannot be encoded is not cached.
  unfoldable pub cache_info : Text → OltSystemInfo → Option RedisCache → Option RedisCache
  cache_info olt_id info none = none
  cache_info olt_id info (some c) = elim (codec.encode info) [
    | none ↦ some c
    | some data' ↦ some (set_health now olt_id data' c)
  ]

  -- the end of `GetSystemInfo`, once the client is there
  unfoldable pub read_system_info :
      Text → OltInstance → Result (List SnmpPdu) → SystemState → SystemState × Result OltSystemInfo
  read_system_info olt_id olt result s =
      let locked : SystemState = record s { manager = (lock_of olt_id s.manager).1 } in
      if not (acquired olt_id) then (locked, err deadline_exceeded) else elim result [
        | err _ ↦ (locked, ok (blank_info olt_id olt false))
        | ok variables ↦
            (let info = read_variables (blank_info olt_id olt true) variables in
              (record locked { cache = cache_info olt_id info s.cache }, ok info))
      ]

  -- `GetSystemInfo`
  unfoldable pub get_system_info : Text → SystemState → SystemState × Result OltSystemInfo
  get_system_info olt_id s = elim (cached_info olt_id s.cache) [
    | some info ↦ (s, ok info)
    | none ↦ elim (get_olt olt_id s.manager) [
      | err _ ↦ (s, err (message "OLT not found"))
      | ok olt ↦ elim (get_client olt_id s.manager) [
        | err _ ↦ (s, ok (blank_info olt_id olt false))
        | ok client ↦
            (let oids =
                oid_sys_descr ∷ oid_sys_name ∷ oid_sys_uptime ∷ oid_cpu_usage ∷ oid_memory_usage
                ∷ [] in
              read_system_info olt_id olt (get_multiple (devices client) oids) s)
      ]
    ]
  ]

  abbrev found : Result OltSystemInfo → List OltSystemInfo → List OltSystemInfo
  found (err _) rest = rest
  found (ok info) rest = info ∷ rest

  unfoldable pub collect_system_info :
      List OltInstance → SystemState → SystemState × List OltSystemInfo
  collect_system_info [] s = (s, [])
  collect_system_info (olt ∷ olts) s =
      let (s', info) = get_system_info olt.id s in
      let (s'', rest) = collect_system_info olts s' in (s'', found info rest)

  -- `GetAllSystemInfo`
  unfoldable pub get_all_system_info : SystemState → SystemState × List OltSystemInfo
  get_all_system_info s = collect_system_info (list_olts s.manager) s
