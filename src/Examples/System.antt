-- ===== src/Examples/System.antt =====
-- Information of an OLT.
use zzte.Strings.{has_suffix}
use zzte.Strings.Decimal.{itoa, put_digits}
use zzte.Snmp.Values.{SnmpPdu, octet_string, bytes, pdu_to_string}
use zzte.Snmp.Client.{get_multiple}
use zzte.Domain.{ok}
use zzte.Cache.{get_health, get}
use zzte.Handler.OltRequests.{build_olt_instance}
use zzte.Service.Manager.{OltManager, Devices, register_olt, get_olt, get_client}
use zzte.Service.System.{
  OltSystemInfo, SystemState, Codec, blank_info, read_variable, read_variables, read_system_info,
  get_system_info, cached_info, oid_sys_name, parse_uptime,
}
use zzte.Service.System.Cached.{get_system_info-cached}
use zzte.Examples.Olts.{silent, olt}
use zzte.Prelude.{
  List, [], arith, codes, false, insert, int_eq, lookup, nat_eq, none, pos, refl, some, text_eq,
  true, ◌∷◌, ◌≡◌,
}

parse_uptime-text : parse_uptime (pos 9378004) ≡ codes "1d 2h 3m"
unfolding parse_uptime itoa put_digits
parse_uptime-text = refl

-- A device that tells its name.
abbrev variables : List SnmpPdu
variables = (record { name = oid_sys_name; asn1 = octet_string; value = bytes (codes "core") }) ∷ []

abbrev named : Devices
named client = record silent { get = λ oids. some variables }

abbrev pub quiet : Devices
quiet client = silent

abbrev nothing_registered : OltManager
nothing_registered = record { olts = []; op_locks = []; channels = 0; cache = none }

abbrev pub manager : OltManager
manager = (register_olt quiet olt nothing_registered).1

abbrev core_info : OltSystemInfo
core_info = record (blank_info (codes "c320") olt true) { sys_name = codes "core" }

abbrev codec : Codec
codec = record {
  encode = λ info. some info.sys_name;
  decode = λ data'. some (record core_info { sys_name = data' });
}

abbrev state : SystemState
state = record { manager = manager; cache = some [] }

nothing-cached : get_health 5 (codes "c320") [] ≡ none
unfolding get_health get lookup
nothing-cached = refl

core-read : (get_system_info codec named (λ id. true) 5 (codes "c320") state).1 ≡ ok core_info
unfolding get_system_info cached_info get_health get lookup get_olt get_client register_olt
    build_olt_instance read_system_info read_variables read_variable get_multiple has_suffix insert
    pdu_to_string
core-read = refl

get_system_info_example :
    let r = get_system_info codec named (λ id. true) 5 (codes "c320") state in
    get_system_info codec quiet (λ id. false) 60 (codes "c320") r.0 ≡ (r.0, ok core_info)
get_system_info_example =
    get_system_info-cached codec named quiet (λ id. true) (λ id. false) 5 60 (codes "c320")
      (codes "core") core_info manager [] nothing-cached core-read refl refl refl (omega arith)
