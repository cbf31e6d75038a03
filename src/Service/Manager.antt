-- ===== src/Service/Manager.antt =====
-- internal/service/olt_manager.go: the registry of OLTs and the lock of each. What the devices
-- answer is a parameter, and so is Redis' matcher of patterns; a request that waits for a lock is a
-- step of Manager/Locks.
pub mod Registry
pub mod Locks
use zzte.Domain.{
  OltInstance, SnmpConfig, Result, ok, err, olt_not_found, olt_already_exists, message,
}
use zzte.Snmp.Client.{Client, Agent, new_client, clone}
use zzte.Snmp.Adapter.{FirmwareAdapter, detect_firmware, get_version, get_full_version}
use zzte.Cache.{RedisCache, Glob, invalidate_olt, invalidate_onu_list, invalidate_onu_detail}
use zzte.Prelude.{
  List, Map, Option, Text, [], arith, if◌then◌else◌, insert, int_eq, lookup, ltb_ℤ, map, nat_eq,
  none, pos, remove, some, suc, text_eq, ℕ, ℤ,
}

pub record OltConnection : Type 0 where
  pub olt : OltInstance
  pub client : Client
  pub adapter : FirmwareAdapter

-- `op_locks` names the channel of each OLT; `channels` counts those that were made, which number
-- them. `cache` is none without Redis.
pub record OltManager : Type 0 where
  pub olts : Map Text OltConnection
  pub op_locks : Map Text ℕ
  pub channels : ℕ
  pub cache : Option RedisCache

-- What the device of a client answers at the time of the call.
abbrev pub Devices : Type 0
Devices = Client → Agent

-- `InitOLTManager`
unfoldable pub init_olt_manager : Option RedisCache → OltManager
init_olt_manager cache = record { olts = []; op_locks = []; channels = 0; cache = cache }

-- `RegisterOLT`: a device that cannot be reached is registered too.
unfoldable pub register_olt : Devices → OltInstance → OltManager → Result OltInstance × OltManager
register_olt devices olt m = elim (lookup olt.id m.olts) [
  | some _ ↦ (err olt_already_exists, m)
  | none ↦
      (let client = new_client olt.snmp in
        let conn : OltConnection = record {
          olt = olt;
          client = client;
          adapter = detect_firmware (devices client);
        } in
        (ok olt, record m { olts = insert olt.id conn m.olts }))
]

-- what the cache is after the keys of an OLT are invalidated
abbrev pub without_olt : Glob → Text → Option RedisCache → Option RedisCache
without_olt glob olt_id none = none
without_olt glob olt_id (some c) = some (invalidate_olt glob olt_id c)

-- `UnregisterOLT`, by its error
unfoldable pub unregister_olt : Glob → Text → OltManager → Result (Unit {0}) × OltManager
unregister_olt glob olt_id m = elim (lookup olt_id m.olts) [
  | none ↦ (err olt_not_found, m)
  | some conn ↦ (
    ok tt,
    record m {
      olts = remove olt_id m.olts;
      op_locks = remove olt_id m.op_locks;
      cache = without_olt glob olt_id m.cache;
    },
  )
]

-- `UpdateOLT`: `UnregisterOLT` fails with `ErrOLTNotFound` alone, which is passed over.
unfoldable pub update_olt :
    Devices → Glob → OltInstance → OltManager → Result OltInstance × OltManager
unfolding register_olt unregister_olt
update_olt devices glob olt m = register_olt devices olt (unregister_olt glob olt.id m).1

-- the connection with other VLAN profiles
abbrev pub with_profiles : Map Text Text → OltConnection → OltConnection
with_profiles profiles conn = record conn {
  olt = record conn.olt { config = record conn.olt.config { vlan_profiles = profiles } };
}

-- `UpdateVLANProfiles`
unfoldable pub update_vlan_profiles :
    Text → Map Text Text → OltManager → Result (Unit {0}) × OltManager
update_vlan_profiles olt_id profiles m = elim (lookup olt_id m.olts) [
  | none ↦ (err olt_not_found, m)
  | some conn ↦ (ok tt, record m { olts = insert olt_id (with_profiles profiles conn) m.olts })
]

-- the look-up that the readers share
abbrev pub or_not_found : {A : Type 0} → Option A → Result A
or_not_found none = err olt_not_found
or_not_found (some a) = ok a

-- `GetConnection`
unfoldable pub get_connection : Text → OltManager → Result OltConnection
get_connection olt_id m = or_not_found (lookup olt_id m.olts)

-- `GetOLT`
unfoldable pub get_olt : Text → OltManager → Result OltInstance
get_olt olt_id m = elim (lookup olt_id m.olts) [
  | none ↦ err olt_not_found
  | some conn ↦ ok conn.olt
]

-- `GetClient`
unfoldable pub get_client : Text → OltManager → Result Client
get_client olt_id m = elim (lookup olt_id m.olts) [
  | none ↦ err olt_not_found
  | some conn ↦ ok conn.client
]

-- `GetNewClient`
unfoldable pub get_new_client : Text → OltManager → Result Client
get_new_client olt_id m = elim (lookup olt_id m.olts) [
  | none ↦ err olt_not_found
  | some conn ↦ ok (clone conn.client)
]

-- `GetAdapter`
unfoldable pub get_adapter : Text → OltManager → Result FirmwareAdapter
get_adapter olt_id m = elim (lookup olt_id m.olts) [
  | none ↦ err olt_not_found
  | some conn ↦ ok conn.adapter
]

-- `ListOLTs`, in the order of the map
unfoldable pub list_olts : OltManager → List OltInstance
list_olts m = map (λ entry. entry.1.olt) m.olts

-- `TestConnection`: the two versions that the device reports
unfoldable pub test_connection : Devices → SnmpConfig → Result (Text × Text)
test_connection devices config =
    let agent = devices (new_client config) in
    if agent.connects
    then ok (get_version (detect_firmware agent), get_full_version (detect_firmware agent))
    else err (message "failed to connect")

-- `InvalidateONUCache`
unfoldable pub invalidate_onu_cache : Text → ℤ → ℤ → ℤ → OltManager → OltManager
invalidate_onu_cache olt_id board pon onu_id m = elim m.cache [
  | none ↦ m
  | some c ↦
      (let c' = invalidate_onu_list olt_id board pon c in
        record m {
          cache = some (
              if ltb_ℤ (pos 0) onu_id
              then invalidate_onu_detail olt_id board pon onu_id c'
              else c');
        })
]

-- the first half of `AcquireSNMPLock`: the channel of an OLT, made if there is none
unfoldable pub lock_of : Text → OltManager → ℕ × OltManager
lock_of olt_id m = elim (lookup olt_id m.op_locks) [
  | some lock ↦ (lock, m)
  | none ↦ (
    m.channels,
    record m { op_locks = insert olt_id m.channels m.op_locks; channels = suc m.channels },
  )
]
