-- ===== src/Handler/Olts.antt =====
-- internal/handler/olt_handler.go. `cfg.Save` only logs its error here, so its outcome changes
-- nothing that is modelled; the devices, Redis' matcher and the telnet session are parameters.
pub mod Secrets
pub mod Persisted
pub mod Keys
pub mod Agreement
use zzte.Strings.{is_empty}
use zzte.Strings.Decimal.{itoa}
use zzte.Domain.{
  Error, olt_not_found, olt_already_exists, ok, err, SnmpConfig, OltConfig, OltInstance,
  OltCreateRequest,
}
use zzte.Config.Load.{OltEntry, or_int, or_text}
use zzte.Cache.{Glob}
use zzte.Service.Activity.{ActivityService}
use zzte.Service.Manager.{
  OltManager, Devices, register_olt, unregister_olt, update_olt, update_vlan_profiles, get_olt,
  list_olts, test_connection,
}
use zzte.Handler.Response.{
  Response, success, created, bad_request, not_found, conflict, internal_error, message_response,
}
use zzte.Handler.Auth.{Context, audit}
use zzte.Handler.OltRequests.{
  apply_olt_request_defaults, build_olt_instance, sanitize_persisted_olt_config,
  should_fetch_vlan_profiles, sanitize_olt_instance, sanitize_olt_instances, entry_at,
}
use zzte.Prelude.{
  Bool, List, Map, Option, Text, [], codes, if◌then◌else◌, insert, int_eq, nat_eq, none, not, pos,
  remove, some, suc, text_eq, ℕ, ℤ, ◌||◌, ◌∷◌,
}

-- What the handlers read and write: the registry, the entries of the configuration, the audit log,
-- and how often a sync of the search index was started.
pub record OltState : Type 0 where
  pub manager : OltManager
  pub configs : Map Text OltEntry
  pub activity : ActivityService
  pub syncs : ℕ

-- The devices, Redis' matcher, and `FetchVLANProfiles` (`none` is an error); an indexer that may be
-- missing, and a telnet service that may be.
pub record World : Type 0 where
  pub devices : Devices
  pub glob : Glob
  pub fetch_vlan_profiles : OltConfig → Option (Map Text Text)
  pub has_telnet : Bool
  pub has_indexer : Bool

-- `refreshVLANProfiles`, once profiles are fetched
unfoldable pub store_vlan_profiles : Text → Map Text Text → OltState → OltState
store_vlan_profiles olt_id profiles s = record s {
  configs =
      insert olt_id (record (entry_at olt_id s.configs) { vlan_profiles = profiles }) s.configs;
  manager = (update_vlan_profiles olt_id profiles s.manager).1;
}

-- `refreshVLANProfiles`
unfoldable pub refresh_vlan_profiles : World → Text → OltConfig → OltState → OltState
refresh_vlan_profiles w olt_id config s =
    if not w.has_telnet || not (should_fetch_vlan_profiles config.telnet)
    then s
    else elim (w.fetch_vlan_profiles config) [
      | none ↦ s
      | some profiles ↦ if is_empty profiles then s else store_vlan_profiles olt_id profiles s
    ]

-- the error of the manager as a response
abbrev pub refused : {A : Type 0} → Error → Response A
refused olt_already_exists = conflict "OLT with this ID already exists"
refused _ = internal_error "Failed to register OLT"

abbrev pub update_refused : {A : Type 0} → Error → Response A
update_refused olt_not_found = not_found "OLT not found"
update_refused _ = internal_error "Failed to update OLT"

abbrev pub olt_detail : Text → SnmpConfig → Map Text Text
olt_detail name snmp =
    (codes "name", name) ∷ (codes "host", snmp.host) ∷ (codes "port", itoa snmp.port) ∷ []

module _ (w : World) (c : Context) where
  -- `CreateOLT` behind its checks
  unfoldable pub register_request : OltCreateRequest → OltState → OltState × Response OltInstance
  register_request req s =
      let instance' = build_olt_instance req in
      let (result, manager') = register_olt w.devices instance' s.manager in
      elim result [
        | err e ↦ (record s { manager = manager' }, refused e)
        | ok olt ↦
            (let s' = refresh_vlan_profiles w req.id instance'.config (record s {
              manager = manager';
              configs = insert req.id (sanitize_persisted_olt_config req []) s.configs;
            }) in
              (
                record s' {
                  syncs = if w.has_indexer then suc s'.syncs else s'.syncs;
                  activity =
                      audit c (codes "olt.create") req.id (olt_detail req.name req.snmp)
                        s'.activity;
                },
                created (sanitize_olt_instance olt),
              ))
      ]

  -- `CreateOLT`
  unfoldable pub create_olt : Option OltCreateRequest → OltState → OltState × Response OltInstance
  create_olt none s = (s, bad_request "Invalid request body")
  create_olt (some req) s =
      if is_empty req.id
      then (s, bad_request "ID is required")
      else if is_empty req.snmp.host
      then (s, bad_request "SNMP host is required")
      else register_request (apply_olt_request_defaults req) s

  -- `UpdateOLT`, once the OLT is found
  unfoldable pub update_request : OltCreateRequest → OltState → OltState × Response OltInstance
  update_request req s =
      let (result, manager') = update_olt w.devices w.glob (build_olt_instance req) s.manager in
      elim result [
        | err e ↦ (record s { manager = manager' }, update_refused e)
        | ok olt ↦
            (let profiles = (entry_at req.id s.configs).vlan_profiles in
              let s' = refresh_vlan_profiles w req.id olt.config (record s {
                manager = manager';
                configs = insert req.id (sanitize_persisted_olt_config req profiles) s.configs;
              }) in
              (
                record s' {
                  activity =
                      audit c (codes "olt.update") req.id (olt_detail olt.name olt.snmp)
                        s'.activity;
                },
                success (sanitize_olt_instance olt),
              ))
      ]

  -- `UpdateOLT`
  unfoldable pub update_olt_handler :
      Text → Option OltCreateRequest → OltState → OltState × Response OltInstance
  update_olt_handler olt_id none s =
      (s, bad_request (if is_empty olt_id then "OLT ID is required" else "Invalid request body"))
  update_olt_handler olt_id (some body) s =
      if is_empty olt_id
      then (s, bad_request "OLT ID is required")
      else if is_empty body.snmp.host
      then (s, bad_request "SNMP host is required")
      else elim (get_olt olt_id s.manager) [
        | err e ↦ (s, not_found "OLT not found")
        | ok _ ↦ update_request (apply_olt_request_defaults (record body { id = olt_id })) s
      ]

  -- `DeleteOLT`
  unfoldable pub delete_olt : Text → OltState → OltState × Response (Unit {0})
  delete_olt olt_id s =
      if is_empty olt_id
      then (s, bad_request "OLT ID is required")
      else (let (result, manager') = unregister_olt w.glob olt_id s.manager in
          elim result [
            | err e ↦ (record s { manager = manager' }, not_found "OLT not found")
            | ok _ ↦ (
              record s {
                manager = manager';
                configs = remove olt_id s.configs;
                activity = audit c (codes "olt.delete") olt_id [] s.activity;
              },
              message_response "OLT deleted successfully",
            )
          ])

-- `GetOLT`
unfoldable pub get_olt_handler : Text → OltState → Response OltInstance
get_olt_handler olt_id s =
    if is_empty olt_id then bad_request "OLT ID is required" else elim (get_olt olt_id s.manager) [
      | err e ↦ not_found "OLT not found"
      | ok olt ↦ success (sanitize_olt_instance olt)
    ]

-- `ListOLTs`
unfoldable pub list_olts_handler : OltState → Response (List OltInstance)
list_olts_handler s = success (sanitize_olt_instances (list_olts s.manager))

-- `TestConnection`; the answer is the two versions.
unfoldable pub test_connection_handler : World → Text → ℤ → Text → Response (Text × Text)
test_connection_handler w host port community =
    if is_empty host
    then bad_request "Host is required"
    else elim (test_connection w.devices (record {
      host = host;
      port = or_int (pos 161) port;
      community = or_text (codes "public") community;
      timeout = pos 5;
      retries = pos 2;
    })) [ err e ↦ internal_error "Failed to test OLT connection" | ok versions ↦ success versions ]
