-- ===== src/Handler/OltRequests.antt =====
-- internal/handler/olt_handler.go: what its handlers do with the OLT of a request, without state.
use zzte.Strings.{is_empty, trim_space}
use zzte.Domain.{TelnetConfig, OltInstance, OltCreateRequest}
use zzte.Config.Load.{OltEntry, or_int, or_text}
use zzte.Prelude.{
  Bool, List, Map, Text, [], codes, int_eq, lookup, map, nat_eq, none, not, pos, some, text_eq,
  ◌&&◌,
}

-- `applyOLTRequestDefaults`
unfoldable pub apply_olt_request_defaults : OltCreateRequest → OltCreateRequest
apply_olt_request_defaults req = record req {
  snmp = record req.snmp {
    port = or_int (pos 161) req.snmp.port;
    community = or_text (codes "public") req.snmp.community;
    timeout = or_int (pos 5) req.snmp.timeout;
    retries = or_int (pos 2) req.snmp.retries;
  };
  telnet = record req.telnet { port = or_int (pos 23) req.telnet.port };
}

-- `buildOLTInstance`
unfoldable pub build_olt_instance : OltCreateRequest → OltInstance
build_olt_instance req = record {
  id = req.id;
  name = req.name;
  config = record {
    id = req.id;
    name = req.name;
    snmp = req.snmp;
    telnet = req.telnet;
    vlan_profiles = [];
    poll_interval = pos 0;
  };
  snmp = req.snmp;
  telnet = req.telnet;
}

-- `sanitizePersistedOLTConfig`; a clone of a map is the map.
unfoldable pub sanitize_persisted_olt_config : OltCreateRequest → Map Text Text → OltEntry
sanitize_persisted_olt_config req profiles = record {
  name = req.name;
  host = req.snmp.host;
  port = req.snmp.port;
  community = [];
  timeout = req.snmp.timeout;
  retries = req.snmp.retries;
  poll_interval = pos 0;
  telnet = record { user = []; password = []; port = req.telnet.port };
  vlan_profiles = profiles;
}

-- `shouldFetchVLANProfiles`
unfoldable pub should_fetch_vlan_profiles : TelnetConfig → Bool
should_fetch_vlan_profiles telnet =
    not (is_empty (trim_space telnet.user)) && not (is_empty (trim_space telnet.password))

-- `sanitizeOLTInstance`
unfoldable pub sanitize_olt_instance : OltInstance → OltInstance
sanitize_olt_instance olt = record olt {
  snmp = record olt.snmp { community = [] };
  telnet = record olt.telnet { user = []; password = [] };
  config = record olt.config {
    snmp = record olt.config.snmp { community = [] };
    telnet = record olt.config.telnet { user = []; password = [] };
  };
}

-- `sanitizeOLTInstances`
unfoldable pub sanitize_olt_instances : List OltInstance → List OltInstance
sanitize_olt_instances olts = map sanitize_olt_instance olts

-- the zero value of an entry, which a map gives for a key that it lacks
abbrev pub empty_entry : OltEntry
empty_entry = record {
  name = [];
  host = [];
  port = pos 0;
  community = [];
  timeout = pos 0;
  retries = pos 0;
  poll_interval = pos 0;
  telnet = record { user = []; password = []; port = pos 0 };
  vlan_profiles = [];
}

abbrev pub entry_at : Text → Map Text OltEntry → OltEntry
entry_at id configs = elim (lookup id configs) [ none ↦ empty_entry | some e ↦ e ]
