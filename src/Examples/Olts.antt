-- ===== src/Examples/Olts.antt =====
-- OLTs: the handlers, the registry and the cache.
use zzte.Strings.{has_prefix, is_empty, to_lower, trim, to_upper, trim_space}
use zzte.Domain.{OltInstance, OltCreateRequest}
use zzte.Snmp.Client.{Agent}
use zzte.Config.Env.{read_olt_env, normalize_olt_env_segment, env_char}
use zzte.Config.Load.{OltEntry, olt_defaults, to_olt_instance}
use zzte.Cache.{RedisCache, Glob, GlobLaw, get, invalidate_olt, key_onu_list, set_onu_list_with_ttl}
use zzte.Cache.Store.{invalidate_olt-IsKeyOf}
use zzte.Service.Manager.{
  OltManager, register_olt, unregister_olt, update_olt, update_vlan_profiles,
}
use zzte.Service.Manager.Registry.{IsRegistry, update_olt-IsRegistry}
use zzte.Handler.OltRequests.{
  apply_olt_request_defaults, build_olt_instance, sanitize_persisted_olt_config,
}
use zzte.Handler.Olts.{
  OltState, World, create_olt, update_olt_handler, get_olt_handler, list_olts_handler, delete_olt,
}
use zzte.Handler.Olts.Secrets.{IsSanitizedBody, IsSanitizedList, olt_handlers-IsSanitized}
use zzte.Handler.Olts.Persisted.{ViperLaw, restored, to_olt_instance-persisted}
use zzte.Handler.Olts.Keys.{IsAgreed}
use zzte.Handler.Olts.Agreement.{olt_handlers-IsAgreed}
use zzte.Examples.Data.{no_entries, request_of}
use zzte.Prelude.{
  Map, Text, [], ap, arith, codes, false, if◌then◌else◌, inl, inr, int_eq, lookup, nat_eq, none,
  pos, refl, some, text_eq, true, ℕ, ◌==◌, ◌=ᵗ◌, ◌∷◌, ◌≡◌, ◌≢◌,
}

abbrev pub silent : Agent
silent = record {
  get = λ oids. none;
  walk = λ oid. none;
  bulk_walk = λ oid. none;
  connects = false;
}

-- A pattern matcher that knows a star at the end.
abbrev pub star_glob : Glob
star_glob [] key = is_empty key
star_glob (c ∷ []) key = if c == b'*' then true else key =ᵗ c ∷ []
star_glob (c ∷ d ∷ p) [] = false
star_glob (c ∷ d ∷ p) (k ∷ key) = let rest = star_glob (d ∷ p) key in if k == c then rest else false

star_glob-law : GlobLaw star_glob
unfolding has_prefix
star_glob-law [] key h = refl
star_glob-law (c ∷ []) [] h = refl
star_glob-law (c ∷ []) (k ∷ key) h = ground arith
star_glob-law (c ∷ d ∷ p) [] h = refl
star_glob-law (c ∷ d ∷ p) (k ∷ key) h =
    ground (arith, star_glob-law (d ∷ p) key (ground (arith, h)))

abbrev world : World
world = record {
  devices = λ client. silent;
  glob = star_glob;
  fetch_vlan_profiles = λ config. some ((codes "100", codes "INET") ∷ []);
  has_telnet = true;
  has_indexer = true;
}

abbrev c320 : OltCreateRequest
c320 = record {
  id = codes "c320";
  name = codes "Core";
  snmp = record {
    host = codes "10.5.0.5";
    port = pos 0;
    community = codes "private";
    timeout = pos 0;
    retries = pos 0;
  };
  telnet = record { user = codes "zte"; password = codes "zte"; port = pos 0 };
}

abbrev pub empty_manager : OltManager
empty_manager = record { olts = []; op_locks = []; channels = 0; cache = some [] }

abbrev empty_state : OltState
empty_state = record { manager = empty_manager; configs = []; activity = no_entries; syncs = 0 }

olt_handlers-IsSanitized_example :
    IsSanitizedBody (create_olt world (request_of none) (some c320) empty_state).1.body
    × IsSanitizedBody
        (update_olt_handler world (request_of none) (codes "c320") (some c320) empty_state).1.body
    × IsSanitizedBody (get_olt_handler (codes "c320") empty_state).body
    × IsSanitizedList (list_olts_handler empty_state).body
olt_handlers-IsSanitized_example =
    olt_handlers-IsSanitized world (request_of none) (codes "c320") (some c320) empty_state

empty_state-IsAgreed : IsAgreed empty_state
unfolding lookup
empty_state-IsAgreed id = refl

abbrev one_state : OltState
one_state = (create_olt world (request_of none) (some c320) empty_state).0

one_state-IsAgreed : IsAgreed one_state
one_state-IsAgreed =
    (olt_handlers-IsAgreed world (request_of none) (codes "c320") (some c320) empty_state
      empty_state-IsAgreed).0

olt_handlers-IsAgreed_example :
    IsAgreed (create_olt world (request_of none) (some c320) one_state).0
    × IsAgreed (update_olt_handler world (request_of none) (codes "c320") (some c320) one_state).0
    × IsAgreed (delete_olt world (request_of none) (codes "c320") one_state).0
olt_handlers-IsAgreed_example =
    olt_handlers-IsAgreed world (request_of none) (codes "c320") (some c320) one_state
      one_state-IsAgreed

abbrev environment : Text → Text
environment name =
    if name =ᵗ codes "OLT_C320_SNMP_COMMUNITY"
    then codes " private"
    else if name =ᵗ codes "OLT_C320_TELNET_USER"
    then codes "zte"
    else if name =ᵗ codes "OLT_C320_TELNET_PASSWORD"
    then codes "zte"
    else []

-- a name in upper case
abbrev shouted : OltCreateRequest
shouted = record c320 { id = codes "C320" }

community-read :
    read_olt_env environment (codes "C320") (codes "SNMP_COMMUNITY")
    ≡ (apply_olt_request_defaults shouted).snmp.community
unfolding read_olt_env normalize_olt_env_segment apply_olt_request_defaults trim to_upper env_char
    trim_space ◌=ᵗ◌
community-read = refl

user-read : read_olt_env environment (codes "C320") (codes "TELNET_USER") ≡ codes "zte"
unfolding read_olt_env normalize_olt_env_segment trim to_upper env_char trim_space ◌=ᵗ◌
user-read = refl

password-read : read_olt_env environment (codes "C320") (codes "TELNET_PASSWORD") ≡ codes "zte"
unfolding read_olt_env normalize_olt_env_segment trim to_upper env_char trim_space ◌=ᵗ◌
password-read = refl

-- Reading the file loses what it has under other names than it is read by.
abbrev lossy_reread : Text → OltEntry → Text × OltEntry
lossy_reread id entry = (to_lower id, record entry { vlan_profiles = []; poll_interval = pos 0 })

lossy_reread-law : ViperLaw lossy_reread
lossy_reread-law id entry h = record {
  key = refl;
  name = refl;
  host = refl;
  port = refl;
  community = refl;
  timeout = refl;
  retries = refl;
  telnet = refl;
}

abbrev stored_profiles : Map Text Text
stored_profiles = (codes "100", codes "INET") ∷ []

persisted_example :
    let req = apply_olt_request_defaults shouted in
    let entry = sanitize_persisted_olt_config req stored_profiles in
    let back = lossy_reread (codes "C320") entry in
    (entry.community ≡ [])
    × (entry.telnet.user ≡ [])
    × (entry.telnet.password ≡ [])
    × (back.0 ≡ to_lower (codes "C320"))
    × (to_olt_instance environment (olt_defaults back.1) back.0
        ≡ restored back (build_olt_instance req))
persisted_example =
    to_olt_instance-persisted lossy_reread environment shouted stored_profiles lossy_reread-law refl
      community-read user-read password-read

abbrev pub olt : OltInstance
olt = build_olt_instance c320

empty_manager-IsRegistry : IsRegistry empty_manager
empty_manager-IsRegistry = record { unique = tt; named = tt; clients = tt }

abbrev one_manager : OltManager
one_manager = (register_olt world.devices olt empty_manager).1

one_manager-IsRegistry : IsRegistry one_manager
one_manager-IsRegistry =
    (update_olt-IsRegistry world.devices star_glob olt [] empty_manager empty_manager-IsRegistry).0

update_all_example :
    IsRegistry (register_olt world.devices olt one_manager).1
    × IsRegistry (unregister_olt star_glob olt.id one_manager).1
    × IsRegistry (update_olt world.devices star_glob olt one_manager).1
    × IsRegistry (update_vlan_profiles olt.id [] one_manager).1
update_all_example =
    update_olt-IsRegistry world.devices star_glob olt [] one_manager one_manager-IsRegistry

abbrev first_byte : Text → ℕ
first_byte [] = 0
first_byte (c ∷ s) = c

other_id : olt.id ≢ codes "x"
unfolding build_olt_instance
other_id h = omega (arith, ap first_byte h)

other_port : (◌≡◌ {A = ℕ} 1 1) × (◌≡◌ {A = ℕ} 2 3) → ⊥
other_port (_, h) = omega (arith, h)

-- A cache that holds the list of the port.
abbrev one_list : RedisCache
one_list = set_onu_list_with_ttl 5 (codes "c320") (pos 1) (pos 2) (codes "[]") (pos 100) []

invalidate_example :
    get 50
      (key_onu_list (codes "c320") (pos 1) (pos 2))
      (invalidate_olt star_glob (codes "c320") one_list)
    ≡ (if codes "c320" =ᵗ codes "c320"
        then none
        else get 50 (key_onu_list (codes "c320") (pos 1) (pos 2)) one_list)
invalidate_example =
    invalidate_olt-IsKeyOf star_glob star_glob-law 50 (codes "c320") (codes "c320")
      (key_onu_list (codes "c320") (pos 1) (pos 2)) one_list refl (ground arith) (ground arith)
      (inr (inr (inr (inl (pos 1, pos 2, refl)))))
