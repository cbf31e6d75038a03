-- ===== src/Examples/Runs.antt =====
-- Searches, provisioning runs and lifetimes.
use zzte.Strings.{to_lower}
use zzte.Strings.Decimal.{atoi, itoa}
use zzte.Strings.{is_digit, is_empty, strip_prefix, has_prefix, trim_space}
use zzte.Domain.{SearchItem, ok, OltInstance, ProvisioningRequest}
use zzte.Config.Password.{
  UserAccount, hash_password, is_password_hashed, normalize_role, normalize_user, normalize_users,
}
use zzte.Config.Password.Normal.{AllNormal}
use zzte.Config.Load.{load_users, parse_users}
use zzte.Config.Load.Accounts.{load_users-AllNormal}
use zzte.Cache.{RedisCache, get_global_index, get}
use zzte.Handler.Response.{success}
use zzte.Handler.Search.{Decoder, search, is_match, search_limit}
use zzte.Handler.Search.Results.{search-eq-take}
use zzte.Service.Telnet.{
  AreProfiles, parse_vlan_profile_output, parse_vlan_profile_output-AreProfiles,
}
use zzte.Service.Templates.{
  apply_vlan_profiles, generate_provisioning_commands, new_provisioning_template_data,
  provisioning_template, resolve_vlan_profile, template_lines,
}
use zzte.Service.Templates.Texts.{zte_v1_text}
use zzte.Service.Templates.Render.{filled, pieces_of, generate_provisioning_commands-filled}
use zzte.Service.Templates.Profiles.{apply_vlan_profiles_idem}
use zzte.Service.Provisioning.{
  Telnet, connected_logs, finish_entry, failed, prepare_provisioning, preview_provisioning,
  provision_onu, send_commands, step_logs, TelnetSession,
}
use zzte.Service.Provisioning.Flow.{last_status, IsClean, provision_onu-report}
use zzte.Service.Provisioning.Parse.{span_some}
use zzte.Service.Provisioning.NextId.{
  Among, IsAbove, find_ids, find_next_onu_id, find_next_onu_id-IsAbove, match_id, max_id, max_ids,
}
use zzte.Strings.Decimal.{put_digits}
use zzte.Handler.OltRequests.{build_olt_instance}
use zzte.Examples.Data.{marked, marked-laws}
use zzte.Examples.System.{manager}
use zzte.Prelude.{insert}
use zzte.Service.Manager.{get_olt, register_olt}
use zzte.Service.Provisioning.{read_prompts, run_batch, validate_provisioning_output}
use zzte.Service.Templates.{is_command, render_provisioning_template}
use zzte.Strings.{contains, join, split}
use zzte.Prelude.{
  All, List, Map, Text, ℤ, [], arith, codes, false, if◌then◌else◌, inr, int_eq, length, lookup,
  ltb_ℤ, map, nat_eq, none, pos, refl, select, some, take, text_eq, true, ◌&&◌, ◌++◌, ◌+ℤ◌, ◌-◌,
  ◌=ᵗ◌, ◌^◌, ◌∷◌, ◌≡◌, ◌≢◌, ◌≤ℤ◌, ◌⊎◌,
}

abbrev item : SearchItem
item = record {
  olt_id = codes "c320";
  board = pos 1;
  pon = pos 2;
  onu_id = pos 3;
  name = codes "House 7";
  serial_number = codes "ZTEGC8123456";
  status = codes "Online";
}

abbrev decode_one : Decoder
decode_one data' = some (item ∷ [])

abbrev indexed : RedisCache
indexed = (codes "search:index", record { value = codes "[]"; deadline = none }) ∷ []

indexed-read : get_global_index 9 indexed ≡ some (codes "[]")
unfolding get_global_index get lookup ◌=ᵗ◌
indexed-read = refl

search_example :
    search decode_one 9 (some indexed) (codes "HOUSE")
    ≡ success (take search_limit (select (is_match (to_lower (codes "HOUSE"))) (item ∷ [])))
unfolding to_lower
search_example =
    search-eq-take decode_one 9 indexed (codes "HOUSE") (codes "[]") (item ∷ []) (omega arith)
      indexed-read refl

profiles_example : AreProfiles (parse_vlan_profile_output (codes "Profile name: INET"))
profiles_example = parse_vlan_profile_output-AreProfiles (codes "Profile name: INET")

abbrev house : ProvisioningRequest
house = record {
  olt_id = codes "c320";
  board = pos 1;
  pon = pos 2;
  onu_id = pos 3;
  sn = codes "ZTEGC8123456";
  template_id = codes "zte_v1";
  name = codes "House {{sn}}";
  bandwidth = codes "10M";
  vlan_internet = pos 100;
  vlan_hotspot = pos 200;
  vlan_profile_internet = [];
  vlan_profile_hotspot = codes "HOT";
  pppoe_user = codes "u";
  pppoe_pass = codes "p";
}

abbrev olt_two : OltInstance
olt_two = build_olt_instance (record {
  id = codes "c320";
  name = codes "Core";
  snmp = record {
    host = codes "10.5.0.5";
    port = pos 161;
    community = codes "private";
    timeout = pos 5;
    retries = pos 2;
  };
  telnet = record { user = codes "zte"; password = codes "zte"; port = pos 23 };
})

house-template : provisioning_template (codes "zte_v1") ≡ ok zte_v1_text
unfolding provisioning_template ◌=ᵗ◌
house-template = refl

commands_example :
    generate_provisioning_commands house
    ≡ ok (
        map
          (λ line. filled (new_provisioning_template_data house) (pieces_of line))
          (template_lines zte_v1_text))
commands_example = generate_provisioning_commands-filled house zte_v1_text house-template

apply_profiles_example :
    let req' = apply_vlan_profiles olt_two house in
    (apply_vlan_profiles olt_two req' ≡ req')
    × (req'.vlan_profile_internet ≡ (
        if is_empty house.vlan_profile_internet
        then resolve_vlan_profile olt_two.config.vlan_profiles house.vlan_internet
        else house.vlan_profile_internet))
    × (is_empty req'.vlan_profile_internet && ltb_ℤ (pos 0) house.vlan_internet ≡ false)
    × (is_empty req'.vlan_profile_hotspot && ltb_ℤ (pos 0) house.vlan_hotspot ≡ false)
apply_profiles_example = apply_vlan_profiles_idem olt_two house

-- a device that takes every command and answers with a prompt
abbrev prompting : TelnetSession
prompting = record { write = λ s. none; read_until = λ written n. inr (codes "#") }

abbrev open_port : Telnet
open_port config = inr prompting

provision-success : (provision_onu open_port manager house).success ≡ true
unfolding provision_onu apply_vlan_profiles build_olt_instance generate_provisioning_commands lookup
    prepare_provisioning provisioning_template send_commands insert get_olt register_olt run_batch
    ◌=ᵗ◌ has_prefix to_lower trim_space read_prompts validate_provisioning_output is_command
    render_provisioning_template contains join split
provision-success = refl

provision_example :
    (((provision_onu open_port manager house).success ≡ false)
      × (last_status (provision_onu open_port manager house).logs ≡ failed))
    ⊎ (((provision_onu open_port manager house).success ≡ true)
        × ((olt : OltInstance) × (commands : List Text) × (hydrated : ProvisioningRequest)
            × (prepare_provisioning manager house ≡ inr (olt, commands, hydrated))
            × (preview_provisioning manager house ≡ inr commands)
            × ((sess : TelnetSession) × (open_port olt.config ≡ inr sess)
                × ((output : Text) × (send_commands sess commands ≡ inr output) × IsClean output))
            × ((provision_onu open_port manager house).logs
                ≡ connected_logs house commands
                  ++ (step_logs 1 commands ++ finish_entry hydrated.template_id ∷ []))))
provision_example = provision_onu-report open_port manager house

abbrev listing : Text
listing = codes "gpon-onu_1/1/2:7"

listing-ids : find_ids (pos 1) (pos 2) (length listing) listing ≡ codes "7" ∷ []
unfolding find_ids match_id span_some strip_prefix is_digit itoa put_digits
listing-ids = refl

listing-small :
    max_ids (find_ids (pos 1) (pos 2) (length listing) listing) (pos 0) ≤ℤ pos (2 ^ 63 - 2)
unfolding max_ids max_id atoi
listing-small = rw listing-ids (omega arith)

next_id_example :
    let texts = find_ids (pos 1) (pos 2) (length listing) listing in
    let next = find_next_onu_id (pos 1) (pos 2) listing in
    (pos 1 ≤ℤ next)
    × All (λ text. IsAbove next (atoi text)) texts
    × ((next ≡ pos 1) ⊎ ((id : ℤ) × Among id texts × (next ≡ id +ℤ pos 1)))
next_id_example = find_next_onu_id-IsAbove (pos 1) (pos 2) listing listing-small

abbrev default_users : Map Text UserAccount
default_users =
    (codes "admin", record { password = codes "$2a$admin"; role = codes "superadmin" }) ∷ []

loaded-default : load_users marked [] [] ≡ ok default_users
unfolding load_users parse_users hash_password normalize_users normalize_user normalize_role
    is_password_hashed has_prefix to_lower trim_space
loaded-default = refl

load_users_example : AllNormal marked marked-laws default_users × (default_users ≢ [])
load_users_example = load_users-AllNormal marked marked-laws [] [] default_users loaded-default
