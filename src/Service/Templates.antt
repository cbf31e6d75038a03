-- ===== src/Service/Templates.antt =====
-- internal/service/provisioning_templates.go: the commands of a provisioning run.
pub mod Texts
pub mod Render
pub mod Profiles
use zzte.Strings.{is_empty, trim_space, has_prefix, split}
use zzte.Strings.Decimal.{itoa}
use zzte.Strings.Replacer.{replace}
use zzte.Domain.{Result, ok, err, message, OltInstance, ProvisioningRequest}
use zzte.Service.Templates.Texts.{newline, zte_v1_text, zte_v2_text, huawei_v1_text, huawei_v2_text}
use zzte.Prelude.{
  Bool, List, Map, Option, Text, [], arith, codes, if◌then◌else◌, int_eq, lookup, ltb_ℤ, map,
  nat_eq, none, not, pos, select, some, text_eq, ℤ, ◌=ᵗ◌, ◌||◌, ◌∷◌,
}

-- `provisioningTemplateData`
pub record TemplateData : Type 0 where
  pub slot : Text
  pub port : Text
  pub onu_id : Text
  pub sn : Text
  pub name : Text
  pub bandwidth : Text
  pub vlan_internet : Text
  pub vlan_hotspot : Text
  pub vlan_profile_internet : Text
  pub vlan_profile_hotspot : Text
  pub pppoe_user : Text
  pub pppoe_pass : Text
  pub onu_type : Text

-- the name in the map, if it is there and not empty, and else the default
abbrev pub named_profile : ℤ → Option Text → Text
named_profile vlan none = b'P' ∷ itoa vlan
named_profile vlan (some []) = b'P' ∷ itoa vlan
named_profile vlan (some (c ∷ name)) = c ∷ name

-- `resolveVLANProfile`
unfoldable pub resolve_vlan_profile : Map Text Text → ℤ → Text
resolve_vlan_profile profiles vlan =
    if ltb_ℤ (pos 0) vlan then named_profile vlan (lookup (itoa vlan) profiles) else []

abbrev or_resolved : Text → Text → Text
or_resolved given resolved = if is_empty given then resolved else given

-- `applyVLANProfiles`
unfoldable pub apply_vlan_profiles : OltInstance → ProvisioningRequest → ProvisioningRequest
apply_vlan_profiles olt req = record req {
  vlan_profile_internet =
      or_resolved req.vlan_profile_internet
        (resolve_vlan_profile olt.config.vlan_profiles req.vlan_internet);
  vlan_profile_hotspot =
      or_resolved req.vlan_profile_hotspot
        (resolve_vlan_profile olt.config.vlan_profiles req.vlan_hotspot);
}

-- `defaultONUType`
unfoldable pub default_onu_type : Text → Text
default_onu_type template_id =
    if has_prefix template_id (codes "huawei_") then codes "HG8245H" else codes "ZTE-F609"

-- `newProvisioningTemplateData`
unfoldable pub new_provisioning_template_data : ProvisioningRequest → TemplateData
new_provisioning_template_data req = record {
  slot = itoa req.board;
  port = itoa req.pon;
  onu_id = itoa req.onu_id;
  sn = req.sn;
  name = req.name;
  bandwidth = req.bandwidth;
  vlan_internet = itoa req.vlan_internet;
  vlan_hotspot = itoa req.vlan_hotspot;
  vlan_profile_internet = req.vlan_profile_internet;
  vlan_profile_hotspot = req.vlan_profile_hotspot;
  pppoe_user = req.pppoe_user;
  pppoe_pass = req.pppoe_pass;
  onu_type = default_onu_type req.template_id;
}

-- `provisioningTemplate`
unfoldable pub provisioning_template : Text → Result Text
provisioning_template template_id =
    if template_id =ᵗ codes "zte_v2"
    then ok zte_v2_text
    else if template_id =ᵗ codes "zte_v1"
    then ok zte_v1_text
    else if template_id =ᵗ codes "huawei_v2"
    then ok huawei_v2_text
    else if template_id =ᵗ codes "huawei_v1"
    then ok huawei_v1_text
    else err (message "Unknown Template ID")

-- the arguments of `NewReplacer`
unfoldable pub placeholders : TemplateData → List (Text × Text)
placeholders data' =
    (codes "{{slot}}", data'.slot)
    ∷ (codes "{{port}}", data'.port)
    ∷ (codes "{{onu_id}}", data'.onu_id)
    ∷ (codes "{{sn}}", data'.sn)
    ∷ (codes "{{name}}", data'.name)
    ∷ (codes "{{bandwidth}}", data'.bandwidth)
    ∷ (codes "{{vlan_hsi}}", data'.vlan_internet)
    ∷ (codes "{{vlan_hot}}", data'.vlan_hotspot)
    ∷ (codes "{{vlan_profile_hsi}}", data'.vlan_profile_internet)
    ∷ (codes "{{vlan_profile_hot}}", data'.vlan_profile_hotspot)
    ∷ (codes "{{pppoe_user}}", data'.pppoe_user)
    ∷ (codes "{{pppoe_pass}}", data'.pppoe_pass)
    ∷ (codes "{{onu_type}}", data'.onu_type)
    ∷ []

-- the test of the loop of `renderProvisioningTemplate`
unfoldable pub is_command : Text → Bool
is_command trimmed = not (is_empty trimmed || has_prefix trimmed (codes "!"))

-- the lines that become commands
unfoldable pub template_lines : Text → List Text
template_lines raw = select is_command (map trim_space (split newline raw))

-- `renderProvisioningTemplate`
unfoldable pub render_provisioning_template : Text → TemplateData → List Text
unfolding template_lines
render_provisioning_template raw data' =
    map (λ line. replace (placeholders data') line) (template_lines raw)

-- `generateProvisioningCommands`
unfoldable pub generate_provisioning_commands : ProvisioningRequest → Result (List Text)
generate_provisioning_commands req = elim (provisioning_template req.template_id) [
  | err e ↦ err e
  | ok raw ↦ ok (render_provisioning_template raw (new_provisioning_template_data req))
]
