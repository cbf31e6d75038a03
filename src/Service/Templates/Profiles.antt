-- ===== src/Service/Templates/Profiles.antt =====
-- The VLAN profiles of a request.
use zzte.Strings.{is_empty}
use zzte.Domain.{OltInstance, ProvisioningRequest}
use zzte.Service.Templates.{resolve_vlan_profile, apply_vlan_profiles}
use zzte.Prelude.{
  Map, Text, [], arith, false, if◌then◌else◌, int_eq, ltb_ℤ, nat_eq, pos, text_eq, true, ℤ, ◌&&◌,
  ◌≡◌, ◌≢◌,
}

resolve_vlan_profile-ne-nil :
    (profiles : Map Text Text) (vlan : ℤ)
    → ltb_ℤ (pos 0) vlan ≡ true
    → resolve_vlan_profile profiles vlan ≢ []
unfolding resolve_vlan_profile
resolve_vlan_profile-ne-nil profiles vlan h = ground (arith, h)

-- Applying an OLT's profiles keeps the profiles that the request names, gives every positive VLAN
-- one, leaves all else in the request alone, and a second time changes nothing.
pub apply_vlan_profiles_idem :
    (olt : OltInstance) (req : ProvisioningRequest)
    → let req' = apply_vlan_profiles olt req in
      (apply_vlan_profiles olt req' ≡ req')
      × (req'.vlan_profile_internet ≡ (
          if is_empty req.vlan_profile_internet
          then resolve_vlan_profile olt.config.vlan_profiles req.vlan_internet
          else req.vlan_profile_internet))
      × (is_empty req'.vlan_profile_internet && ltb_ℤ (pos 0) req.vlan_internet ≡ false)
      × (is_empty req'.vlan_profile_hotspot && ltb_ℤ (pos 0) req.vlan_hotspot ≡ false)
unfolding apply_vlan_profiles
apply_vlan_profiles_idem olt req = (
  ground arith,
  ground arith,
  ground (arith, resolve_vlan_profile-ne-nil olt.config.vlan_profiles req.vlan_internet),
  ground (arith, resolve_vlan_profile-ne-nil olt.config.vlan_profiles req.vlan_hotspot),
)
