-- ===== src/Service/Telnet.antt =====
-- internal/service/telnet_service.go: the reader of VLAN profiles. The sessions are in its
-- child modules.
pub mod Session
pub mod Sends
pub mod Closing
pub mod Dialogue
use zzte.Strings.{split, trim_space, has_prefix, trim_prefix, is_empty}
use zzte.Prelude.{if_intro}
use zzte.Prelude.{
  All, All-insert, List, Map, Text, UniqueKeys, [], codes, if_intro, if◌then◌else◌, insert,
  insert-UniqueKeys, int_eq, nat_eq, not, text_eq, ◌&&◌, ◌∷◌, ◌≢◌,
}

-- The profiles so far, and the name of the profile whose lines follow.
pub record ProfileState : Type 0 where
  pub profiles : Map Text Text
  pub current_name : Text

-- a line with a VLAN
abbrev pub add_profile : Text → ProfileState → ProfileState
add_profile vlan s =
    if not (is_empty vlan) && not (is_empty s.current_name)
    then record s { profiles = insert vlan s.current_name s.profiles }
    else s

-- one round of the loop of `parseVLANProfileOutput`, on the trimmed line
unfoldable pub profile_line : Text → ProfileState → ProfileState
profile_line line s =
    if is_empty line
    then s
    else if has_prefix line (codes "Profile name:")
    then record s { current_name = trim_space (trim_prefix line (codes "Profile name:")) }
    else if has_prefix line (codes "CVLAN:")
    then add_profile (trim_space (trim_prefix line (codes "CVLAN:"))) s
    else s

unfoldable pub profile_lines : List Text → ProfileState → ProfileState
profile_lines [] s = s
profile_lines (line ∷ lines) s = profile_lines lines (profile_line (trim_space line) s)

-- `parseVLANProfileOutput`
unfoldable pub parse_vlan_profile_output : Text → Map Text Text
parse_vlan_profile_output raw =
    (profile_lines (split 10 raw) (record { profiles = []; current_name = [] })).profiles

abbrev pub IsNamed : Text × Text → Type 0
IsNamed entry = (entry.0 ≢ []) × (entry.1 ≢ [])

-- Profiles as they may be stored: one for each VLAN, each with a VLAN and a name.
pub record AreProfiles (profiles : Map Text Text) : Type 0 where
  pub unique : UniqueKeys profiles
  pub named : All IsNamed profiles

add_profile-AreProfiles :
    (vlan : Text) (s : ProfileState)
    → AreProfiles s.profiles
    → AreProfiles (add_profile vlan s).profiles
add_profile-AreProfiles [] s h = h
add_profile-AreProfiles (c ∷ vlan) s h = with_name s.current_name
  where
    with_name :
        (name : Text)
        → AreProfiles (add_profile (c ∷ vlan) (record s { current_name = name })).profiles
    with_name [] = h
    with_name (d ∷ name) = record {
      unique = insert-UniqueKeys (c ∷ vlan) (d ∷ name) s.profiles h.unique;
      named = All-insert IsNamed (c ∷ vlan) (d ∷ name) s.profiles (cc, cc) h.named;
    }

profile_line-AreProfiles :
    (line : Text) (s : ProfileState)
    → AreProfiles s.profiles
    → AreProfiles (profile_line line s).profiles
unfolding profile_line
profile_line-AreProfiles line s h =
    if_intro (λ (t : ProfileState). AreProfiles t.profiles) (is_empty line) (λ _. h)
      (λ _.
        if_intro (λ (t : ProfileState). AreProfiles t.profiles)
          (has_prefix line (codes "Profile name:")) (λ _. h)
          (λ _.
            if_intro (λ (t : ProfileState). AreProfiles t.profiles)
              (has_prefix line (codes "CVLAN:"))
              (λ _. add_profile-AreProfiles (trim_space (trim_prefix line (codes "CVLAN:"))) s h)
              (λ _. h)))

profile_lines-AreProfiles :
    (lines : List Text) (s : ProfileState)
    → AreProfiles s.profiles
    → AreProfiles (profile_lines lines s).profiles
unfolding profile_lines
profile_lines-AreProfiles [] s h = h
profile_lines-AreProfiles (line ∷ lines) s h =
    profile_lines-AreProfiles lines (profile_line (trim_space line) s)
      (profile_line-AreProfiles (trim_space line) s h)

-- Whatever a device prints, what is read from it is a map with one name for each VLAN, in which no
-- VLAN and no name is empty.
pub parse_vlan_profile_output-AreProfiles :
    (raw : Text) → AreProfiles (parse_vlan_profile_output raw)
unfolding parse_vlan_profile_output
parse_vlan_profile_output-AreProfiles raw =
    profile_lines-AreProfiles (split 10 raw) (record { profiles = []; current_name = [] })
      (record { unique = tt; named = tt })
