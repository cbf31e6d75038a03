-- ===== src/Service/Provisioning/Reads.antt =====
-- internal/service/provisioning_service.go: the two functions that ask the device, around the
-- readers of what it prints.
use zzte.Strings.Decimal.{itoa}
use zzte.Domain.{ok, err, UnconfiguredOnu}
use zzte.Service.Manager.{OltManager, get_olt}
use zzte.Service.Provisioning.{Fallible}
use zzte.Service.Provisioning.Parse.{parse_unconfigured_output}
use zzte.Service.Provisioning.NextId.{find_next_onu_id}
use zzte.Service.Telnet.Session.{Dial, with_connection, ask_session}
use zzte.Prelude.{List, Text, codes, inl, inr, int_eq, nat_eq, text_eq, ℤ, ◌++◌}

-- `GetUnconfiguredONUs`
unfoldable pub get_unconfigured_onus : Dial → OltManager → Text → Fallible (List UnconfiguredOnu)
get_unconfigured_onus dial m olt_id = elim (get_olt olt_id m) [
  | err _ ↦ inl (codes "OLT " ++ (olt_id ++ codes " not found: OLT not found"))
  | ok olt ↦
      elim (with_connection dial olt.config
        (λ peer. ask_session peer olt.config (codes "show gpon onu uncfg"))).1 [
          | inl e ↦ inl e
          | inr output ↦ inr (parse_unconfigured_output output)
        ]
]

-- the command that lists the ONUs of a port
abbrev pub list_command : ℤ → ℤ → Text
list_command board pon =
    codes "show gpon onu baseinfo gpon-olt_1/" ++ (itoa board ++ (codes "/" ++ itoa pon))

-- `FindNextOnuID`
unfoldable pub ask_next_onu_id : Dial → OltManager → Text → ℤ → ℤ → Fallible ℤ
ask_next_onu_id dial m olt_id board pon = elim (get_olt olt_id m) [
  | err _ ↦ inl (codes "OLT not found")
  | ok olt ↦
      elim (with_connection dial olt.config
        (λ peer. ask_session peer olt.config (list_command board pon))).1 [
          | inl e ↦ inl e
          | inr out ↦ inr (find_next_onu_id board pon out)
        ]
]
