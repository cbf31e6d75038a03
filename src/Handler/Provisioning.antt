-- ===== src/Handler/Provisioning.antt =====
-- internal/handler/provisioning_handler.go. Details that are numbers are written as texts.
use zzte.Strings.{is_empty, join}
use zzte.Strings.Decimal.{itoa}
use zzte.Domain.{ProvisioningRequest, ProvisioningResponse, UnconfiguredOnu}
use zzte.Handler.Response.{Response, success, bad_request, internal_error}
use zzte.Handler.Auth.{Context, audit}
use zzte.Handler.Control.{ControlState}
use zzte.Service.Manager.{OltManager, invalidate_onu_cache}
use zzte.Service.Provisioning.{Telnet, provision_onu, preview_provisioning}
use zzte.Service.Provisioning.Reads
use zzte.Service.Templates.Texts.{newline}
use zzte.Service.Telnet.Session.{Dial}
use zzte.Prelude.{
  Bool, List, Map, Option, Text, [], codes, if◌then◌else◌, inl, inr, int_eq, nat_eq, none, some,
  text_eq, ◌||◌, ◌∷◌,
}

-- `GetUnconfiguredONUs`
unfoldable pub get_unconfigured_onus : Dial → OltManager → Text → Response (List UnconfiguredOnu)
get_unconfigured_onus dial m olt_id =
    if is_empty olt_id
    then bad_request "olt_id is required"
    else elim (Reads.get_unconfigured_onus dial m olt_id) [
      | inl e ↦ internal_error "failed to read unconfigured ONUs"
      | inr onus ↦ success onus
    ]

-- the test of the required fields
abbrev pub lacks_fields : ProvisioningRequest → Bool
lacks_fields req = is_empty req.olt_id || is_empty req.sn || is_empty req.template_id

abbrev provision_detail : ProvisioningRequest → Map Text Text
provision_detail req =
    (codes "board", itoa req.board)
    ∷ (codes "pon", itoa req.pon)
    ∷ (codes "onuId", itoa req.onu_id)
    ∷ (codes "sn", req.sn)
    ∷ (codes "templateId", req.template_id)
    ∷ []

-- `ProvisionONU`; the service reports every failure in its answer, never as an error.
unfoldable pub provision_handler :
    Telnet
    → Context
    → Option ProvisioningRequest
    → ControlState
    → ControlState × Response ProvisioningResponse
provision_handler telnet c none s = (s, bad_request "Invalid request payload")
provision_handler telnet c (some req) s =
    if lacks_fields req
    then (s, bad_request "Missing required fields (oltId, sn, templateId)")
    else (let resp = provision_onu telnet s.manager req in
        if resp.success
        then (
          record s {
            manager = invalidate_onu_cache req.olt_id req.board req.pon req.onu_id s.manager;
            activity = audit c (codes "onu.provision") req.olt_id (provision_detail req) s.activity;
          },
          success resp,
        )
        else (s, success resp))

-- `PreviewProvisioning`: the commands, and the script that they make up
unfoldable pub preview_handler :
    OltManager → Option ProvisioningRequest → Response (List Text × Text)
preview_handler m none = bad_request "Invalid request payload"
preview_handler m (some req) =
    if lacks_fields req
    then bad_request "Missing required fields (oltId, sn, templateId)"
    else elim (preview_provisioning m req) [
      | inl e ↦ internal_error "failed to prepare provisioning"
      | inr cmds ↦ success (cmds, join newline cmds)
    ]
