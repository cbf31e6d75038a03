-- ===== src/Handler/Control.antt =====
-- internal/handler/control_handler.go: a reboot by telnet, with its audit entry. Details that are
-- numbers are written as texts.
pub mod Reboot
use zzte.Strings.{is_empty}
use zzte.Strings.Decimal.{itoa}
use zzte.Domain.{ok, err}
use zzte.Handler.Response.{Response, success, bad_request, not_found, internal_error}
use zzte.Handler.Auth.{Context, audit}
use zzte.Service.Activity.{ActivityService}
use zzte.Service.Manager.{OltManager, get_olt, invalidate_onu_cache}
use zzte.Service.Telnet.Session.{Dial, Event, reboot_onu}
use zzte.Prelude.{
  Bool, List, Map, Option, Text, [], arith, codes, if◌then◌else◌, inl, inr, int_eq, ltb_ℤ, nat_eq,
  none, not, pos, some, text_eq, ℤ, ◌++◌, ◌||◌, ◌∷◌,
}

pub record RebootRequest : Type 0 where
  pub olt_id : Text
  pub board : ℤ
  pub pon : ℤ
  pub onu_id : ℤ

pub record ControlState : Type 0 where
  pub manager : OltManager
  pub activity : ActivityService

-- the test of the parameters
unfoldable pub is_valid_reboot : RebootRequest → Bool
is_valid_reboot req = not (
    is_empty req.olt_id
    || ltb_ℤ req.board (pos 1)
    || ltb_ℤ req.pon (pos 1)
    || ltb_ℤ req.onu_id (pos 1))

abbrev pub place_detail : RebootRequest → Map Text Text
place_detail req =
    (codes "board", itoa req.board)
    ∷ (codes "pon", itoa req.pon)
    ∷ (codes "onuId", itoa req.onu_id)
    ∷ []

-- `RebootONU`: the state, what passed over the connection, and the response
unfoldable pub reboot_handler :
    Dial → Context → Option RebootRequest → ControlState → ControlState × List Event × Response Text
reboot_handler dial c none s = (s, [], bad_request "Invalid request body")
reboot_handler dial c (some req) s =
    if not (is_valid_reboot req)
    then (s, [], bad_request "Invalid parameters")
    else elim (get_olt req.olt_id s.manager) [
      | err _ ↦ (s, [], not_found "OLT not found")
      | ok olt ↦
          if is_empty olt.config.telnet.user || is_empty olt.config.telnet.password
          then (s, [], bad_request "Telnet credentials not configured for this OLT")
          else (let (events, result) = reboot_onu dial olt.config req.board req.pon req.onu_id in
              elim result [
                | inl e ↦ (
                  record s {
                    activity =
                        audit c (codes "onu.reboot.failed") req.olt_id
                          (place_detail req ++ (codes "error", e) ∷ []) s.activity;
                  },
                  events,
                  internal_error "Failed to send reboot command",
                )
                | inr _ ↦ (
                  record s {
                    manager =
                        invalidate_onu_cache req.olt_id req.board req.pon req.onu_id s.manager;
                    activity =
                        audit c (codes "onu.reboot") req.olt_id (place_detail req) s.activity;
                  },
                  events,
                  success (codes "Reboot command sent successfully. ONU will reconnect shortly."),
                )
              ])
    ]
