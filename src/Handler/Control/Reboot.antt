-- ===== src/Handler/Control/Reboot.antt =====
-- What a reboot request changes.
use mathlib.Core.Path.{subst}
use zzte.Domain.{OltInstance, Result-cases, ok}
use zzte.Cache
use zzte.Cache.{
  RedisCache, live, get, invalidate_onu_list, invalidate_onu_detail, key_onu_list, key_onu_detail,
}
use zzte.Service.Manager.{OltManager, get_olt, invalidate_onu_cache}
use zzte.Service.Telnet.Session.{Dial, Event, reboot_onu}
use zzte.Strings.{is_empty}
use zzte.Service.Telnet.Sends.{Fallible-cases, IsStart, written}
use zzte.Service.Telnet.Dialogue.{opening, reboot_onu-IsDialogue}
use zzte.Handler.Response.{
  Response, success, bad_request, not_found, internal_error, error_response, json,
}
use zzte.Handler.Auth.{Context}
use zzte.Handler.Control.{RebootRequest, ControlState, is_valid_reboot, reboot_handler}
use zzte.Prelude.{
  Bool-cases, List, Option, Option-cases, Text, [], ap, arith, false, inl, inr, int_eq, lookup,
  lookup-remove, lookup-remove_self, ltb_ℤ, nat_eq, none, pos, refl, remove, some, sym, text_eq,
  true, ℕ, ℤ, ◌||◌, ◌≡◌, ◌⊎◌,
}

-- Neither the list of the port nor the detail of the ONU can be read.
abbrev pub IsForgotten : Text → ℤ → ℤ → ℤ → Option RedisCache → Type 0
IsForgotten olt_id board pon onu_id none = Unit
IsForgotten olt_id board pon onu_id (some c) =
    (now : ℕ)
    → (Cache.get_onu_list now olt_id board pon c ≡ none)
      × (Cache.get_onu_detail now olt_id board pon onu_id c ≡ none)

forgotten :
    (olt_id : Text) (board pon onu_id : ℤ) (c : RedisCache)
    → IsForgotten olt_id board pon onu_id (
        some
          (invalidate_onu_detail olt_id board pon onu_id (invalidate_onu_list olt_id board pon c)))
unfolding Cache.get_onu_list Cache.get_onu_detail get invalidate_onu_list invalidate_onu_detail
forgotten olt_id board pon onu_id c now =
    let list_key = key_onu_list olt_id board pon in
    let detail_key = key_onu_detail olt_id board pon onu_id in
    let gone : lookup list_key (remove detail_key (remove list_key c)) ≡ none = ground (
      arith,
      lookup-remove detail_key list_key (remove list_key c),
      lookup-remove_self list_key c,
    ) in
    (ap (live now) gone, ap (live now) (lookup-remove_self detail_key (remove list_key c)))

invalidate_onu_cache-IsForgotten :
    (olt_id : Text) (board pon onu_id : ℤ) (m : OltManager)
    → ltb_ℤ (pos 0) onu_id ≡ true
    → IsForgotten olt_id board pon onu_id (invalidate_onu_cache olt_id board pon onu_id m).cache
unfolding invalidate_onu_cache
invalidate_onu_cache-IsForgotten olt_id board pon onu_id m h = elim (Option-cases m.cache) [
  | inl e ↦ rw (e, invalidate_onu_cache) (subst (IsForgotten olt_id board pon onu_id) (sym e) tt)
  | inr (c, e) ↦ rw (e, h, invalidate_onu_cache) (forgotten olt_id board pon onu_id c)
]

-- The state, the registry, or only the audit log and what is cached of the ONU is changed.
abbrev pub IsHandled :
    RebootRequest → ControlState → ControlState × List Event × Response Text → Type 0
IsHandled req s (t, events, r) =
    ((r.status ≡ 200)
      × IsForgotten req.olt_id req.board req.pon req.onu_id t.manager.cache
      × ((olt : OltInstance) × (get_olt req.olt_id s.manager ≡ ok olt)
          × IsStart (opening olt.config req.board req.pon req.onu_id) (written events)))
    ⊎ ((r.status ≡ 500) × (t.manager ≡ s.manager))
    ⊎ (((r.status ≡ 400) ⊎ (r.status ≡ 404)) × (t ≡ s) × (events ≡ []))

positive_onu : (req : RebootRequest) → is_valid_reboot req ≡ true → ltb_ℤ (pos 0) req.onu_id ≡ true
unfolding is_valid_reboot
positive_onu req h = ground (arith, h)

module _ (dial : Dial) (c : Context) (req : RebootRequest) (s : ControlState) where
  -- after the tests, by the result of the session
  sent-IsHandled :
      (olt : OltInstance)
      → get_olt req.olt_id s.manager ≡ ok olt
      → is_valid_reboot req ≡ true
      → (is_empty olt.config.telnet.user || is_empty olt.config.telnet.password) ≡ false
      → IsHandled req s (reboot_handler dial c (some req) s)
  unfolding reboot_handler success internal_error json error_response
  sent-IsHandled olt e valid full =
      let run = reboot_onu dial olt.config req.board req.pon req.onu_id in
      let dialogue = reboot_onu-IsDialogue dial olt.config req.board req.pon req.onu_id in
      elim (Fallible-cases run.1) [
        | inl (_, f) ↦
            rw (valid, e, full, f, reboot_handler)
              (inl (
                refl,
                invalidate_onu_cache-IsForgotten req.olt_id req.board req.pon req.onu_id s.manager
                    (positive_onu req valid),
                (olt, refl, rw f at dialogue),
              ))
        | inr (x, f) ↦ rw (valid, e, full, f, reboot_handler) (inr (inl (refl, refl)))
      ]

-- A reboot that is answered with success has sent the opening to a registered OLT, and leaves no
-- cached list of the port and no cached detail of the ONU to be read; one that is answered with
-- status 500 leaves the registry and the cache as they are; any other answer has status 400 or
-- 404, and then nothing is changed and nothing is sent.
pub reboot_handler-IsHandled :
    (dial : Dial) (c : Context) (req : RebootRequest) (s : ControlState)
    → IsHandled req s (reboot_handler dial c (some req) s)
unfolding reboot_handler bad_request not_found error_response
reboot_handler-IsHandled dial c req s = elim (Bool-cases (is_valid_reboot req)) [
  | inr b ↦ rw (b, reboot_handler) (inr (inr (inl refl, refl, refl)))
  | inl b ↦ elim (Result-cases (get_olt req.olt_id s.manager)) [
    | inr (x, e) ↦ rw (b, e, reboot_handler) (inr (inr (inr refl, refl, refl)))
    | inl (olt, e) ↦
        elim (Bool-cases (is_empty olt.config.telnet.user || is_empty olt.config.telnet.password)) [
          | inl f ↦ rw (b, e, f, reboot_handler) (inr (inr (inl refl, refl, refl)))
          | inr f ↦ sent-IsHandled dial c req s olt e b f
        ]
  ]
]
