-- ===== src/Handler/Onus.antt =====
-- internal/handler/onu_handler.go, behind the `Recoverer` of internal/handler/router.go, which
-- answers a panic with status 500. The parts of the path and of the query are texts.
pub mod Answers
use zzte.Strings.{to_lower, is_empty}
use zzte.Strings.Decimal.{atoi}
use zzte.Domain.{
  Onu, OnuListItem, PonInfo, Result, ok, err, Error, olt_not_found, onu_not_found,
  deadline_exceeded, error_text,
}
use zzte.Handler.Response.{
  Response, success, error_response, bad_request, not_found, internal_error,
}
use zzte.Service.Manager.{Devices}
use zzte.Service.Onus.Listing
use zzte.Service.Onus.Listing.{OnuService, ListCodec, Clock}
use zzte.Service.Onus.Detail
use zzte.Service.Onus.Detail.{DetailCodec}
use zzte.Service.Onus.Pons
use zzte.Service.Onus.Pons.{PonCodec}
use zzte.Prelude.{
  Bool, List, Option, Text, arith, codes, if◌then◌else◌, int_eq, ltb_ℤ, nat_eq, none, not, pos,
  some, text_eq, ℕ, ℤ, ◌=ᵗ◌, ◌||◌,
}

-- a number of the path, from 1
unfoldable pub positive_param : Text → Option ℤ
positive_param text = elim (atoi text) [
  | none ↦ none
  | some n ↦ if ltb_ℤ n (pos 1) then none else some n
]

-- `force`, by the values of `fresh` and `refresh`
unfoldable pub is_forced : Text → Text → Bool
is_forced fresh refresh =
    fresh =ᵗ codes "1"
    || to_lower fresh =ᵗ codes "true"
    || refresh =ᵗ codes "1"
    || to_lower refresh =ᵗ codes "true"

-- what the client gets of a panic
abbrev pub recovered : {A : Type 0} → Option (Response A) → Response A
recovered none = error_response 500 ""
recovered (some r) = r

abbrev pub list_refused : {A : Type 0} → Error → Response A
list_refused deadline_exceeded = error_response 504 "SNMP request timeout (30s)"
list_refused olt_not_found = not_found "OLT not found"
list_refused _ = internal_error "Failed to get ONU list"

abbrev pub detail_refused : {A : Type 0} → Error → Response A
detail_refused olt_not_found = not_found "OLT not found"
detail_refused onu_not_found = not_found "ONU not found"
detail_refused _ = internal_error "Failed to get ONU detail"

-- the answer of a service as a response
abbrev pub respond : {A : Type 0} → (Error → Response A) → Option (Result A) → Response A
respond refused none = recovered none
respond refused (some (err e)) = refused e
respond refused (some (ok a)) = success a

module _ (devices : Devices) (acquired : Text → Bool) (clock : Clock) where
  -- `GetONUList`
  unfoldable pub get_onu_list :
      ListCodec → Text → Text → Text → Bool → OnuService → OnuService × Response (List OnuListItem)
  get_onu_list codec olt_id board_text pon_text force s =
      if is_empty olt_id
      then (s, bad_request "OLT ID is required")
      else elim (positive_param board_text) [
        | none ↦ (s, bad_request "Invalid board number")
        | some board ↦ elim (positive_param pon_text) [
          | none ↦ (s, bad_request "Invalid PON number")
          | some pon ↦
              (let (s', answer) =
                  Listing.get_onu_list codec devices acquired clock olt_id board pon force s in
                (s', respond list_refused answer))
        ]
      ]

  -- `GetONUDetail`
  unfoldable pub get_onu_detail :
      DetailCodec → Text → Text → Text → Text → Bool → OnuService → OnuService × Response Onu
  get_onu_detail codec olt_id board_text pon_text onu_text force s =
      if is_empty olt_id
      then (s, bad_request "OLT ID is required")
      else elim (positive_param board_text) [
        | none ↦ (s, bad_request "Invalid board number")
        | some board ↦ elim (positive_param pon_text) [
          | none ↦ (s, bad_request "Invalid PON number")
          | some pon ↦ elim (positive_param onu_text) [
            | none ↦ (s, bad_request "Invalid ONU ID")
            | some onu_id ↦
                (let (s', answer) =
                    Detail.get_onu_detail codec olt_id board pon onu_id devices acquired clock force
                      s in
                  (s', respond detail_refused answer))
          ]
        ]
      ]

-- `GetPONList`
unfoldable pub get_pon_list :
    PonCodec → Devices → ℕ → Text → Text → OnuService → OnuService × Response (List PonInfo)
get_pon_list codec devices now olt_id board_text s = elim (atoi board_text) [
  | none ↦ (s, bad_request "Invalid board ID")
  | some board ↦
      (let (s', answer) = Pons.get_pon_list codec devices now olt_id board s in
        (s', respond (λ e. internal_error (error_text e)) (some answer)))
]
