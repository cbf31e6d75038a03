-- ===== src/Handler/Onus/Answers.antt =====
-- What a request for a list of ONUs changes.
use zzte.Strings.{is_empty}
use zzte.Domain.{
  Onu, OnuListItem, Result, Result-cases, ok, err, Error, deadline_exceeded, olt_not_found,
  olt_already_exists, onu_not_found, canceled, message,
}
use zzte.Handler.Response.{
  Response, success, json, error_response, bad_request, not_found, internal_error,
}
use zzte.Service.Manager.Registry.{olts-lock_of}
use zzte.Service.Manager.{Devices, get_client, get_adapter}
use zzte.Service.Onus.Walks.{collect_onus}
use zzte.Service.Onus.Listing
use zzte.Service.Onus.Listing.{
  OnuService, ListCodec, Clock, cached_answer, finish_list, fetch_onu_list, or_absent,
}
use zzte.Handler.Onus.{positive_param, list_refused, respond, get_onu_list}
use zzte.Prelude.{
  Bool, Bool-cases, List, Map, Option, Option-cases, Text, inl, inr, int_eq, nat_eq, none, refl,
  some, text_eq, ℕ, ℤ, ◌≡◌, ◌⊎◌,
}

-- The cache and the registered OLTs are the same; a channel may have been made for a lock.
abbrev pub IsKept : OnuService → OnuService → Type 0
IsKept s t = (t.cache ≡ s.cache) × (t.manager.olts ≡ s.manager.olts)

-- An answer without items changes nothing.
abbrev IsSettled : OnuService → OnuService × Option (Result (List OnuListItem)) → Type 0
IsSettled s r = ((items : List OnuListItem) × (r.1 ≡ some (ok items))) ⊎ IsKept s r.0

module _ (codec : ListCodec) (devices : Devices) (acquired : Text → Bool) (clock : Clock)
    (olt_id : Text) (board pon : ℤ) (s : OnuService) where
  finish_list-IsSettled :
      (t : OnuService) (collected : Option (Result (Map ℤ Onu)))
      → IsKept s t
      → IsSettled s (finish_list codec clock olt_id board pon t collected)
  unfolding finish_list
  finish_list-IsSettled t none k = inr k
  finish_list-IsSettled t (some (err e)) k = inr k
  finish_list-IsSettled t (some (ok onus)) k = inl (_, refl)

  fetch_onu_list-IsSettled :
      IsSettled s (fetch_onu_list codec devices acquired clock olt_id board pon s)
  unfolding fetch_onu_list
  fetch_onu_list-IsSettled = elim (Result-cases (get_client olt_id s.manager)) [
    | inr (x, e) ↦ rw (e, fetch_onu_list) (inr (refl, refl))
    | inl (client, e) ↦ elim (Bool-cases (acquired olt_id)) [
      | inr b ↦ rw (e, b, fetch_onu_list) (inr (refl, olts-lock_of olt_id s.manager))
      | inl b ↦
          rw (e, b, fetch_onu_list)
            (finish_list-IsSettled _
              (collect_onus olt_id board pon (devices client)
                (or_absent (get_adapter olt_id s.manager)))
              (refl, olts-lock_of olt_id s.manager))
    ]
  ]

  get_onu_list-IsSettled :
      (force : Bool)
      → IsSettled s (Listing.get_onu_list codec devices acquired clock olt_id board pon force s)
  unfolding Listing.get_onu_list
  get_onu_list-IsSettled force =
      elim (Option-cases (cached_answer codec force clock.asked olt_id board pon s.cache)) [
        | inl e ↦ rw (e, Listing.get_onu_list) fetch_onu_list-IsSettled
        | inr (items, e) ↦ rw (e, Listing.get_onu_list) (inl (items, refl))
      ]

-- the statuses of an error
abbrev pub IsFailure : ℕ → Type 0
IsFailure status = (status ≡ 400) ⊎ (status ≡ 404) ⊎ (status ≡ 500) ⊎ (status ≡ 504)

abbrev pub IsAnswer : OnuService → OnuService × Response (List OnuListItem) → Type 0
IsAnswer s (t, r) = (r.status ≡ 200) ⊎ (IsFailure r.status × IsKept s t)

answered :
    (s : OnuService) (r : OnuService × Option (Result (List OnuListItem)))
    → IsSettled s r
    → IsAnswer s (r.0, respond list_refused r.1)
unfolding success json not_found internal_error error_response
answered s (t, none) (inl (items, e)) = absurd (cc e)
answered s (t, none) (inr k) = inr (inr (inr (inl refl)), k)
answered s (t, some (ok items)) k = inl refl
answered s (t, some (err e)) (inl (items, h)) = absurd (cc h)
answered s (t, some (err e)) (inr k) = inr (refused e, k)
  where
    refused : (e : Error) → IsFailure (list_refused {A = List OnuListItem} e).status
    refused deadline_exceeded = inr (inr (inr refl))
    refused olt_not_found = inr (inl refl)
    refused olt_already_exists = inr (inr (inl refl))
    refused onu_not_found = inr (inr (inl refl))
    refused canceled = inr (inr (inl refl))
    refused (message t) = inr (inr (inl refl))

-- A request for a list is answered with 200, or with 400, 404, 500 or 504, and an answer other
-- than 200 leaves the cache and the registered OLTs as they are.
pub get_onu_list-IsAnswer :
    (codec : ListCodec) (devices : Devices) (acquired : Text → Bool) (clock : Clock)
    (olt_id board_text pon_text : Text) (force : Bool) (s : OnuService)
    → IsAnswer s (get_onu_list devices acquired clock codec olt_id board_text pon_text force s)
unfolding get_onu_list bad_request error_response
get_onu_list-IsAnswer codec devices acquired clock olt_id board_text pon_text force s =
    elim (Bool-cases (is_empty olt_id)) [
      | inl b ↦ rw (b, get_onu_list) (inr (inl refl, (refl, refl)))
      | inr b ↦ elim (Option-cases (positive_param board_text)) [
        | inl e ↦ rw (b, e, get_onu_list) (inr (inl refl, (refl, refl)))
        | inr (board, e) ↦ elim (Option-cases (positive_param pon_text)) [
          | inl k ↦ rw (b, e, k, get_onu_list) (inr (inl refl, (refl, refl)))
          | inr (pon, k) ↦
              rw (b, e, k, get_onu_list)
                (answered s
                  (Listing.get_onu_list codec devices acquired clock olt_id board pon force s)
                  (get_onu_list-IsSettled codec devices acquired clock olt_id board pon s force))
        ]
      ]
    ]
