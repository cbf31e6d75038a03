-- ===== src/Handler/Olts/Secrets.antt =====
-- Communities and telnet credentials are not in any answer.
use zzte.Strings.{is_empty}
use zzte.Domain.{
  Error, olt_not_found, olt_already_exists, OltInstance, OltCreateRequest, Result-cases,
}
use zzte.Service.Manager.{register_olt, update_olt, get_olt, list_olts}
use zzte.Handler.Response.{
  Response, success, created, bad_request, not_found, conflict, internal_error,
}
use zzte.Handler.Auth.{Context}
use zzte.Handler.OltRequests.{
  apply_olt_request_defaults, build_olt_instance, sanitize_olt_instance, sanitize_olt_instances,
}
use zzte.Handler.Olts.{
  OltState, World, create_olt, register_request, update_olt_handler, update_request,
  get_olt_handler, list_olts_handler, refused, update_refused,
}
use zzte.Prelude.{
  All, List, Option, Text, [], if_intro, inl, inr, int_eq, nat_eq, none, refl, some, text_eq, ◌∷◌,
  ◌≡◌,
}

-- An OLT without its secrets.
pub record IsSanitized (olt : OltInstance) : Type 0 where
  pub community : olt.snmp.community ≡ []
  pub user : olt.telnet.user ≡ []
  pub password : olt.telnet.password ≡ []
  pub config_community : olt.config.snmp.community ≡ []
  pub config_user : olt.config.telnet.user ≡ []
  pub config_password : olt.config.telnet.password ≡ []

abbrev pub IsSanitizedBody : Option OltInstance → Type 0
IsSanitizedBody none = Unit
IsSanitizedBody (some olt) = IsSanitized olt

abbrev pub IsSanitizedList : Option (List OltInstance) → Type 0
IsSanitizedList none = Unit
IsSanitizedList (some olts) = All IsSanitized olts

sanitize_olt_instance-IsSanitized : (olt : OltInstance) → IsSanitized (sanitize_olt_instance olt)
unfolding sanitize_olt_instance
sanitize_olt_instance-IsSanitized olt = record {
  community = refl;
  user = refl;
  password = refl;
  config_community = refl;
  config_user = refl;
  config_password = refl;
}

sanitize_olt_instances-IsSanitized :
    (olts : List OltInstance) → All IsSanitized (sanitize_olt_instances olts)
unfolding sanitize_olt_instances
sanitize_olt_instances-IsSanitized [] = tt
sanitize_olt_instances-IsSanitized (olt ∷ olts) =
    (sanitize_olt_instance-IsSanitized olt, sanitize_olt_instances-IsSanitized olts)

abbrev IsHidden {ℓ} : {S : Type ℓ} → S × Response OltInstance → Type 0
IsHidden r = IsSanitizedBody r.1.body

refused-IsSanitized : (e : Error) → IsSanitizedBody (refused e).body
unfolding internal_error conflict
refused-IsSanitized olt_already_exists = tt
refused-IsSanitized olt_not_found = tt
refused-IsSanitized _ = tt

update_refused-IsSanitized : (e : Error) → IsSanitizedBody (update_refused e).body
unfolding internal_error not_found
update_refused-IsSanitized olt_not_found = tt
update_refused-IsSanitized _ = tt

register_request-IsHidden :
    (w : World) (c : Context) (req : OltCreateRequest) (s : OltState)
    → IsHidden (register_request w c req s)
unfolding register_request created
register_request-IsHidden w c req s =
    elim (Result-cases (register_olt w.devices (build_olt_instance req) s.manager).0) [
      | inl (olt, e) ↦ rw (e, register_request) (sanitize_olt_instance-IsSanitized olt)
      | inr (e', e) ↦ rw (e, register_request) (refused-IsSanitized e')
    ]

create_olt-IsHidden :
    (w : World) (c : Context) (body : Option OltCreateRequest) (s : OltState)
    → IsHidden (create_olt w c body s)
unfolding create_olt bad_request
create_olt-IsHidden w c none s = tt
create_olt-IsHidden w c (some req) s =
    if_intro IsHidden (is_empty req.id) (λ _. tt)
      (λ _.
        if_intro IsHidden (is_empty req.snmp.host) (λ _. tt)
          (λ _. register_request-IsHidden w c (apply_olt_request_defaults req) s))

update_request-IsHidden :
    (w : World) (c : Context) (req : OltCreateRequest) (s : OltState)
    → IsHidden (update_request w c req s)
unfolding update_request success
update_request-IsHidden w c req s =
    elim (Result-cases (update_olt w.devices w.glob (build_olt_instance req) s.manager).0) [
      | inl (olt, e) ↦ rw (e, update_request) (sanitize_olt_instance-IsSanitized olt)
      | inr (e', e) ↦ rw (e, update_request) (update_refused-IsSanitized e')
    ]

update_olt_handler-IsHidden :
    (w : World) (c : Context) (olt_id : Text) (body : Option OltCreateRequest) (s : OltState)
    → IsHidden (update_olt_handler w c olt_id body s)
unfolding update_olt_handler bad_request not_found
update_olt_handler-IsHidden w c olt_id none s = tt
update_olt_handler-IsHidden w c olt_id (some req) s =
    if_intro IsHidden (is_empty olt_id) (λ _. tt)
      (λ _.
        if_intro IsHidden (is_empty req.snmp.host) (λ _. tt)
          (λ _. elim (Result-cases (get_olt olt_id s.manager)) [
            | inl (olt, e) ↦ rw e (update_request-IsHidden w c _ s)
            | inr (e', e) ↦ rw e tt
          ]))

get_olt_handler-IsSanitized :
    (olt_id : Text) (s : OltState) → IsSanitizedBody (get_olt_handler olt_id s).body
unfolding get_olt_handler success bad_request not_found
get_olt_handler-IsSanitized olt_id s =
    if_intro (λ (r : Response OltInstance). IsSanitizedBody r.body) (is_empty olt_id) (λ _. tt)
      (λ _. elim (Result-cases (get_olt olt_id s.manager)) [
        | inl (olt, e) ↦ rw e (sanitize_olt_instance-IsSanitized olt)
        | inr (e', e) ↦ rw e tt
      ])

-- No answer of the OLT handlers that create, update, show or list OLTs shows a community or telnet
-- credentials, whatever is asked for and whatever is registered.
pub olt_handlers-IsSanitized :
    (w : World) (c : Context) (olt_id : Text) (body : Option OltCreateRequest) (s : OltState)
    → IsSanitizedBody (create_olt w c body s).1.body
      × IsSanitizedBody (update_olt_handler w c olt_id body s).1.body
      × IsSanitizedBody (get_olt_handler olt_id s).body
      × IsSanitizedList (list_olts_handler s).body
unfolding list_olts_handler success
olt_handlers-IsSanitized w c olt_id body s = (
  create_olt-IsHidden w c body s,
  update_olt_handler-IsHidden w c olt_id body s,
  get_olt_handler-IsSanitized olt_id s,
  sanitize_olt_instances-IsSanitized (list_olts s.manager),
)
