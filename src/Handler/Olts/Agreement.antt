-- ===== src/Handler/Olts/Agreement.antt =====
-- The registry and the configuration file name the same OLTs.
use zzte.Handler.Olts.Keys.{
  has_key, IsAgreed, has_key-insert, has_key-remove, refresh_vlan_profiles-keys, AgreesAt,
  agrees_by, register_olt-keys, unregister_olt-keys, unregister_olt-outcome,
}
use zzte.Strings.{is_empty}
use zzte.Domain.{OltCreateRequest, Result-cases}
use zzte.Config.Load.{OltEntry}
use zzte.Service.Manager.{
  OltConnection, OltManager, register_olt, unregister_olt, update_olt, get_olt,
}
use zzte.Service.Manager.Registry.{connection, register_olt-absent, unregister_olt-gone}
use zzte.Handler.Response.{Response}
use zzte.Handler.Auth.{Context}
use zzte.Handler.OltRequests.{
  apply_olt_request_defaults, build_olt_instance, sanitize_persisted_olt_config, entry_at,
}
use zzte.Handler.Olts.{
  OltState, World, create_olt, register_request, update_olt_handler, update_request, delete_olt,
  refresh_vlan_profiles,
}
use zzte.Prelude.{
  =ᵗ_refl, Bool, Map, Option, Text, [], ap, false, if_intro, inl, inr, insert, int_eq, nat_eq, none,
  not, refl, some, sym, text_eq, true, ◌&&◌, ◌=ᵗ◌, ◌||◌, ◌∙◌, ◌≡◌,
}

-- The entry of an OLT that has just been added.
with_entry : (m : OltManager) (id : Text) (entry : OltEntry) (s : OltState) → OltState
with_entry m id entry s = record s { manager = m; configs = insert id entry s.configs }

with_entry-agrees :
    (m : OltManager) (id j : Text) (conn : OltConnection) (olts : Map Text OltConnection)
    (entry : OltEntry) (s : OltState)
    → m.olts ≡ insert id conn olts
    → (id =ᵗ j || has_key j olts) ≡ (id =ᵗ j || has_key j s.configs)
    → AgreesAt j (with_entry m id entry s)
unfolding with_entry
with_entry-agrees m id j conn olts entry s e h =
    ap (has_key j) e ∙ has_key-insert id j conn olts ∙ h ∙ sym (has_key-insert id j entry s.configs)

register_request-IsAgreed :
    (w : World) (c : Context) (req : OltCreateRequest) (s : OltState)
    → IsAgreed s
    → IsAgreed (register_request w c req s).0
unfolding register_request with_entry build_olt_instance
register_request-IsAgreed w c req s a j =
    elim (register_olt-keys w.devices (build_olt_instance req) s.manager) [
      | inl ((x, e), same) ↦ rw (e, register_request) (ap (has_key j) same ∙ a j)
      | inr ((olt, e), (conn, added)) ↦
          let entry = sanitize_persisted_olt_config req [] in
          let m = (register_olt w.devices (build_olt_instance req) s.manager).1 in
          let t = with_entry m req.id entry s in
          let there : has_key req.id t.configs ≡ true =
            has_key-insert req.id req.id entry s.configs ∙ rw (=ᵗ_refl req.id) refl in
          rw (e, register_request)
            (agrees_by j (refresh_vlan_profiles w req.id (build_olt_instance req).config t) t
              (refresh_vlan_profiles-keys w req.id j (build_olt_instance req).config t there)
              (with_entry-agrees m req.id j conn s.manager.olts entry s added
                (ap (λ b. req.id =ᵗ j || b) (a j))))
    ]

or_not_and : (a b : Bool) → (a || (not a && b)) ≡ (a || b)
or_not_and true b = refl
or_not_and false b = refl

update_request-IsAgreed :
    (w : World) (c : Context) (req : OltCreateRequest) (s : OltState)
    → IsAgreed s
    → IsAgreed (update_request w c req s).0
unfolding update_request update_olt with_entry build_olt_instance
update_request-IsAgreed w c req s a j =
    let olt = build_olt_instance req in
    let removed = (unregister_olt w.glob req.id s.manager).1 in
    let (e, added) =
      register_olt-absent w.devices olt removed (unregister_olt-gone w.glob req.id s.manager) in
    let entry = sanitize_persisted_olt_config req (entry_at req.id s.configs).vlan_profiles in
    let t = with_entry (register_olt w.devices olt removed).1 req.id entry s in
    let there : has_key req.id t.configs ≡ true =
      has_key-insert req.id req.id entry s.configs ∙ rw (=ᵗ_refl req.id) refl in
    rw (e, update_request)
      (agrees_by j (refresh_vlan_profiles w req.id olt.config t) t
        (refresh_vlan_profiles-keys w req.id j olt.config t there)
        (with_entry-agrees (register_olt w.devices olt removed).1 req.id j
          (connection w.devices olt) removed.olts entry s added
          (ap (λ b. req.id =ᵗ j || b) (unregister_olt-keys w.glob req.id j s.manager)
            ∙ or_not_and (req.id =ᵗ j) (has_key j s.manager.olts)
            ∙ ap (λ b. req.id =ᵗ j || b) (a j))))

abbrev AgreesAfter : {A : Type 0} → OltState × Response A → Type 0
AgreesAfter r = IsAgreed r.0

create_olt-IsAgreed :
    (w : World) (c : Context) (body : Option OltCreateRequest) (s : OltState)
    → IsAgreed s
    → AgreesAfter (create_olt w c body s)
unfolding create_olt
create_olt-IsAgreed w c none s a = a
create_olt-IsAgreed w c (some req) s a =
    if_intro AgreesAfter (is_empty req.id) (λ _. a)
      (λ _.
        if_intro AgreesAfter (is_empty req.snmp.host) (λ _. a)
          (λ _. register_request-IsAgreed w c (apply_olt_request_defaults req) s a))

update_olt_handler-IsAgreed :
    (w : World) (c : Context) (olt_id : Text) (body : Option OltCreateRequest) (s : OltState)
    → IsAgreed s
    → AgreesAfter (update_olt_handler w c olt_id body s)
unfolding update_olt_handler
update_olt_handler-IsAgreed w c olt_id none s a = a
update_olt_handler-IsAgreed w c olt_id (some req) s a =
    if_intro AgreesAfter (is_empty olt_id) (λ _. a)
      (λ _.
        if_intro AgreesAfter (is_empty req.snmp.host) (λ _. a)
          (λ _. elim (Result-cases (get_olt olt_id s.manager)) [
            | inl (olt, e) ↦ rw e (
                update_request-IsAgreed w c
                  (apply_olt_request_defaults (record req { id = olt_id })) s a)
            | inr (x, e) ↦ rw e a
          ]))

delete_olt-IsAgreed :
    (w : World) (c : Context) (olt_id : Text) (s : OltState)
    → IsAgreed s
    → AgreesAfter (delete_olt w c olt_id s)
unfolding delete_olt
delete_olt-IsAgreed w c olt_id s a =
    if_intro AgreesAfter (is_empty olt_id) (λ _. a)
      (λ _. elim (unregister_olt-outcome w.glob olt_id s.manager) [
        | inl (e, same) ↦ rw e (λ j. ap (λ m. has_key j m.olts) same ∙ a j)
        | inr (e, removed) ↦ rw e (λ j.
            ap (has_key j) removed
            ∙ has_key-remove olt_id j s.manager.olts
            ∙ ap (λ b. not (olt_id =ᵗ j) && b) (a j)
            ∙ sym (has_key-remove olt_id j s.configs))
      ])

-- Where the registry and the configuration name the same OLTs, they still do after any request to
-- create, update or delete an OLT, on every branch, and whatever telnet returns.
pub olt_handlers-IsAgreed :
    (w : World) (c : Context) (olt_id : Text) (body : Option OltCreateRequest) (s : OltState)
    → IsAgreed s
    → IsAgreed (create_olt w c body s).0
      × IsAgreed (update_olt_handler w c olt_id body s).0
      × IsAgreed (delete_olt w c olt_id s).0
olt_handlers-IsAgreed w c olt_id body s a = (
  create_olt-IsAgreed w c body s a,
  update_olt_handler-IsAgreed w c olt_id body s a,
  delete_olt-IsAgreed w c olt_id s a,
)
