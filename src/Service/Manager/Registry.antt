-- ===== src/Service/Manager/Registry.antt =====
-- The registry: every connection stands under the identifier of its OLT, and what updates do.
use mathlib.Core.Path.{subst}
use zzte.Domain.{OltInstance, ok}
use zzte.Snmp.Client.{new_client, clone}
use zzte.Snmp.Client.Defaults.{clone-new_client}
use zzte.Snmp.Adapter.{detect_firmware}
use zzte.Cache.{Glob}
use zzte.Service.Manager.{
  OltConnection, OltManager, Devices, register_olt, unregister_olt, update_olt,
  update_vlan_profiles, get_olt, get_new_client, get_client, with_profiles, lock_of,
}
use zzte.Prelude.{
  All, All-insert, All-lookup, All-remove, Map, Option-cases, Text, UniqueKeys, ap, arith, inl, inr,
  insert, insert-UniqueKeys, int_eq, lookup, lookup-insert_ne, lookup-insert_self, lookup-remove_ne,
  lookup-remove_self, nat_eq, none, refl, remove, remove-UniqueKeys, some, sym, text_eq, ◌∙◌, ◌≡◌,
  ◌≢◌, ◌⊎◌,
}

-- The registry has one connection for each OLT, under its identifier, with the client that its
-- settings make.
pub record IsRegistry (m : OltManager) : Type 0 where
  pub unique : UniqueKeys m.olts
  pub named : All (λ entry. entry.1.olt.id ≡ entry.0) m.olts
  pub clients : All (λ entry. entry.1.client ≡ new_client entry.1.olt.snmp) m.olts

abbrev SameId : Text × OltConnection → Type 0
SameId entry = entry.1.olt.id ≡ entry.0

abbrev OwnClient : Text × OltConnection → Type 0
OwnClient entry = entry.1.client ≡ new_client entry.1.olt.snmp

insert-IsRegistry :
    (m m' : OltManager) (id : Text) (conn : OltConnection)
    → IsRegistry m
    → conn.olt.id ≡ id
    → conn.client ≡ new_client conn.olt.snmp
    → m'.olts ≡ insert id conn m.olts
    → IsRegistry m'
insert-IsRegistry m m' id conn r same own e = record {
  unique = rw e (insert-UniqueKeys id conn m.olts r.unique);
  named = rw e (All-insert SameId id conn m.olts same r.named);
  clients = rw e (All-insert OwnClient id conn m.olts own r.clients);
}

remove-IsRegistry :
    (m m' : OltManager) (id : Text) → IsRegistry m → m'.olts ≡ remove id m.olts → IsRegistry m'
remove-IsRegistry m m' id r e = record {
  unique = rw e (remove-UniqueKeys id m.olts r.unique);
  named = rw e (All-remove SameId id m.olts r.named);
  clients = rw e (All-remove OwnClient id m.olts r.clients);
}

register_olt-olts :
    (devices : Devices) (olt : OltInstance) (m : OltManager)
    → ((register_olt devices olt m).1 ≡ m)
      ⊎ ((register_olt devices olt m).1.olts
          ≡ insert olt.id
              (record {
                olt = olt;
                client = new_client olt.snmp;
                adapter = detect_firmware (devices (new_client olt.snmp));
              })
              m.olts)
unfolding register_olt
register_olt-olts devices olt m = ground arith

pub register_olt-IsRegistry :
    (devices : Devices) (olt : OltInstance) (m : OltManager)
    → IsRegistry m
    → IsRegistry (register_olt devices olt m).1
register_olt-IsRegistry devices olt m r = elim (register_olt-olts devices olt m) [
  | inl same ↦ subst IsRegistry (sym same) r
  | inr e ↦ insert-IsRegistry m (register_olt devices olt m).1 olt.id _ r refl refl e
]

pub unregister_olt-olts :
    (glob : Glob) (id : Text) (m : OltManager)
    → ((unregister_olt glob id m).1 ≡ m) ⊎ ((unregister_olt glob id m).1.olts ≡ remove id m.olts)
unfolding unregister_olt
unregister_olt-olts glob id m = ground arith

pub unregister_olt-IsRegistry :
    (glob : Glob) (id : Text) (m : OltManager)
    → IsRegistry m
    → IsRegistry (unregister_olt glob id m).1
unregister_olt-IsRegistry glob id m r = elim (unregister_olt-olts glob id m) [
  | inl same ↦ subst IsRegistry (sym same) r
  | inr e ↦ remove-IsRegistry m (unregister_olt glob id m).1 id r e
]

-- After its removal an OLT is not registered.
pub unregister_olt-gone :
    (glob : Glob) (id : Text) (m : OltManager) → lookup id (unregister_olt glob id m).1.olts ≡ none
unfolding unregister_olt
unregister_olt-gone glob id m = ground (arith, lookup-remove_self id m.olts)

lookup-unregister_olt :
    (glob : Glob) (id other : Text) (m : OltManager)
    → id ≢ other
    → lookup other (unregister_olt glob id m).1.olts ≡ lookup other m.olts
unfolding unregister_olt
lookup-unregister_olt glob id other m h = ground (arith, lookup-remove_ne id other m.olts h)

-- The connection that registering makes.
abbrev pub connection : Devices → OltInstance → OltConnection
connection devices olt = record {
  olt = olt;
  client = new_client olt.snmp;
  adapter = detect_firmware (devices (new_client olt.snmp));
}

pub register_olt-absent :
    (devices : Devices) (olt : OltInstance) (m : OltManager)
    → lookup olt.id m.olts ≡ none
    → ((register_olt devices olt m).0 ≡ ok olt)
      × ((register_olt devices olt m).1.olts ≡ insert olt.id (connection devices olt) m.olts)
unfolding register_olt
register_olt-absent devices olt m h = (ground (arith, h), ground (arith, h))

get_olt-some :
    (id : Text) (m : OltManager) (conn : OltConnection)
    → lookup id m.olts ≡ some conn
    → get_olt id m ≡ ok conn.olt
unfolding get_olt
get_olt-some id m conn h = rw (h, get_olt)

get_olt-same :
    (id : Text) (m m' : OltManager)
    → lookup id m.olts ≡ lookup id m'.olts
    → get_olt id m ≡ get_olt id m'
unfolding get_olt
get_olt-same id m m' h = rw (h, get_olt) refl

-- An update always succeeds, whether or not the OLT was registered; afterwards the registry holds
-- the given settings for it, and for every other OLT what it held before.
pub get_olt-update_olt :
    (devices : Devices) (glob : Glob) (olt : OltInstance) (m : OltManager) (other : Text)
    → olt.id ≢ other
    → ((update_olt devices glob olt m).0 ≡ ok olt)
      × (get_olt olt.id (update_olt devices glob olt m).1 ≡ ok olt)
      × (get_olt other (update_olt devices glob olt m).1 ≡ get_olt other m)
unfolding update_olt
get_olt-update_olt devices glob olt m other h =
    let m₁ = (unregister_olt glob olt.id m).1 in
    let conn = connection devices olt in
    let (success, olts) = register_olt-absent devices olt m₁ (unregister_olt-gone glob olt.id m) in
    (
      success,
      get_olt-some olt.id (register_olt devices olt m₁).1 conn
          (ap (λ t. lookup olt.id t) olts ∙ lookup-insert_self olt.id conn m₁.olts),
      get_olt-same other (register_olt devices olt m₁).1 m (
          ap (λ t. lookup other t) olts
          ∙ lookup-insert_ne olt.id other conn m₁.olts h
          ∙ lookup-unregister_olt glob olt.id other m h),
    )

update_vlan_profiles-IsRegistry :
    (id : Text) (profiles : Map Text Text) (m : OltManager)
    → IsRegistry m
    → IsRegistry (update_vlan_profiles id profiles m).1
unfolding update_vlan_profiles
update_vlan_profiles-IsRegistry id profiles m r = elim (Option-cases (lookup id m.olts)) [
  | inl e ↦ rw (e, update_vlan_profiles) r
  | inr (conn, e) ↦
      rw (e, update_vlan_profiles)
        (insert-IsRegistry m _ id (with_profiles profiles conn) r
          (All-lookup SameId id conn m.olts r.named e)
          (All-lookup OwnClient id conn m.olts r.clients e) refl)
]

-- From a registry (one connection for each OLT, under its identifier, with the client that its
-- settings make), a registration, a removal, an update and a change of VLAN profiles each leave a
-- registry, whether they succeed or fail.
pub update_olt-IsRegistry :
    (devices : Devices) (glob : Glob) (olt : OltInstance) (profiles : Map Text Text)
    (m : OltManager)
    → IsRegistry m
    → IsRegistry (register_olt devices olt m).1
      × IsRegistry (unregister_olt glob olt.id m).1
      × IsRegistry (update_olt devices glob olt m).1
      × IsRegistry (update_vlan_profiles olt.id profiles m).1
unfolding update_olt
update_olt-IsRegistry devices glob olt profiles m r =
    let removed = unregister_olt-IsRegistry glob olt.id m r in
    (
      register_olt-IsRegistry devices olt m r,
      removed,
      register_olt-IsRegistry devices olt (unregister_olt glob olt.id m).1 removed,
      update_vlan_profiles-IsRegistry olt.id profiles m r,
    )

same_client :
    (conn : OltConnection)
    → conn.client ≡ new_client conn.olt.snmp
    → clone conn.client ≡ conn.client
same_client conn h = ap clone h ∙ (clone-new_client conn.olt.snmp).0 ∙ sym h

-- A new client of a registered OLT has the settings of the shared one.
pub get_new_client-eq-get_client :
    (m : OltManager) (id : Text) → IsRegistry m → get_new_client id m ≡ get_client id m
unfolding get_new_client get_client
get_new_client-eq-get_client m id r = elim (Option-cases (lookup id m.olts)) [
  | inl e ↦ rw (e, get_new_client, get_client) refl
  | inr (conn, e) ↦
      rw (e, get_new_client, get_client)
        (ap ok (same_client conn (All-lookup OwnClient id conn m.olts r.clients e)))
]

-- Making a lock leaves the OLTs as they are.
pub olts-lock_of : (olt_id : Text) (m : OltManager) → (lock_of olt_id m).1.olts ≡ m.olts
unfolding lock_of
olts-lock_of olt_id m = elim (Option-cases (lookup olt_id m.op_locks)) [
  | inl e ↦ rw (e, lock_of) refl
  | inr (lock, e) ↦ rw (e, lock_of) refl
]
