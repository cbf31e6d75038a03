-- ===== src/Handler/Olts/Keys.antt =====
-- The identifiers that the registry and the configuration have, after each step of a handler.
use zzte.Strings.{is_empty}
use zzte.Domain.{Error, olt_not_found, OltInstance, OltConfig, ok, err}
use zzte.Cache.{Glob}
use zzte.Service.Manager.{
  OltConnection, OltManager, Devices, register_olt, unregister_olt, update_vlan_profiles,
  with_profiles,
}
use zzte.Handler.OltRequests.{entry_at, should_fetch_vlan_profiles}
use zzte.Handler.Olts.{OltState, World, refresh_vlan_profiles, store_vlan_profiles}
use zzte.Prelude.{
  =ᵗ_iff, Bool, Map, Option, Option-cases, Text, ap, arith, false, if_intro, inl, inr, insert,
  int_eq, lookup, lookup-insert, lookup-remove, nat_eq, none, not, refl, remove, some, sym, text_eq,
  true, ◌&&◌, ◌=ᵗ◌, ◌||◌, ◌∙◌, ◌≡◌, ◌⊎◌,
}

-- Whether a map has a key.
abbrev pub is_some : {A : Type 0} → Option A → Bool
is_some none = false
is_some (some a) = true

abbrev pub has_key : {V : Type 0} → Text → Map Text V → Bool
has_key k m = is_some (lookup k m)

-- An OLT is registered exactly when the configuration has an entry for it.
abbrev pub IsAgreed : OltState → Type 0
IsAgreed s = (id : Text) → has_key id s.manager.olts ≡ has_key id s.configs

pub has_key-insert :
    {V : Type 0} (k j : Text) (v : V) (m : Map Text V)
    → has_key j (insert k v m) ≡ (k =ᵗ j || has_key j m)
has_key-insert k j v m = rw (lookup-insert k j v m, is_some) (ground arith)

pub has_key-remove :
    {V : Type 0} (k j : Text) (m : Map Text V)
    → has_key j (remove k m) ≡ (not (k =ᵗ j) && has_key j m)
has_key-remove k j m = rw (lookup-remove k j m, is_some) (ground arith)

-- An entry that is there may be replaced.
pub has_key-replace :
    {V : Type 0} (k j : Text) (v : V) (m : Map Text V)
    → has_key k m ≡ true
    → has_key j (insert k v m) ≡ has_key j m
has_key-replace k j v m h = has_key-insert k j v m ∙ ground (arith, =ᵗ_iff k j, h)

pub update_vlan_profiles-keys :
    (id j : Text) (profiles : Map Text Text) (m : OltManager)
    → has_key j (update_vlan_profiles id profiles m).1.olts ≡ has_key j m.olts
unfolding update_vlan_profiles
update_vlan_profiles-keys id j profiles m = elim (Option-cases (lookup id m.olts)) [
  | inl e ↦ rw (e, update_vlan_profiles) refl
  | inr (conn, e) ↦
      rw (e, update_vlan_profiles)
        (has_key-replace id j (with_profiles profiles conn) m.olts (ap is_some e))
]

-- The keys of the two maps, at one identifier.
abbrev pub keys_at : Text → OltState → Bool × Bool
keys_at j s = (has_key j s.manager.olts, has_key j s.configs)

pub store_vlan_profiles-keys :
    (id j : Text) (profiles : Map Text Text) (s : OltState)
    → has_key id s.configs ≡ true
    → keys_at j (store_vlan_profiles id profiles s) ≡ keys_at j s
unfolding store_vlan_profiles
store_vlan_profiles-keys id j profiles s h = cc (
  update_vlan_profiles-keys id j profiles s.manager,
  has_key-replace id j (record (entry_at id s.configs) { vlan_profiles = profiles }) s.configs h,
)

pub refresh_vlan_profiles-keys :
    (w : World) (id j : Text) (config : OltConfig) (s : OltState)
    → has_key id s.configs ≡ true
    → keys_at j (refresh_vlan_profiles w id config s) ≡ keys_at j s
unfolding refresh_vlan_profiles
refresh_vlan_profiles-keys w id j config s h =
    if_intro (λ t. keys_at j t ≡ keys_at j s)
      (not w.has_telnet || not (should_fetch_vlan_profiles config.telnet)) (λ _. refl)
      (λ _. elim (Option-cases (w.fetch_vlan_profiles config)) [
        | inl e ↦ rw e refl
        | inr (profiles, e) ↦ rw e (
            if_intro (λ t. keys_at j t ≡ keys_at j s) (is_empty profiles) (λ _. refl)
              (λ _. store_vlan_profiles-keys id j profiles s h))
      ])

-- The two maps agree at an identifier.
abbrev pub AgreesAt : Text → OltState → Type 0
AgreesAt j s = has_key j s.manager.olts ≡ has_key j s.configs

pub agrees_by :
    (j : Text) (s t : OltState) → keys_at j s ≡ keys_at j t → AgreesAt j t → AgreesAt j s
agrees_by j s t e h = ap (λ p. p.0) e ∙ h ∙ sym (ap (λ p. p.1) e)

-- Registering or updating adds the identifier, or else fails and changes no key.
pub register_olt-keys :
    (devices : Devices) (olt : OltInstance) (m : OltManager)
    → (((e : Error) × ((register_olt devices olt m).0 ≡ err e))
        × ((register_olt devices olt m).1.olts ≡ m.olts))
      ⊎ (((r : OltInstance) × ((register_olt devices olt m).0 ≡ ok r))
          × ((conn : OltConnection) × ((register_olt devices olt m).1.olts
                ≡ insert olt.id conn m.olts)))
unfolding register_olt
register_olt-keys devices olt m = elim (Option-cases (lookup olt.id m.olts)) [
  | inl e ↦ rw (e, register_olt) (inr ((_, refl), (_, refl)))
  | inr (conn, e) ↦ rw (e, register_olt) (inl ((_, refl), refl))
]

-- Unregistering an OLT leaves the other keys.
pub unregister_olt-keys :
    (glob : Glob) (id j : Text) (m : OltManager)
    → has_key j (unregister_olt glob id m).1.olts ≡ (not (id =ᵗ j) && has_key j m.olts)
unfolding unregister_olt
unregister_olt-keys glob id j m = elim (Option-cases (lookup id m.olts)) [
  | inl e ↦ rw (e, unregister_olt) (ground (arith, =ᵗ_iff id j, e))
  | inr (conn, e) ↦ rw (e, unregister_olt) (has_key-remove id j m.olts)
]

pub unregister_olt-outcome :
    (glob : Glob) (id : Text) (m : OltManager)
    → (((unregister_olt glob id m).0 ≡ err olt_not_found) × ((unregister_olt glob id m).1 ≡ m))
      ⊎ (((unregister_olt glob id m).0 ≡ ok tt)
          × ((unregister_olt glob id m).1.olts ≡ remove id m.olts))
unfolding unregister_olt
unregister_olt-outcome glob id m = elim (Option-cases (lookup id m.olts)) [
  | inl e ↦ rw (e, unregister_olt) (inl (refl, refl))
  | inr (conn, e) ↦ rw (e, unregister_olt) (inr (refl, refl))
]
