-- ===== src/Examples/Locks.antt =====
-- The locks of an OLT.
use zzte.Snmp.Client.{new_client}
use zzte.Snmp.Adapter.{detect_firmware}
use zzte.Service.Manager.{OltConnection, unregister_olt, lock_of}
use zzte.Service.Manager.Locks.{
  Step, LockState, outside, waiting, holding, find, acquire, Reach, start, later, update,
}
use zzte.Service.Manager.Locks.Exclusion.{mutual_exclusion}
use zzte.Service.Manager.Locks.Removal.{unregister_olt-two_holders}
use zzte.Prelude.{
  Text, [], arith, codes, false, int_eq, lookup, nat_eq, refl, some, text_eq, true, ℕ, ◌=ᵗ◌, ◌∷◌,
  ◌≡◌,
}
use zzte.Examples.Olts.{silent, star_glob, empty_manager, olt}

abbrev one_olt : ℕ → Text
one_olt i = codes "c320"

abbrev idle : LockState
idle = record { manager = empty_manager; full = λ _. false; requests = λ _. outside }

abbrev found : LockState
found = record idle {
  manager = (lock_of (one_olt 4) idle.manager).1;
  requests = update idle.requests 4 (waiting (lock_of (one_olt 4) idle.manager).0);
}

abbrev held : LockState
held = record found {
  full = update found.full 0 true;
  requests = update found.requests 4 (holding 0);
}

found-waiting : found.requests 4 ≡ waiting 0
unfolding lock_of lookup
found-waiting = refl

held-Reach : Reach one_olt empty_manager held
held-Reach = later (later start (find 4 refl)) (acquire 4 0 found-waiting refl)

mutual_exclusion_example : ◌≡◌ {A = ℕ} 4 4
mutual_exclusion_example =
    mutual_exclusion one_olt empty_manager held 4 4 0 0 held-Reach refl refl refl

abbrev c320_connection : OltConnection
c320_connection = record {
  olt = olt;
  client = new_client olt.snmp;
  adapter = detect_firmware silent;
}

abbrev busy : LockState
busy = record held {
  manager = record empty_manager {
    olts = (codes "c320", c320_connection) ∷ [];
    op_locks = (codes "c320", 0) ∷ [];
    channels = 1;
  };
}

c320-registered : lookup (one_olt 5) busy.manager.olts ≡ some c320_connection
unfolding lookup ◌=ᵗ◌
c320-registered = refl

two_holders_example :
    (t : LockState) × (u : LockState) × Step one_olt
      (record busy { manager = (unregister_olt star_glob (one_olt 5) busy.manager).1 })
      t
    × Step one_olt t u
    × (u.requests 4 ≡ holding 0)
    × (u.requests 5 ≡ holding 1)
two_holders_example =
    unregister_olt-two_holders star_glob one_olt busy 4 5 0 c320_connection (omega arith) refl refl
      refl c320-registered refl
