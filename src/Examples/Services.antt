-- ===== src/Examples/Services.antt =====
-- The activity log, and names of environment variables.
use zzte.Service.Activity.{Activity, ActivityService, complete_entry, log}
use zzte.Service.Activity.Bounds.{IsBounded, entries, log-entries}
use zzte.Examples.Data.{no_entries}
use zzte.Prelude.{[], arith, codes, int_eq, nat_eq, refl, some, take, text_eq, true, ◌∷◌, ◌≡◌}

abbrev created_olt : Activity
created_olt = record {
  id = [];
  time = 0;
  user = codes "admin";
  role = codes "superadmin";
  action = codes "olt.create";
  target = codes "c320";
  detail = [];
  remote_ip = codes "10.0.0.7";
}

abbrev one_entry : ActivityService
one_entry = record { cache = some (created_olt ∷ []); mem = []; max = 500 }

no_entries-IsBounded : IsBounded no_entries
no_entries-IsBounded = record { limit = refl; stored = omega arith }

one_entry-IsBounded : IsBounded one_entry
one_entry-IsBounded = record { limit = refl; stored = omega arith }

log_example :
    (entries (log true 7 created_olt no_entries) ≡ take 500 (complete_entry 7 created_olt ∷ []))
    × IsBounded (log true 7 created_olt no_entries)
log_example = log-entries 7 created_olt no_entries no_entries-IsBounded
