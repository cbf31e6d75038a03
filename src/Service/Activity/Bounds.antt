-- ===== src/Service/Activity/Bounds.antt =====
-- The log keeps the newest entries, at most 500 of them, newest first.
use zzte.Service.Activity.{
  Activity, ActivityService, max_activity_entries, complete_entry, log, list,
}
use zzte.Prelude.{
  List, Option-cases, ap, arith, if◌then◌else◌, inl, inr, int_eq, length, length-take, ltb, ltb_ℤ,
  nat_eq, none, not, pos, pos_part, some, take, take_all, text_eq, true, ℕ, ℤ, ◌&&◌, ◌<◌, ◌∙◌, ◌∷◌,
  ◌≡◌, ◌≤◌,
}

abbrev pub entries : ActivityService → List Activity
entries s = elim s.cache [ none ↦ s.mem | some items ↦ items ]

pub record IsBounded (s : ActivityService) : Type 0 where
  pub limit : s.max ≡ max_activity_entries
  pub stored : length (entries s) ≤ max_activity_entries

length-take_le {ℓ} : {A : Type ℓ} (n : ℕ) (xs : List A) → length (take n xs) ≤ n
length-take_le n xs = omega (arith, length-take n xs)

cut_off {ℓ} :
    {A : Type ℓ} (n : ℕ) (xs : List A)
    → 0 < n
    → (if ltb 0 n && ltb n (length xs) then take n xs else xs) ≡ take n xs
cut_off n xs h = ground (arith, take_all n xs)

-- What one call of `Log` stores.
log-entries_eq :
    (now : ℕ) (entry : Activity) (s : ActivityService)
    → s.max ≡ max_activity_entries
    → entries (log true now entry s)
      ≡ take max_activity_entries (complete_entry now entry ∷ entries s)
unfolding log
log-entries_eq now entry s h = elim (Option-cases s.cache) [
  | inl e ↦ rw (e, h, cut_off max_activity_entries (complete_entry now entry ∷ s.mem) (omega arith))
  | inr (items, e) ↦ rw e
]

log-max : (now : ℕ) (entry : Activity) (s : ActivityService) → (log true now entry s).max ≡ s.max
unfolding log
log-max now entry s = ground arith

-- In a log within its limit of 500, a new entry comes first, the older ones follow in their order,
-- and what is beyond 500 is gone, so the log stays within its limit; this holds with Redis, where
-- Redis takes the write, and without it.
pub log-entries :
    (now : ℕ) (entry : Activity) (s : ActivityService)
    → IsBounded s
    → (entries (log true now entry s)
        ≡ take max_activity_entries (complete_entry now entry ∷ entries s))
      × IsBounded (log true now entry s)
log-entries now entry s h =
    let e = log-entries_eq now entry s h.limit in
    (
      e,
      record {
        limit = log-max now entry s ∙ h.limit;
        stored = rw e (length-take_le max_activity_entries (complete_entry now entry ∷ entries s));
      },
    )

-- The number of entries that a request for `limit` entries may get.
abbrev pub allowed : ℤ → ℕ
allowed limit =
    if ltb_ℤ (pos 0) limit && not (ltb_ℤ (pos max_activity_entries) limit)
    then pos_part limit
    else max_activity_entries

allowed_idem : (limit : ℤ) → allowed (pos (allowed limit)) ≡ allowed limit
allowed_idem limit = ground arith

-- A listing of a log within its limit, where Redis, if there is one, answers, is the newest
-- entries that are stored, as many as asked for; a limit that is not positive or is above 500
-- counts as 500.
pub list-entries :
    (limit : ℤ) (s : ActivityService)
    → IsBounded s
    → list true limit s ≡ take (allowed limit) (entries s)
unfolding list
list-entries limit s h = elim (Option-cases s.cache) [
  | inl e ↦ rw (e, h.limit)
  | inr (items, e) ↦ rw (e, h.limit) (ap (λ n. take n items) (allowed_idem limit))
]
