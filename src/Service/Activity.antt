-- ===== src/Service/Activity.antt =====
-- internal/service/activity_service.go, with `AppendActivity` and `ListActivities` of
-- internal/cache/redis.go and `logActivity` of internal/handler/activity_helper.go. An entry in
-- the Redis list is the entry itself: `json.Unmarshal` gives back what `json.Marshal` wrote.
pub mod Bounds
use zzte.Strings.{is_empty}
use zzte.Strings.Decimal.{itoa}
use zzte.Snmp.Parsers.{wrap}
use zzte.Prelude.{
  Bool, List, Map, Option, Text, [], arith, codes, false, if◌then◌else◌, int_eq, length, ltb, ltb_ℤ,
  nat_eq, none, not, pos, pos_part, some, suc, take, text_eq, true, ℕ, ℤ, ◌&&◌, ◌*◌, ◌-ℤ◌, ◌==◌,
  ◌∷◌,
}

pub record Activity : Type 0 where
  pub id : Text
  pub time : ℕ
  pub user : Text
  pub role : Text
  pub action : Text
  pub target : Text
  pub detail : Map Text Text
  pub remote_ip : Text

abbrev pub max_activity_entries : ℕ
max_activity_entries = 500

-- `cache` is the list in Redis, `none` without Redis.
pub record ActivityService : Type 0 where
  pub cache : Option (List Activity)
  pub mem : List Activity
  pub max : ℕ

-- `NewActivityService`
unfoldable pub new_activity_service : Option (List Activity) → ActivityService
new_activity_service cache = record { cache = cache; mem = []; max = max_activity_entries }

-- `AppendActivity`: `LPUSH` and `LTRIM 0 499` in one transaction, or an error.
unfoldable pub append_activity : Bool → Activity → List Activity → List Activity
append_activity true entry items = take max_activity_entries (entry ∷ items)
append_activity false entry items = items

-- 1970, in nanoseconds since Go's zero time
abbrev pub unix_epoch : ℕ
unix_epoch = 62135596800 * 1000000000

-- `UnixNano`
abbrev unix_nano : ℕ → ℤ
unix_nano now = wrap (pos now -ℤ pos unix_epoch)

-- the two defaults of `Log`, at the time `now` in nanoseconds
unfoldable pub complete_entry : ℕ → Activity → Activity
complete_entry now entry = record entry {
  time = if entry.time == 0 then now else entry.time;
  id = if is_empty entry.id then itoa (unix_nano now) else entry.id;
}

-- `Log`; `reachable` tells whether Redis takes the transaction. Its error is dropped.
unfoldable pub log : Bool → ℕ → Activity → ActivityService → ActivityService
unfolding append_activity
log reachable now entry s =
    let e = complete_entry now entry in
    elim s.cache [
      | some items ↦ record s { cache = some (append_activity reachable e items) }
      | none ↦ record s {
        mem =
            if ltb 0 s.max && ltb s.max (suc (length s.mem))
            then take s.max (e ∷ s.mem)
            else e ∷ s.mem;
      }
    ]

-- `ListActivities`, where `LRANGE 0 (limit - 1)` returns the first `limit` items
unfoldable pub list_activities : Bool → ℤ → List Activity → Option (List Activity)
list_activities reachable limit items =
    let n =
      if ltb_ℤ (pos 0) limit && not (ltb_ℤ (pos max_activity_entries) limit)
      then pos_part limit
      else max_activity_entries in
    if reachable then some (take n items) else none

-- `List`; an error of Redis falls back to the entries in memory.
unfoldable pub list : Bool → ℤ → ActivityService → List Activity
unfolding list_activities
list reachable limit s =
    let n : ℕ =
      if ltb_ℤ (pos 0) limit && not (ltb_ℤ (pos s.max) limit) then pos_part limit else s.max in
    let recent = take n s.mem in
    elim s.cache [
      | none ↦ recent
      | some items ↦ elim (list_activities reachable (pos n) items) [ none ↦ recent | some l ↦ l ]
    ]

-- Who a request comes from: the user that the middleware stored, and the address.
pub record Request : Type 0 where
  pub user : Option (Text × Text)
  pub remote_ip : Text

-- `logActivity`, with a service that is there
unfoldable pub log_activity :
    Bool → ℕ → Request → Text → Text → Map Text Text → ActivityService → ActivityService
log_activity reachable now r action target detail s =
    log reachable now
      (record {
        id = [];
        time = 0;
        user = elim r.user [ none ↦ codes "system" | some u ↦ u.0 ];
        role = elim r.user [ none ↦ [] | some u ↦ u.1 ];
        action = action;
        target = target;
        detail = detail;
        remote_ip = r.remote_ip;
      })
      s
