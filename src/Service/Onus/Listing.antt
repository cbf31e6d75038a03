-- ===== src/Service/Onus/Listing.antt =====
-- `GetONUList` of internal/service/onu_service.go. JSON is a parameter, and so is whether the lock
-- is got before the context ends. A request is served alone: requests for one port that
-- `singleflight` joins get the answer of the one that runs.
use zzte.Strings.{is_empty}
use zzte.Domain.{Onu, OnuListItem, OnuNameEntry, to_list_item, Result, ok, err, deadline_exceeded}
use zzte.Cache
use zzte.Cache.{RedisCache, ttl_onu_list, set_onu_list_with_ttl, get_onu_names, set_onu_names}
use zzte.Service.Manager.{OltManager, Devices, get_client, get_adapter, lock_of}
use zzte.Service.Onus.{adaptive_ttl}
use zzte.Service.Onus.Walks.{collect_onus}
use zzte.Service.Onus.Names.{merge_names, needs_names, to_name_entry}
use zzte.Prelude.{
  Bool, List, Map, Option, Text, if◌then◌else◌, int_eq, map, nat_eq, none, not, pos, some, sort_by,
  text_eq, ℕ, ℤ, ◌-◌,
}

-- The service reads the registry and may have a cache.
pub record OnuService : Type 0 where
  pub manager : OltManager
  pub cache : Option RedisCache

-- encoding/json on the lists that are cached; `none` is an error.
pub record ListCodec : Type 0 where
  pub encode : List OnuListItem → Option Text
  pub decode : Text → Option (List OnuListItem)
  pub encode_names : List OnuNameEntry → Option Text
  pub decode_names : Text → Option (List OnuNameEntry)

-- When the cache is read, when the device is asked, and when its answers are there.
pub record Clock : Type 0 where
  pub asked : ℕ
  pub started : ℕ
  pub finished : ℕ

-- `time.Since(start)`
abbrev pub elapsed : Clock → ℤ
elapsed clock = pos (clock.finished - clock.started)

abbrev pub or_absent : {A : Type 0} → Result A → Option A
or_absent (err _) = none
or_absent (ok a) = some a

-- the ONUs of the map, sorted, as list items
unfoldable pub list_items : Map ℤ Onu → List OnuListItem
list_items onus = map to_list_item (sort_by (λ (o : Onu). o.onu_id) (map (λ entry. entry.1) onus))

-- a text that is stored unless its encoding failed
abbrev pub store : Option Text → (Text → RedisCache → RedisCache) → RedisCache → RedisCache
store none set' c = c
store (some data') set' c = set' data' c

module _ (codec : ListCodec) where
  -- a cached list without names, filled up from the names cache
  unfoldable pub merged_list :
      ℕ → Text → ℤ → ℤ → List OnuListItem → RedisCache → Option (List OnuListItem)
  merged_list now olt_id board pon items c = elim (get_onu_names now olt_id board pon c) [
    | none ↦ none
    | some names_data ↦ elim (codec.decode_names names_data) [
      | none ↦ none
      | some names ↦ merge_names names items
    ]
  ]

  -- the answer that the cache gives, if it gives one
  unfoldable pub cached_list : ℕ → Text → ℤ → ℤ → RedisCache → Option (List OnuListItem)
  cached_list now olt_id board pon c = elim (Cache.get_onu_list now olt_id board pon c) [
    | none ↦ none
    | some cache_data ↦ elim (codec.decode cache_data) [
      | none ↦ none
      | some items ↦
          if is_empty items
          then none
          else if not (needs_names items)
          then some items
          else merged_list now olt_id board pon items c
    ]
  ]

  unfoldable pub cached_answer :
      Bool → ℕ → Text → ℤ → ℤ → Option RedisCache → Option (List OnuListItem)
  cached_answer force_fresh now olt_id board pon none = none
  cached_answer force_fresh now olt_id board pon (some c) =
      if force_fresh then none else cached_list now olt_id board pon c

  -- the two writes after a walk
  unfoldable pub cache_list :
      Clock → Text → ℤ → ℤ → List OnuListItem → Option RedisCache → Option RedisCache
  cache_list clock olt_id board pon items none = none
  cache_list clock olt_id board pon items (some c) =
      if is_empty items
      then some c
      else (let ttl = adaptive_ttl (pos ttl_onu_list) (elapsed clock) in
          let c' =
            store (codec.encode items)
              (λ data'. set_onu_list_with_ttl clock.finished olt_id board pon data' ttl) c in
          some (
            store (codec.encode_names (map to_name_entry items))
              (λ data'. set_onu_names clock.finished olt_id board pon data') c'))

  -- the end of the function that `singleflight` runs; `none` is a panic
  unfoldable pub finish_list :
      Clock
      → Text
      → ℤ
      → ℤ
      → OnuService
      → Option (Result (Map ℤ Onu))
      → OnuService × Option (Result (List OnuListItem))
  finish_list clock olt_id board pon s none = (s, none)
  finish_list clock olt_id board pon s (some (err e)) = (s, some (err e))
  finish_list clock olt_id board pon s (some (ok onus)) =
      let items = list_items onus in
      (record s { cache = cache_list clock olt_id board pon items s.cache }, some (ok items))

  module _ (devices : Devices) (acquired : Text → Bool) where
    -- the function that `singleflight` runs
    unfoldable pub fetch_onu_list :
        Clock → Text → ℤ → ℤ → OnuService → OnuService × Option (Result (List OnuListItem))
    fetch_onu_list clock olt_id board pon s = elim (get_client olt_id s.manager) [
      | err e ↦ (s, some (err e))
      | ok client ↦
          (let adapter = or_absent (get_adapter olt_id s.manager) in
            let locked : OnuService = record s { manager = (lock_of olt_id s.manager).1 } in
            if not (acquired olt_id)
            then (locked, some (err deadline_exceeded))
            else finish_list clock olt_id board pon locked
                (collect_onus olt_id board pon (devices client) adapter))
    ]

    -- `GetONUList`
    unfoldable pub get_onu_list :
        Clock → Text → ℤ → ℤ → Bool → OnuService → OnuService × Option (Result (List OnuListItem))
    get_onu_list clock olt_id board pon force_fresh s =
        elim (cached_answer force_fresh clock.asked olt_id board pon s.cache) [
          | some items ↦ (s, some (ok items))
          | none ↦ fetch_onu_list clock olt_id board pon s
        ]
