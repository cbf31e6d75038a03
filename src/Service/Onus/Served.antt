-- ===== src/Service/Onus/Served.antt =====
-- Lists that `GetONUList` answers from the cache.
use zzte.Strings.{is_empty}
use zzte.Domain.{OnuListItem, ok}
use zzte.Cache
use zzte.Cache.{RedisCache, ttl_onu_list, minute, set_onu_list_with_ttl, set_onu_names, or_ttl}
use zzte.Cache.Store.{get_onu_list-set_self, get_onu_list-set_onu_names}
use zzte.Service.Manager.{Devices}
use zzte.Service.Onus.{adaptive_ttl, adaptive_ttl-eq-min}
use zzte.Service.Onus.Names.{needs_names, to_name_entry}
use zzte.Service.Onus.Listing.{
  OnuService, ListCodec, Clock, elapsed, get_onu_list, cached_answer, cached_list, cache_list,
  store,
}
use zzte.Service.Onus.Fetched.{fetch_onu_list-IsMade, get_onu_list-forced}
use zzte.Prelude.{
  Bool, List, Option, Text, ap, arith, false, int_eq, map, nat_eq, none, pos, refl, some, sym,
  text_eq, true, ℕ, ℤ, ◌+◌, ◌-◌, ◌<◌, ◌^◌, ◌∙◌, ◌≡◌, ◌≤◌,
}

cached_list-stored :
    (codec : ListCodec) (now : ℕ) (olt_id data' : Text) (board pon : ℤ) (c : RedisCache)
    (items : List OnuListItem)
    → Cache.get_onu_list now olt_id board pon c ≡ some data'
    → codec.decode data' ≡ some items
    → is_empty items ≡ false
    → needs_names items ≡ false
    → cached_list codec now olt_id board pon c ≡ some items
unfolding cached_list
cached_list-stored codec now olt_id data' board pon c items k d full named =
    rw (k, d, full, named, cached_list) refl

-- A stored list in which every ONU has a name is the answer, and nothing else is done.
pub get_onu_list-stored :
    (codec : ListCodec) (devices : Devices) (acquired : Text → Bool) (clock : Clock)
    (olt_id data' : Text) (board pon : ℤ) (s : OnuService) (c : RedisCache)
    (items : List OnuListItem)
    → s.cache ≡ some c
    → Cache.get_onu_list clock.asked olt_id board pon c ≡ some data'
    → codec.decode data' ≡ some items
    → is_empty items ≡ false
    → needs_names items ≡ false
    → get_onu_list codec devices acquired clock olt_id board pon false s ≡ (s, some (ok items))
unfolding get_onu_list cached_answer
get_onu_list-stored codec devices acquired clock olt_id data' board pon s c items h k d full named =
    let hit : cached_answer codec false clock.asked olt_id board pon s.cache ≡ some items =
      ap (cached_answer codec false clock.asked olt_id board pon) h
      ∙ cached_list-stored codec clock.asked olt_id data' board pon c items k d full named in
    rw (hit, get_onu_list) refl

lifetime_at_least :
    (clock : Clock)
    → clock.finished - clock.started < 2 ^ 61
    → minute ≤ or_ttl ttl_onu_list (adaptive_ttl (pos ttl_onu_list) (elapsed clock))
lifetime_at_least clock short =
    rw (adaptive_ttl-eq-min ttl_onu_list (clock.finished - clock.started) (omega arith) short)
      (ground arith)

store-names :
    (names : Option Text) (now later : ℕ) (olt_id : Text) (board pon : ℤ) (c : RedisCache)
    → Cache.get_onu_list later olt_id board pon
        (store names (λ data'. set_onu_names now olt_id board pon data') c)
      ≡ Cache.get_onu_list later olt_id board pon c
store-names none now later olt_id board pon c = refl
store-names (some data') now later olt_id board pon c =
    get_onu_list-set_onu_names now later olt_id data' board pon c

-- What is read of the list after it was stored with its names.
cache_list-stored :
    (codec : ListCodec) (clock : Clock) (later : ℕ) (olt_id data' : Text) (board pon : ℤ)
    (c : RedisCache) (items : List OnuListItem)
    → is_empty items ≡ false
    → codec.encode items ≡ some data'
    → clock.finished - clock.started < 2 ^ 61
    → later < clock.finished + minute
    → (c' : RedisCache) × (cache_list codec clock olt_id board pon items (some c) ≡ some c')
      × (Cache.get_onu_list later olt_id board pon c' ≡ some data')
unfolding cache_list
cache_list-stored codec clock later olt_id data' board pon c items full e short early =
    let ttl = adaptive_ttl (pos ttl_onu_list) (elapsed clock) in
    let long = lifetime_at_least clock short in
    let c' = set_onu_list_with_ttl clock.finished olt_id board pon data' ttl c in
    let names = codec.encode_names (map to_name_entry items) in
    (
      _,
      rw (full, e) refl,
      store-names names clock.finished later olt_id board pon c'
          ∙ get_onu_list-set_self clock.finished later olt_id data' board pon ttl c
              (omega (arith, long)) (omega (arith, long, early)),
    )

-- A list that is read past the cache, with a name for every ONU, is given again for at least a
-- minute without a change of the state, whatever the device answers then and whether or not the
-- lock could be got, where JSON gives it back and the walks took less than 2 ^ 61 nanoseconds.
pub get_onu_list-cached :
    (codec : ListCodec) (devices devices' : Devices) (acquired acquired' : Text → Bool)
    (clock clock' : Clock) (olt_id data' : Text) (board pon : ℤ) (s : OnuService) (c : RedisCache)
    (items : List OnuListItem)
    → s.cache ≡ some c
    → (get_onu_list codec devices acquired clock olt_id board pon true s).1 ≡ some (ok items)
    → is_empty items ≡ false
    → needs_names items ≡ false
    → codec.encode items ≡ some data'
    → codec.decode data' ≡ some items
    → clock.finished - clock.started < 2 ^ 61
    → clock'.asked < clock.finished + minute
    → let t = (get_onu_list codec devices acquired clock olt_id board pon true s).0 in
      get_onu_list codec devices' acquired' clock' olt_id board pon false t ≡ (t, some (ok items))
get_onu_list-cached codec devices devices' acquired acquired' clock clock' olt_id data' board pon s
      c items h k full named encoded decoded short early =
    let forced = get_onu_list-forced codec devices acquired clock olt_id board pon s in
    let (client, e, (onus, _, same, stored)) =
      fetch_onu_list-IsMade codec devices acquired clock olt_id board pon s items
        (ap (λ r. r.1) (sym forced) ∙ k) in
    let (c', there, read) =
      cache_list-stored codec clock clock'.asked olt_id data' board pon c items full encoded short
        early in
    get_onu_list-stored codec devices' acquired' clock' olt_id data' board pon _ c' items
      (ap (λ r. r.0.cache) forced
        ∙ stored
        ∙ ap (cache_list codec clock olt_id board pon items) h
        ∙ there)
      read decoded full named
