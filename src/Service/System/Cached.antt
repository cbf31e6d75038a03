-- ===== src/Service/System/Cached.antt =====
-- Reading the information of an OLT twice.
use zzte.Domain.{Result, Result-cases, ok, err, OltInstance}
use zzte.Snmp.Values.{SnmpPdu}
use zzte.Cache.{RedisCache, ttl_health, key_olt_health, get_health, set_health, get, set, live}
use zzte.Service.Manager.{OltManager, Devices, get_olt, get_client}
use zzte.Service.System.{
  OltSystemInfo, SystemState, Codec, get_system_info, cached_info, cache_info, read_system_info,
}
use zzte.Prelude.{
  Bool, List, Text, ap, arith, inl, inr, int_eq, lookup-insert_self, nat_eq, none, refl, some,
  text_eq, true, ℕ, ◌+◌, ◌<◌, ◌∙◌, ◌≡◌,
}

health-set :
    (now later : ℕ) (olt_id data' : Text) (c : RedisCache)
    → later < now + ttl_health
    → get_health later olt_id (set_health now olt_id data' c) ≡ some data'
unfolding get_health set_health get set
health-set now later olt_id data' c early =
    ap (live later) (
      lookup-insert_self (key_olt_health olt_id)
        (record { value = data'; deadline = some (now + ttl_health) }) c)
    ∙ ground (arith, early)

module _ (codec : Codec) (devices : Devices) (acquired : Text → Bool) (now : ℕ)
    (olt_id : Text) where
  hit :
      (s : SystemState) (info : OltSystemInfo)
      → cached_info codec devices acquired now olt_id s.cache ≡ some info
      → get_system_info codec devices acquired now olt_id s ≡ (s, ok info)
  unfolding get_system_info
  hit s info e = rw (e, get_system_info) refl

  cached_info-health :
      (c : RedisCache) (data' : Text)
      → get_health now olt_id c ≡ some data'
      → cached_info codec devices acquired now olt_id (some c) ≡ codec.decode data'
  unfolding cached_info
  cached_info-health c data' e = rw (e, cached_info) refl

  cached_info-miss :
      (c : RedisCache)
      → get_health now olt_id c ≡ none
      → cached_info codec devices acquired now olt_id (some c) ≡ none
  unfolding cached_info
  cached_info-miss c e = rw (e, cached_info) refl

  cache_info-encoded :
      (info : OltSystemInfo) (c : RedisCache) (data' : Text)
      → codec.encode info ≡ some data'
      → cache_info codec devices acquired now olt_id info (some c)
        ≡ some (set_health now olt_id data' c)
  unfolding cache_info
  cache_info-encoded info c data' e = rw (e, cache_info) refl

  -- An answer of an online device is in the cache afterwards.
  abbrev IsStored : SystemState → OltSystemInfo → SystemState × Result OltSystemInfo → Type 0
  IsStored s info answer =
      answer.1 ≡ ok info
      → info.is_online ≡ true
      → answer.0.cache ≡ cache_info codec devices acquired now olt_id info s.cache

  read_system_info-IsStored :
      (olt : OltInstance) (result : Result (List SnmpPdu)) (s : SystemState) (info : OltSystemInfo)
      → IsStored s info (read_system_info codec devices acquired now olt_id olt result s)
  unfolding read_system_info
  read_system_info-IsStored olt (err e) s info r o = ground (arith, r, o)
  read_system_info-IsStored olt (ok variables) s info r o = ground (arith, r, o)

  get_system_info-IsStored :
      (s : SystemState) (info : OltSystemInfo)
      → cached_info codec devices acquired now olt_id s.cache ≡ none
      → IsStored s info (get_system_info codec devices acquired now olt_id s)
  unfolding get_system_info
  get_system_info-IsStored s info miss =
      rw (miss, get_system_info)
        (elim (Result-cases (get_olt olt_id s.manager)) [
          | inr (x, e) ↦ rw e (λ r o. cc)
          | inl (olt, e) ↦ rw e (elim (Result-cases (get_client olt_id s.manager)) [
            | inr (x, k) ↦ rw k (λ r o. ground (arith, r, o))
            | inl (client, k) ↦ rw k (read_system_info-IsStored olt _ s info)
          ])
        ])

-- An information that was read from an online device, on a miss in the cache, is given again for
-- five minutes without a change of the state, whatever the device answers then and whether or not
-- the lock could be got, where its JSON is decoded to it.
pub get_system_info-cached :
    (codec : Codec) (devices devices' : Devices) (acquired acquired' : Text → Bool) (now later : ℕ)
    (olt_id data' : Text) (info : OltSystemInfo) (m : OltManager) (c : RedisCache)
    → get_health now olt_id c ≡ none
    → let s : SystemState = record { manager = m; cache = some c } in
      let r = get_system_info codec devices acquired now olt_id s in
      r.1 ≡ ok info
      → info.is_online ≡ true
      → codec.encode info ≡ some data'
      → codec.decode data' ≡ some info
      → later < now + ttl_health
      → get_system_info codec devices' acquired' later olt_id r.0 ≡ (r.0, ok info)
get_system_info-cached codec devices devices' acquired acquired' now later olt_id data' info m c
      miss read online encoded decoded early =
    let s : SystemState = record { manager = m; cache = some c } in
    let t = (get_system_info codec devices acquired now olt_id s).0 in
    let c' = set_health now olt_id data' c in
    let stored : t.cache ≡ some c' =
      get_system_info-IsStored codec devices acquired now olt_id s info
        (cached_info-miss codec devices acquired now olt_id c miss) read online
      ∙ cache_info-encoded codec devices acquired now olt_id info c data' encoded in
    hit codec devices' acquired' later olt_id t info (
      ap (cached_info codec devices' acquired' later olt_id) stored
      ∙ cached_info-health codec devices' acquired' later olt_id c' data'
          (health-set now later olt_id data' c early)
      ∙ decoded)
