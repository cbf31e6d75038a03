-- ===== src/Poller/Optical/Served.antt =====
-- What the optical poller leaves in the cache.
use zzte.Strings.{is_empty}
use zzte.Domain.{OnuListItem, OnuNameEntry, OltInstance, ok}
use zzte.Cache
use zzte.Cache.{RedisCache, ttl_onu_list, or_ttl}
use zzte.Cache.Store.{get_onu_list-set_self}
use zzte.Snmp.Client.{Agent}
use zzte.Snmp.Adapter.{FirmwareAdapter}
use zzte.Snmp.Parsers.{wrap}
use zzte.Service.Manager.{Devices}
use zzte.Service.Onus.{wrap_small}
use zzte.Service.Onus.Names.{needs_names, names_map, put_name}
use zzte.Service.Onus.Listing.{OnuService, ListCodec, Clock, get_onu_list}
use zzte.Service.Onus.Served.{get_onu_list-stored}
use zzte.Service.Onus.Pons.{PonPort}
use zzte.Poller.Optical.{
  TempOnu, walk_onus, sorted_items, with_names, named_items, cache_items, poll_pon, poll_interval,
  poll_ttl, interval_seconds, nanoseconds, or_minute,
}
use zzte.Prelude.{
  Bool, Bool-cases, List, Map, Option, Option-cases, Text, [], ap, arith, false, inl, inr,
  insert_by, int_eq, ltb_ℤ, map, nat_eq, negsuc, none, pos, pos_part, refl, some, sort_by, text_eq,
  true, ℕ, ℤ, ◌*◌, ◌+ℤ◌, ◌+◌, ◌<◌, ◌∙◌, ◌∷◌, ◌≡◌, ◌≤◌,
}

is_empty-insert_by :
    {A : Type 0} (key : A → ℤ) (x : A) (l : List A) → is_empty (insert_by key x l) ≡ false
unfolding insert_by
is_empty-insert_by key x [] = refl
is_empty-insert_by key x (y ∷ l) = elim (Bool-cases (ltb_ℤ (key y) (key x))) [
  | inl e ↦ rw e refl
  | inr e ↦ rw e refl
]

is_empty-map : {A B : Type 0} (f : A → B) (l : List A) → is_empty (map f l) ≡ is_empty l
is_empty-map f [] = refl
is_empty-map f (x ∷ l) = refl

is_empty-sorted_items :
    (olt_id : Text) (board pon : ℤ) (onus : Map ℤ TempOnu)
    → is_empty onus ≡ false
    → is_empty (sorted_items olt_id board pon onus) ≡ false
unfolding sorted_items sort_by
is_empty-sorted_items olt_id board pon [] h = h
is_empty-sorted_items olt_id board pon (o ∷ onus) h = is_empty-insert_by _ _ _

is_empty-with_names :
    (decode_names : Text → Option (List OnuNameEntry)) (names_data : Option Text)
    (items : List OnuListItem)
    → is_empty (with_names decode_names names_data items) ≡ is_empty items
unfolding with_names
is_empty-with_names decode_names none items = refl
is_empty-with_names decode_names (some names_data) items = elim (Bool-cases (is_empty names_data)) [
  | inl e ↦ rw (e, with_names) refl
  | inr e ↦ elim (Option-cases (decode_names names_data)) [
    | inl k ↦ rw (e, k, with_names) refl
    | inr (names, k) ↦ rw (e, k, with_names) (is_empty-map (put_name (names_map names)) items)
  ]
]

module _ (codec : ListCodec) (now : ℕ) (olt_id : Text) (agent : Agent)
    (adapter : Option FirmwareAdapter) (ttl : ℤ) (port : PonPort) where
  polled :
      (c : RedisCache) (onus : Map ℤ TempOnu)
      → walk_onus agent adapter port.if_index ≡ ok onus
      → is_empty onus ≡ false
      → (poll_pon codec now olt_id agent adapter ttl port (some c)).0
        ≡ cache_items codec now olt_id port.info.board port.info.pon ttl
            (named_items codec now olt_id port.info.board port.info.pon
              (sorted_items olt_id port.info.board port.info.pon onus)
              (some c))
            (some c)
  unfolding poll_pon
  polled c onus walked full = rw (walked, full, poll_pon) refl

lasting_long : (ttl : ℤ) → ltb_ℤ (pos 0) ttl ≡ true → 0 < pos_part ttl
lasting_long (pos n) h = ground (arith, h)
lasting_long (negsuc n) h = ground (arith, h)

-- What the optical poller stores of a port is the answer of `GetONUList` for as long as it is
-- kept, whatever the device answers then, and asking changes nothing, where every ONU has a name
-- from the names poller, JSON gives the list back and the lifetime is positive.
pub get_onu_list-polled :
    (codec : ListCodec) (now : ℕ) (agent : Agent) (adapter : Option FirmwareAdapter) (ttl : ℤ)
    (port : PonPort) (devices : Devices) (acquired : Text → Bool) (clock : Clock)
    (olt_id data' : Text) (s : OnuService) (c : RedisCache) (onus : Map ℤ TempOnu)
    → walk_onus agent adapter port.if_index ≡ ok onus
    → is_empty onus ≡ false
    → let board = port.info.board in
      let pon = port.info.pon in
      let items =
        named_items codec now olt_id board pon (sorted_items olt_id board pon onus) (some c) in
      needs_names items ≡ false
      → codec.encode items ≡ some data'
      → codec.decode data' ≡ some items
      → ltb_ℤ (pos 0) ttl ≡ true
      → clock.asked < now + pos_part ttl
      → s.cache ≡ (poll_pon codec now olt_id agent adapter ttl port (some c)).0
      → get_onu_list codec devices acquired clock olt_id board pon false s ≡ (s, some (ok items))
unfolding named_items cache_items
get_onu_list-polled codec now agent adapter ttl port devices acquired clock olt_id data' s c onus
      walked full named encoded decoded long early after =
    let board = port.info.board in
    let pon = port.info.pon in
    let sorted = sorted_items olt_id board pon onus in
    let items = named_items codec now olt_id board pon sorted (some c) in
    let lasting : or_ttl ttl_onu_list ttl ≡ pos_part ttl = rw long refl in
    get_onu_list-stored codec devices acquired clock olt_id data' board pon s _ items
      (after
        ∙ polled codec now olt_id agent adapter ttl port c onus walked full
        ∙ rw (encoded, cache_items) refl)
      (get_onu_list-set_self now clock.asked olt_id data' board pon ttl c
        (rw lasting (lasting_long ttl long)) (rw lasting early))
      decoded
      (is_empty-with_names codec.decode_names (Cache.get_onu_names now olt_id board pon c) sorted
        ∙ is_empty-sorted_items olt_id board pon onus full)
      named

twice : (m : ℕ) → pos m +ℤ pos m ≡ pos (2 * m)
twice m = ground arith

poll_interval_lem :
    (configured : ℤ) (olt : Option OltInstance) (n : ℕ)
    → interval_seconds configured olt ≡ pos n
    → 0 < n
    → n ≤ 4611686018
    → poll_interval configured olt ≡ pos (n * 1000000000)
unfolding poll_interval
poll_interval_lem configured olt n h k l =
    let exact : nanoseconds (pos n) ≡ pos (n * 1000000000) =
      wrap_small (n * 1000000000) (omega (arith, l)) in
    let positive : ltb_ℤ (pos 0) (pos (n * 1000000000)) ≡ true = ground (arith, k) in
    ap (λ i. or_minute (nanoseconds i)) h ∙ ap or_minute exact ∙ rw positive refl

-- The optical poller keeps what it stores for twice its interval, for an interval of 1 to
-- 4611686018 seconds.
pub poll_ttl-eq-twice :
    (configured : ℤ) (olt : Option OltInstance) (n : ℕ)
    → interval_seconds configured olt ≡ pos n
    → 0 < n
    → n ≤ 4611686018
    → poll_ttl configured olt ≡ pos (2 * (n * 1000000000))
unfolding poll_ttl
poll_ttl-eq-twice configured olt n h k l =
    let interval = poll_interval_lem configured olt n h k l in
    let m = n * 1000000000 in
    ap (λ i. wrap (i +ℤ i)) interval ∙ ap wrap (twice m) ∙ wrap_small (2 * m) (omega (arith, l))
