-- ===== src/Cache.antt =====
-- internal/cache/redis.go: keys, lifetimes and the operations on them. Redis is its map from keys
-- to values with a deadline, reachable throughout; its matcher of patterns is a parameter.
pub mod Keys
pub mod Store
use zzte.Strings.{has_prefix}
use zzte.Strings.Decimal.{itoa}
use zzte.Prelude.{
  Bool, Map, Option, Text, [], all, arith, codes, if◌then◌else◌, insert, int_eq, lookup, ltb, ltb_ℤ,
  nat_eq, none, not, pos, pos_part, remove, select, some, text_eq, true, ℕ, ℤ, ◌*◌, ◌++◌, ◌+◌, ◌==◌,
  ◌||◌, ◌∷◌, ◌≡◌,
}

-- A value, and the instant from which it is gone (`none`: never), in nanoseconds.
pub record Entry : Type 0 where
  pub value : Text
  pub deadline : Option ℕ

abbrev pub RedisCache : Type 0
RedisCache = Map Text Entry

abbrev pub minute : ℕ
minute = 60 * 1000000000

abbrev pub ttl_olt_info : ℕ
ttl_olt_info = 5 * minute

abbrev pub ttl_onu_list : ℕ
ttl_onu_list = minute

abbrev pub ttl_onu_detail : ℕ
ttl_onu_detail = 2 * minute

abbrev pub ttl_onu_names : ℕ
ttl_onu_names = 600 * minute

abbrev pub ttl_health : ℕ
ttl_health = 5 * minute

abbrev pub ttl_pon_list : ℕ
ttl_pon_list = 5 * minute

unfoldable pub olt_prefix : Text → Text
olt_prefix olt_id = codes "olt:" ++ (olt_id ++ codes ":")

unfoldable pub key_olt_info : Text → Text
key_olt_info olt_id = olt_prefix olt_id ++ codes "info"

unfoldable pub key_onu_list : Text → ℤ → ℤ → Text
key_onu_list olt_id board pon =
    olt_prefix olt_id
    ++ (codes "board:" ++ (itoa board ++ (codes ":pon:" ++ (itoa pon ++ codes ":list"))))

unfoldable pub key_onu_names : Text → ℤ → ℤ → Text
key_onu_names olt_id board pon =
    olt_prefix olt_id
    ++ (codes "board:" ++ (itoa board ++ (codes ":pon:" ++ (itoa pon ++ codes ":names"))))

unfoldable pub key_onu_detail : Text → ℤ → ℤ → ℤ → Text
key_onu_detail olt_id board pon onu_id =
    olt_prefix olt_id
    ++ (codes "onu:" ++ (itoa board ++ (codes ":" ++ (itoa pon ++ (codes ":" ++ itoa onu_id)))))

unfoldable pub key_olt_health : Text → Text
key_olt_health olt_id = olt_prefix olt_id ++ codes "health"

unfoldable pub key_pon_list : Text → ℤ → Text
key_pon_list olt_id board =
    olt_prefix olt_id ++ (codes "board:" ++ (itoa board ++ codes ":pon:list"))

-- the value of an entry that is not past its deadline
abbrev pub live : ℕ → Option Entry → Option Text
live now none = none
live now (some e) = elim e.deadline [
  | none ↦ some e.value
  | some d ↦ if ltb now d then some e.value else none
]

-- `client.Get(ctx, key).Bytes()`; `none` is the error `redis.Nil`.
unfoldable pub get : ℕ → Text → RedisCache → Option Text
get now key c = live now (lookup key c)

-- `client.Set(ctx, key, data, ttl)`; a `ttl` of 0 is none.
unfoldable pub set : ℕ → Text → Text → ℕ → RedisCache → RedisCache
set now key data' ttl c =
    insert key (record { value = data'; deadline = if ttl == 0 then none else some (now + ttl) }) c

-- the default for a lifetime that is not positive
abbrev pub or_ttl : ℕ → ℤ → ℕ
or_ttl default ttl = if ltb_ℤ (pos 0) ttl then pos_part ttl else default

module _ (now : ℕ) where
  unfoldable pub get_olt_info : Text → RedisCache → Option Text
  get_olt_info olt_id c = get now (key_olt_info olt_id) c

  unfoldable pub set_olt_info : Text → Text → RedisCache → RedisCache
  set_olt_info olt_id data' c = set now (key_olt_info olt_id) data' ttl_olt_info c

  unfoldable pub get_onu_list : Text → ℤ → ℤ → RedisCache → Option Text
  get_onu_list olt_id board pon c = get now (key_onu_list olt_id board pon) c

  unfoldable pub set_onu_list : Text → ℤ → ℤ → Text → RedisCache → RedisCache
  set_onu_list olt_id board pon data' c =
      set now (key_onu_list olt_id board pon) data' ttl_onu_list c

  unfoldable pub set_onu_list_with_ttl : Text → ℤ → ℤ → Text → ℤ → RedisCache → RedisCache
  set_onu_list_with_ttl olt_id board pon data' ttl c =
      set now (key_onu_list olt_id board pon) data' (or_ttl ttl_onu_list ttl) c

  unfoldable pub get_onu_names : Text → ℤ → ℤ → RedisCache → Option Text
  get_onu_names olt_id board pon c = get now (key_onu_names olt_id board pon) c

  unfoldable pub set_onu_names : Text → ℤ → ℤ → Text → RedisCache → RedisCache
  set_onu_names olt_id board pon data' c =
      set now (key_onu_names olt_id board pon) data' ttl_onu_names c

  unfoldable pub get_onu_detail : Text → ℤ → ℤ → ℤ → RedisCache → Option Text
  get_onu_detail olt_id board pon onu_id c = get now (key_onu_detail olt_id board pon onu_id) c

  unfoldable pub set_onu_detail : Text → ℤ → ℤ → ℤ → Text → RedisCache → RedisCache
  set_onu_detail olt_id board pon onu_id data' c =
      set now (key_onu_detail olt_id board pon onu_id) data' ttl_onu_detail c

  unfoldable pub set_onu_detail_with_ttl : Text → ℤ → ℤ → ℤ → Text → ℤ → RedisCache → RedisCache
  set_onu_detail_with_ttl olt_id board pon onu_id data' ttl c =
      set now (key_onu_detail olt_id board pon onu_id) data' (or_ttl ttl_onu_detail ttl) c

  unfoldable pub get_pon_list : Text → ℤ → RedisCache → Option Text
  get_pon_list olt_id board c = get now (key_pon_list olt_id board) c

  unfoldable pub set_pon_list : Text → ℤ → Text → RedisCache → RedisCache
  set_pon_list olt_id board data' c = set now (key_pon_list olt_id board) data' ttl_pon_list c

  unfoldable pub set_pon_list_with_ttl : Text → ℤ → Text → ℤ → RedisCache → RedisCache
  set_pon_list_with_ttl olt_id board data' ttl c =
      set now (key_pon_list olt_id board) data' (or_ttl ttl_pon_list ttl) c

  unfoldable pub get_global_index : RedisCache → Option Text
  get_global_index c = get now (codes "search:index") c

  unfoldable pub set_global_index : Text → RedisCache → RedisCache
  set_global_index data' c = set now (codes "search:index") data' 0 c

  unfoldable pub get_health : Text → RedisCache → Option Text
  get_health olt_id c = get now (key_olt_health olt_id) c

  unfoldable pub set_health : Text → Text → RedisCache → RedisCache
  set_health olt_id data' c = set now (key_olt_health olt_id) data' ttl_health c

-- `InvalidateONUList` and `InvalidateONUDetail`
unfoldable pub invalidate_onu_list : Text → ℤ → ℤ → RedisCache → RedisCache
invalidate_onu_list olt_id board pon c = remove (key_onu_list olt_id board pon) c

unfoldable pub invalidate_onu_detail : Text → ℤ → ℤ → ℤ → RedisCache → RedisCache
invalidate_onu_detail olt_id board pon onu_id c = remove (key_onu_detail olt_id board pon onu_id) c

-- Whether Redis counts a key among those of a pattern, as in `SCAN ... MATCH`.
abbrev pub Glob : Type 0
Glob = Text → Text → Bool

-- The bytes that have a meaning of their own in a pattern.
abbrev pub is_plain : ℕ → Bool
is_plain c = not (c == b'*' || c == b'?' || c == b'[' || c == b'\\')

-- What Redis documents of a pattern that ends in its only special byte, a star.
abbrev pub GlobLaw : Glob → Type 0
GlobLaw glob =
    (prefix key : Text)
    → all is_plain prefix ≡ true
    → glob (prefix ++ b'*' ∷ []) key ≡ has_prefix key prefix

-- `deleteByPattern`, without the cursor: the rounds of `SCAN` meet every key that is there from the
-- first to the last, and each `DEL` succeeds. A round that fails is not modelled.
unfoldable pub delete_by_pattern : Glob → Text → RedisCache → RedisCache
delete_by_pattern glob pattern' c = select (λ entry. not (glob pattern' entry.0)) c

-- `InvalidateOLT`
unfoldable pub invalidate_olt : Glob → Text → RedisCache → RedisCache
unfolding delete_by_pattern
invalidate_olt glob olt_id c = delete_by_pattern glob (olt_prefix olt_id ++ codes "*") c
