-- ===== src/Handler/Search.antt =====
-- internal/handler/search_handler.go. The index in Redis is read by a decoder that is a parameter;
-- `none` in its place is Redis switched off, and a decoder's `none` is a JSON error.
pub mod Results
use zzte.Strings.{to_lower, contains, is_empty}
use zzte.Domain.{SearchItem}
use zzte.Cache.{RedisCache, get_global_index}
use zzte.Handler.Response.{Response, success, bad_request, internal_error, message_response}
use zzte.Prelude.{
  Bool, List, Option, Text, [], arith, codes, if◌then◌else◌, int_eq, leb, length, ltb, nat_eq, none,
  some, text_eq, ℕ, ◌++◌, ◌+◌, ◌||◌, ◌∷◌,
}

abbrev pub search_limit : ℕ
search_limit = 50

-- the three tests of the loop of `Search`
unfoldable pub is_match : Text → SearchItem → Bool
is_match query item =
    contains (to_lower item.name) query
    || contains (to_lower item.serial_number) query
    || contains (to_lower item.olt_id) query

-- the loop of `Search`, which breaks at the limit
unfoldable pub search_loop : Text → List SearchItem → ℕ → List SearchItem → List SearchItem
search_loop query [] count results = results
search_loop query (item ∷ items) count results =
    let next = search_loop query items (count + 1) (results ++ item ∷ []) in
    let same = search_loop query items count results in
    if is_match query item
    then if leb search_limit (count + 1) then results ++ item ∷ [] else next
    else same

abbrev pub Decoder : Type 0
Decoder = Text → Option (List SearchItem)

-- `Search`
unfoldable pub search : Decoder → ℕ → Option RedisCache → Text → Response (List SearchItem)
search decode now cache q =
    let query = to_lower q in
    if is_empty query || ltb (length query) 2
    then bad_request "Query must be at least 2 characters"
    else elim cache [
      | none ↦ internal_error "Search is unavailable (Cache disabled)"
      | some c ↦ elim (get_global_index now c) [
        | none ↦ success []
        | some data' ↦ elim (decode data') [
          | none ↦ internal_error "Index corruption detected"
          | some items ↦ success (search_loop query items 0 [])
        ]
      ]
    ]

pub record Stats : Type 0 where
  pub total : ℕ
  pub online : ℕ
  pub offline : ℕ
  pub los : ℕ

abbrev pub no_stats : Stats
no_stats = record { total = 0; online = 0; offline = 0; los = 0 }

-- one round of the loop of `GetStats`
unfoldable pub count_item : SearchItem → Stats → Stats
count_item item s =
    let status = to_lower item.status in
    if contains status (codes "online")
    then record s { online = s.online + 1 }
    else if contains status (codes "los")
    then record s { los = s.los + 1 }
    else record s { offline = s.offline + 1 }

unfoldable pub stats_loop : List SearchItem → Stats → Stats
stats_loop [] s = s
stats_loop (item ∷ items) s = stats_loop items (count_item item s)

-- `GetStats`
unfoldable pub get_stats : Decoder → ℕ → Option RedisCache → Response Stats
get_stats decode now none = internal_error "Search is unavailable (Cache disabled)"
get_stats decode now (some c) = elim (get_global_index now c) [
  | none ↦ success no_stats
  | some data' ↦ elim (decode data') [
    | none ↦ internal_error "Index corruption detected"
    | some items ↦ success (record (stats_loop items no_stats) { total = length items })
  ]
]
