-- ===== src/Handler/Search/Results.antt =====
-- What a search and the statistics return.
use zzte.Strings.{to_lower, is_empty}
use zzte.Domain.{SearchItem}
use zzte.Cache.{RedisCache, get_global_index}
use zzte.Handler.Response.{success}
use zzte.Handler.Search.{
  search_limit, is_match, search_loop, Decoder, search, Stats, no_stats, count_item, stats_loop,
  get_stats,
}
use zzte.Prelude.{
  Bool-cases, List, Text, [], ap, append-nil, append_assoc, arith, false, if◌then◌else◌, inl, inr,
  int_eq, leb, length, ltb, nat_eq, refl, select, some, suc, sym, take, text_eq, true, zero, ℕ,
  ◌++◌, ◌+◌, ◌<◌, ◌||◌, ◌∙◌, ◌∷◌, ◌≡◌,
}

-- One round of the loop, for any loop that does this on the items that follow.
search_loop_cons :
    (query : Text) (item : SearchItem) (items : List SearchItem) (count : ℕ)
    (results : List SearchItem) (loop : ℕ → List SearchItem → List SearchItem)
    → ((n room : ℕ) (more : List SearchItem)
        → n + suc room ≡ search_limit
        → loop n more ≡ more ++ take (suc room) (select (is_match query) items))
    → (room : ℕ) → count + suc room ≡ search_limit
    → (if is_match query item
        then if leb search_limit (count + 1)
          then results ++ item ∷ []
          else loop (count + 1) (results ++ item ∷ [])
        else loop count results)
      ≡ results ++ take (suc room) (select (is_match query) (item ∷ items))
search_loop_cons query item items count results loop ih room h =
    elim (Bool-cases (is_match query item)) [
      | inl e ↦ matched room h e
      | inr e ↦ rw e (ih count room results h)
    ]
  where
    matched :
        (room : ℕ)
        → count + suc room ≡ search_limit
        → is_match query item ≡ true
        → (if is_match query item
            then if leb search_limit (count + 1)
              then results ++ item ∷ []
              else loop (count + 1) (results ++ item ∷ [])
            else loop count results)
          ≡ results ++ take (suc room) (select (is_match query) (item ∷ items))
    matched zero h e =
        let full : leb search_limit (count + 1) ≡ true = ground (arith, h) in rw (e, full) refl
    matched (suc room) h e =
        let not_full : leb search_limit (count + 1) ≡ false = ground (arith, h) in
        rw (e, not_full)
          (ih (count + 1) room (results ++ item ∷ []) (omega (arith, h))
            ∙ append_assoc results (item ∷ []) (take (suc room) (select (is_match query) items)))

-- With room for more, the loop adds the matches that follow, until there is none.
search_loop-take :
    (query : Text) (items : List SearchItem) (count room : ℕ) (results : List SearchItem)
    → count + suc room ≡ search_limit
    → search_loop query items count results
      ≡ results ++ take (suc room) (select (is_match query) items)
unfolding search_loop
search_loop-take query [] count room results h = sym (append-nil results)
search_loop-take query (item ∷ items) count room results h =
    search_loop_cons query item items count results (search_loop query items)
      (λ n r more g. search_loop-take query items n r more g) room h

long_enough : (query : Text) → 1 < length query → (is_empty query || ltb (length query) 2) ≡ false
long_enough [] h = absurd (omega arith)
long_enough (c ∷ query) h = ground arith

-- A search over an index that can be read returns the first fifty of the items that match, in the
-- order of the index, and all of them if there are fewer.
pub search-eq-take :
    (decode : Decoder) (now : ℕ) (c : RedisCache) (q data' : Text) (items : List SearchItem)
    → 1 < length (to_lower q)
    → get_global_index now c ≡ some data'
    → decode data' ≡ some items
    → search decode now (some c) q
      ≡ success (take search_limit (select (is_match (to_lower q)) items))
unfolding search
search-eq-take decode now c q data' items h e d =
    let long : (is_empty (to_lower q) || ltb (length (to_lower q)) 2) ≡ false =
      long_enough (to_lower q) h in
    rw (long, e, d, search) (ap success (search_loop-take (to_lower q) items 0 49 [] refl))

count_item-sum :
    (item : SearchItem) (s : Stats)
    → (count_item item s).online + (count_item item s).offline + (count_item item s).los
      ≡ 1 + (s.online + s.offline + s.los)
unfolding count_item
count_item-sum item s = ground arith

stats_loop-sum :
    (items : List SearchItem) (s : Stats)
    → (stats_loop items s).online + (stats_loop items s).offline + (stats_loop items s).los
      ≡ length items + (s.online + s.offline + s.los)
unfolding stats_loop
stats_loop-sum [] s = omega arith
stats_loop-sum (item ∷ items) s =
    omega (arith, stats_loop-sum items (count_item item s), count_item-sum item s)

-- The statistics of an index that can be read count every item once: those online, offline and
-- without signal make up the total, which is the number of items.
pub get_stats-total :
    (decode : Decoder) (now : ℕ) (c : RedisCache) (data' : Text) (items : List SearchItem)
    → get_global_index now c ≡ some data'
    → decode data' ≡ some items
    → (stats : Stats) × (get_stats decode now (some c) ≡ success stats)
      × (stats.total ≡ length items)
      × (stats.online + stats.offline + stats.los ≡ stats.total)
unfolding get_stats
get_stats-total decode now c data' items e d = (
  record (stats_loop items no_stats) { total = length items },
  rw (e, d, get_stats) refl,
  refl,
  omega (arith, stats_loop-sum items no_stats),
)
