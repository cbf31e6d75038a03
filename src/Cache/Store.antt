-- ===== src/Cache/Store.antt =====
-- What is read after a write, and after an invalidation.
use zzte.Strings.{has_prefix, strip_prefix}
use zzte.Strings.Prefix.{has_prefix-append, strip_prefix_sound}
use zzte.Strings.Split.{Lacks}
use zzte.Strings.Decimal.{itoa}
use zzte.Cache.{
  Entry, RedisCache, Glob, GlobLaw, is_plain, live, get, set, or_ttl, ttl_onu_list, olt_prefix,
  key_onu_list, key_onu_names, key_onu_detail, key_pon_list, key_olt_info, key_olt_health,
  get_onu_list, set_onu_list_with_ttl, set_onu_names, invalidate_olt,
}
use zzte.Cache.Keys.{key_onu_list_injective, append-cancel, part-cancel}
use zzte.Prelude.{
  =ᵗ_iff, Bool, Bool-cases, Option-cases, Text, [], all, ap, append_assoc, arith, codes,
  if◌then◌else◌, inl, inr, int_eq, lookup, lookup-insert_ne, lookup-insert_self, ltb, nat_eq, none,
  not, pos, refl, select, some, sym, text_eq, true, ℕ, ℤ, ◌++◌, ◌+◌, ◌<◌, ◌==◌, ◌=ᵗ◌, ◌^◌, ◌∙◌, ◌∷◌,
  ◌≡◌, ◌≢◌, ◌⊎◌,
}

live-set :
    (now later : ℕ) (data' : Text) (ttl : ℕ)
    → 0 < ttl
    → live later
        (some (record { value = data'; deadline = if ttl == 0 then none else some (now + ttl) }))
      ≡ (if ltb later (now + ttl) then some data' else none)
live-set now later data' ttl h = ground arith

-- An ONU list is read back until its lifetime is over, which is one minute where none is given,
-- and from then on not; the lists of other ports of the OLT are read as before, for board and PON
-- numbers below 2 ^ 63.
pub get_onu_list-set :
    (now later : ℕ) (olt_id data' : Text) (board pon board' pon' : ℕ) (ttl : ℤ) (c : RedisCache)
    → board < 2 ^ 63
    → pon < 2 ^ 63
    → board' < 2 ^ 63
    → pon' < 2 ^ 63
    → ((board ≡ board') × (pon ≡ pon') → ⊥)
    → let c' = set_onu_list_with_ttl now olt_id (pos board) (pos pon) data' ttl c in
      (get_onu_list later olt_id (pos board) (pos pon) c'
        ≡ (if ltb later (now + or_ttl ttl_onu_list ttl) then some data' else none))
      × (get_onu_list later olt_id (pos board') (pos pon') c'
          ≡ get_onu_list later olt_id (pos board') (pos pon') c)
unfolding get_onu_list set_onu_list_with_ttl get set
get_onu_list-set now later olt_id data' board pon board' pon' ttl c h k h' k' other =
    let key = key_onu_list olt_id (pos board) (pos pon) in
    let entry : Entry = record {
      value = data';
      deadline =
          if or_ttl ttl_onu_list ttl == 0 then none else some (now + or_ttl ttl_onu_list ttl);
    } in
    (
      ap (live later) (lookup-insert_self key entry c)
          ∙ live-set now later data' (or_ttl ttl_onu_list ttl) (ground arith),
      ap (live later) (
          lookup-insert_ne key (key_onu_list olt_id (pos board') (pos pon')) entry c
            (λ same. other (key_onu_list_injective olt_id board pon board' pon' h k h' k' same))),
    )

-- A list is read back while its lifetime lasts.
pub get_onu_list-set_self :
    (now later : ℕ) (olt_id data' : Text) (board pon : ℤ) (ttl : ℤ) (c : RedisCache)
    → 0 < or_ttl ttl_onu_list ttl
    → later < now + or_ttl ttl_onu_list ttl
    → get_onu_list later olt_id board pon (set_onu_list_with_ttl now olt_id board pon data' ttl c)
      ≡ some data'
unfolding get_onu_list set_onu_list_with_ttl get set
get_onu_list-set_self now later olt_id data' board pon ttl c h k =
    let key = key_onu_list olt_id board pon in
    let entry : Entry = record {
      value = data';
      deadline =
          if or_ttl ttl_onu_list ttl == 0 then none else some (now + or_ttl ttl_onu_list ttl);
    } in
    ap (live later) (lookup-insert_self key entry c)
    ∙ live-set now later data' (or_ttl ttl_onu_list ttl) h
    ∙ ground (arith, k)

names-ne-list :
    (olt_id : Text) (board pon : ℤ) → key_onu_names olt_id board pon ≢ key_onu_list olt_id board pon
unfolding key_onu_list key_onu_names
names-ne-list olt_id board pon h =
    let tail : Text → Text =
      λ t. codes "board:" ++ (itoa board ++ (codes ":pon:" ++ (itoa pon ++ t))) in
    let a = append-cancel (olt_prefix olt_id) (tail (codes ":names")) (tail (codes ":list")) h in
    let b = append-cancel (codes "board:") _ _ a in
    let c = append-cancel (itoa board) _ _ b in
    let d = append-cancel (codes ":pon:") _ _ c in
    let e = append-cancel (itoa pon) (codes ":names") (codes ":list") d in cc

-- The names of a port do not touch its list.
pub get_onu_list-set_onu_names :
    (now later : ℕ) (olt_id data' : Text) (board pon : ℤ) (c : RedisCache)
    → get_onu_list later olt_id board pon (set_onu_names now olt_id board pon data' c)
      ≡ get_onu_list later olt_id board pon c
unfolding get_onu_list set_onu_names get set
get_onu_list-set_onu_names now later olt_id data' board pon c = ap (live later) (
    lookup-insert_ne (key_onu_names olt_id board pon) (key_onu_list olt_id board pon) _ c
      (names-ne-list olt_id board pon))

-- Reading after the keys that pass a test are deleted.
lookup-select :
    (p : Text → Bool) (key : Text) (c : RedisCache)
    → lookup key (select (λ entry. not (p entry.0)) c) ≡ (if p key then none else lookup key c)
unfolding lookup
lookup-select p key [] = ground arith
lookup-select p key ((k, e) ∷ c) = ground (arith, lookup-select p key c, =ᵗ_iff k key)

all-append : (p : ℕ → Bool) (s t : Text) → all p s ≡ true → all p t ≡ true → all p (s ++ t) ≡ true
all-append p [] t h k = k
all-append p (c ∷ s) t h k = ground (arith, h, all-append p s t, k)

glob-olt :
    (glob : Glob) (law : GlobLaw glob) (olt_id key : Text)
    → all is_plain olt_id ≡ true
    → glob (olt_prefix olt_id ++ codes "*") key ≡ has_prefix key (olt_prefix olt_id)
unfolding olt_prefix
glob-olt glob law olt_id key h = law (olt_prefix olt_id) key (
    all-append is_plain (codes "olt:") (olt_id ++ codes ":") refl
      (all-append is_plain olt_id (codes ":") h refl))

-- After an OLT with a plain identifier is invalidated, exactly the keys with its prefix are gone.
get-invalidate_olt :
    (glob : Glob) (law : GlobLaw glob) (now : ℕ) (olt_id key : Text) (c : RedisCache)
    → all is_plain olt_id ≡ true
    → get now key (invalidate_olt glob olt_id c)
      ≡ (if has_prefix key (olt_prefix olt_id) then none else get now key c)
unfolding get invalidate_olt
get-invalidate_olt glob law now olt_id key c h = ground (
  arith,
  lookup-select (λ k. glob (olt_prefix olt_id ++ codes "*") k) key c,
  glob-olt glob law olt_id key h,
)

-- The keys that the program makes for an OLT.
abbrev pub IsKeyOf : Text → Text → Type 0
IsKeyOf olt_id key =
    (key ≡ key_olt_info olt_id)
    ⊎ (key ≡ key_olt_health olt_id)
    ⊎ ((board : ℤ) × (key ≡ key_pon_list olt_id board))
    ⊎ ((board : ℤ) × (pon : ℤ) × (key ≡ key_onu_list olt_id board pon))
    ⊎ ((board : ℤ) × (pon : ℤ) × (key ≡ key_onu_names olt_id board pon))
    ⊎ ((board : ℤ) × (pon : ℤ) × (onu_id : ℤ) × (key ≡ key_onu_detail olt_id board pon onu_id))

own_prefix : (olt_id key : Text) → IsKeyOf olt_id key → (s : Text) × (key ≡ olt_prefix olt_id ++ s)
unfolding key_olt_info key_olt_health key_pon_list key_onu_list key_onu_names key_onu_detail
own_prefix olt_id key (inl e) = (codes "info", e)
own_prefix olt_id key (inr (inl e)) = (codes "health", e)
own_prefix olt_id key (inr (inr (inl (board, e)))) = (_, e)
own_prefix olt_id key (inr (inr (inr (inl (board, pon, e))))) = (_, e)
own_prefix olt_id key (inr (inr (inr (inr (inl (board, pon, e)))))) = (_, e)
own_prefix olt_id key (inr (inr (inr (inr (inr (board, pon, onu_id, e)))))) = (_, e)

same_prefix :
    (olt_id other s r : Text)
    → Lacks b':' olt_id
    → Lacks b':' other
    → olt_prefix other ++ s ≡ olt_prefix olt_id ++ r
    → other ≡ olt_id
unfolding olt_prefix
same_prefix olt_id other s r h k e =
    (part-cancel b':' other olt_id s r k h (
      sym (append_assoc other (codes ":") s)
      ∙ append-cancel (codes "olt:") ((other ++ codes ":") ++ s) ((olt_id ++ codes ":") ++ r) e
      ∙ append_assoc olt_id (codes ":") r)).0

has_prefix-other :
    (olt_id other s : Text)
    → Lacks b':' olt_id
    → Lacks b':' other
    → has_prefix (olt_prefix other ++ s) (olt_prefix olt_id) ≡ (other =ᵗ olt_id)
unfolding has_prefix
has_prefix-other olt_id other s h k = elim (Bool-cases (other =ᵗ olt_id)) [
  | inl e ↦
      let same : other ≡ olt_id = (=ᵗ_iff other olt_id).0 e in
      rw (e, same) (has_prefix-append (olt_prefix olt_id) s)
  | inr e ↦ elim (Option-cases (strip_prefix (olt_prefix olt_id) (olt_prefix other ++ s))) [
    | inl none' ↦ rw (e, none', has_prefix) refl
    | inr (r, found) ↦
        let shape = strip_prefix_sound (olt_prefix olt_id) (olt_prefix other ++ s) r found in
        let same = same_prefix olt_id other s r h k shape in
        ground (arith, e, same, =ᵗ_iff other olt_id)
  ]
]

-- Invalidating an OLT, in a Redis that matches patterns as documented, makes every key of the OLT
-- unreadable and leaves the keys of the other OLTs as they are, for identifiers without a colon of
-- which the invalidated one has none of the special bytes of patterns.
pub invalidate_olt-IsKeyOf :
    (glob : Glob) (law : GlobLaw glob) (now : ℕ) (olt_id other key : Text) (c : RedisCache)
    → all is_plain olt_id ≡ true
    → Lacks b':' olt_id
    → Lacks b':' other
    → IsKeyOf other key
    → get now key (invalidate_olt glob olt_id c) ≡ (if other =ᵗ olt_id then none else get now key c)
invalidate_olt-IsKeyOf glob law now olt_id other key c plain h k own =
    let (s, e) = own_prefix other key own in
    get-invalidate_olt glob law now olt_id key c plain
    ∙ ap (λ b. if b then none else get now key c)
        (ap (λ t. has_prefix t (olt_prefix olt_id)) e ∙ has_prefix-other olt_id other s h k)
