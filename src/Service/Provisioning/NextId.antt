-- ===== src/Service/Provisioning/NextId.antt =====
-- `FindNextOnuID` of internal/service/provisioning_service.go, on the output of the device.
use zzte.Strings.{strip_prefix, is_digit}
use zzte.Strings.Decimal.{itoa, atoi}
use zzte.Snmp.Parsers.{wrap}
use zzte.Service.Provisioning.Parse.{span_some, ◌>>=◌}
use zzte.Prelude.{
  All, Bool-cases, Option-cases, refl, sym, List, Option, Text, [], ap, arith, codes, if◌then◌else◌,
  inl, inr, int_eq, length, ltb_ℤ, nat_eq, none, pos, pos_part, some, suc, text_eq, zero, ℕ, ℤ,
  ◌++◌, ◌+ℤ◌, ◌+◌, ◌-◌, ◌<◌, ◌^◌, ◌∙◌, ◌∷◌, ◌≡◌, ◌≤ℤ◌, ◌≤◌, ◌⊎◌,
}

-- `gpon-onu_\d+/<board>/<pon>:(\d+)` at the front, and what follows
unfoldable pub match_id : ℤ → ℤ → Text → Option (Text × Text)
match_id board pon s = do
  s₁ ← strip_prefix (codes "gpon-onu_") s
  (shelf, s₂) ← span_some is_digit s₁
  s₃ ← strip_prefix (codes "/" ++ (itoa board ++ (codes "/" ++ (itoa pon ++ codes ":")))) s₂
  span_some is_digit s₃

-- `FindAllStringSubmatch`: after a match the search goes on behind it. The fuel is the length.
unfoldable pub find_ids : ℤ → ℤ → ℕ → Text → List Text
find_ids board pon zero s = []
find_ids board pon (suc fuel) [] = []
find_ids board pon (suc fuel) (c ∷ s) = elim (match_id board pon (c ∷ s)) [
  | none ↦ find_ids board pon fuel s
  | some (id, rest) ↦ id ∷ find_ids board pon fuel rest
]

-- one round of the loop for the highest number; a number out of range is passed over
unfoldable pub max_id : ℤ → Text → ℤ
max_id highest text = elim (atoi text) [
  | none ↦ highest
  | some id ↦ if ltb_ℤ highest id then id else highest
]

unfoldable pub max_ids : List Text → ℤ → ℤ
max_ids [] highest = highest
max_ids (text ∷ texts) highest = max_ids texts (max_id highest text)

-- `FindNextOnuID`
unfoldable pub find_next_onu_id : ℤ → ℤ → Text → ℤ
find_next_onu_id board pon output =
    wrap (max_ids (find_ids board pon (length output) output) (pos 0) +ℤ pos 1)

-- A number that the search for the highest has seen.
abbrev pub Among : ℤ → List Text → Type 0
Among id [] = ⊥
Among id (text ∷ texts) = (atoi text ≡ some id) ⊎ Among id texts

max_id-grows : (highest : ℤ) (text : Text) → highest ≤ℤ max_id highest text
unfolding max_id
max_id-grows highest text = ground arith

max_ids-grows : (texts : List Text) (highest : ℤ) → highest ≤ℤ max_ids texts highest
unfolding max_ids
max_ids-grows [] highest = ground arith
max_ids-grows (text ∷ texts) highest =
    ground (arith, max_id-grows highest text, max_ids-grows texts (max_id highest text))

max_id-above : (highest id : ℤ) (text : Text) → atoi text ≡ some id → id ≤ℤ max_id highest text
unfolding max_id
max_id-above highest id text h = ground (arith, h)

max_ids-above : (texts : List Text) (highest id : ℤ) → Among id texts → id ≤ℤ max_ids texts highest
unfolding max_ids
max_ids-above [] highest id h = absurd h
max_ids-above (text ∷ texts) highest id (inl h) =
    ground (arith, max_id-above highest id text h, max_ids-grows texts (max_id highest text))
max_ids-above (text ∷ texts) highest id (inr h) = max_ids-above texts (max_id highest text) id h

wrap_small : (n : ℕ) → n < 2 ^ 63 → wrap (pos n) ≡ pos n
wrap_small n h = ground arith

wrap-suc : (n : ℕ) → n ≤ 2 ^ 63 - 2 → wrap (pos n +ℤ pos 1) ≡ pos (n + 1)
wrap-suc n h =
    let sum : pos n +ℤ pos 1 ≡ pos (n + 1) = ground arith in
    ap wrap sum ∙ wrap_small (n + 1) (omega arith)

above_zero : (i : ℤ) → pos 0 ≤ℤ i → i ≡ pos (pos_part i)
above_zero i h = ground arith

-- The number is above the one that a text has, if it has one.
abbrev pub IsAbove : ℤ → Option ℤ → Type 0
IsAbove next none = Unit
IsAbove next (some id) = id +ℤ pos 1 ≤ℤ next

-- The search starts at a number, and ends there or at one that it has seen.
max_id-seen :
    (highest : ℤ) (text : Text)
    → (max_id highest text ≡ highest) ⊎ (atoi text ≡ some (max_id highest text))
unfolding max_id
max_id-seen highest text = elim (Option-cases (atoi text)) [
  | inl e ↦ inl (rw (e, max_id) refl)
  | inr (id, e) ↦ elim (Bool-cases (ltb_ℤ highest id)) [
    | inl b ↦ inr (rw (e, b, max_id) refl)
    | inr b ↦ inl (rw (e, b, max_id) refl)
  ]
]

max_ids-seen :
    (texts : List Text) (highest : ℤ)
    → (max_ids texts highest ≡ highest) ⊎ Among (max_ids texts highest) texts
unfolding max_ids
max_ids-seen [] highest = inl refl
max_ids-seen (text ∷ texts) highest = elim (max_ids-seen texts (max_id highest text)) [
  | inr k ↦ inr (inr k)
  | inl e ↦ elim (max_id-seen highest text) [
    | inl f ↦ inl (e ∙ f)
    | inr f ↦ inr (inl (f ∙ ap some (sym e)))
  ]
]

-- every number of the texts is at most `n`
All-IsAbove :
    (texts : List Text) (highest : ℤ) (n : ℕ)
    → max_ids texts highest ≤ℤ pos n
    → All (λ text. IsAbove (pos (n + 1)) (atoi text)) texts
unfolding max_ids
All-IsAbove [] highest n h = tt
All-IsAbove (text ∷ texts) highest n h = (
  elim (Option-cases (atoi text)) [
    | inl e ↦ rw e tt
    | inr (id, e) ↦ rw e (
        ground
          (arith, h, max_id-above highest id text e, max_ids-grows texts (max_id highest text)))
  ],
  All-IsAbove texts (max_id highest text) n h,
)

-- The next number is at least 1 and above every number that the device lists for the port, and no
-- greater than that takes: it is 1, or follows a listed number; so it is 1 when none is listed.
-- This holds when no listed number is above 2 ^ 63 - 2.
pub find_next_onu_id-IsAbove :
    (board pon : ℤ) (output : Text)
    → max_ids (find_ids board pon (length output) output) (pos 0) ≤ℤ pos (2 ^ 63 - 2)
    → let texts = find_ids board pon (length output) output in
      let next = find_next_onu_id board pon output in
      (pos 1 ≤ℤ next)
      × All (λ text. IsAbove next (atoi text)) texts
      × ((next ≡ pos 1) ⊎ ((id : ℤ) × Among id texts × (next ≡ id +ℤ pos 1)))
unfolding find_next_onu_id
find_next_onu_id-IsAbove board pon output h =
    let texts = find_ids board pon (length output) output in
    let highest = max_ids texts (pos 0) in
    let n = pos_part highest in
    let e : highest ≡ pos n = above_zero highest (max_ids-grows texts (pos 0)) in
    let next : wrap (highest +ℤ pos 1) ≡ pos (n + 1) =
      ap (λ i. wrap (i +ℤ pos 1)) e ∙ wrap-suc n (ground (arith, e, h)) in
    (
      rw next (ground arith),
      rw next (All-IsAbove texts (pos 0) n (ground (arith, e))),
      elim (max_ids-seen texts (pos 0)) [
        | inl z ↦ inl (ap (λ i. wrap (i +ℤ pos 1)) z ∙ wrap-suc 0 (omega arith))
        | inr k ↦ inr (highest, k, next ∙ ground (arith, e))
      ],
    )
