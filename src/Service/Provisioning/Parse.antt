-- ===== src/Service/Provisioning/Parse.antt =====
-- The regular expressions of internal/service/provisioning_service.go. After a run of digits each
-- of them has a byte that is no digit, so a shorter run never matches and the greedy run is the only
-- one to try.
use zzte.Strings.{
  strip_prefix, is_digit, is_lower, is_upper, has_prefix, contains, split, trim_space, is_empty,
}
use zzte.Strings.Decimal.{atoi}
use zzte.Domain.{UnconfiguredOnu}
use zzte.Prelude.{
  Bool, List, Option, Text, [], codes, if◌then◌else◌, int_eq, nat_eq, none, not, some, text_eq, ℕ,
  ◌==◌, ◌||◌, ◌∷◌,
}

module _ {A B : Type 0} where
  infixl 5 ◌>>=◌
  -- a match that goes on where the last part ended
  abbrev pub ◌>>=◌ : Option A → (A → Option B) → Option B
  none >>= rest = none
  some found >>= rest = rest found

-- The longest run of bytes at the front that pass a test, and what follows.
unfoldable pub span : (ℕ → Bool) → Text → Text × Text
span p [] = ([], [])
span p (c ∷ s) = let (run, rest) = span p s in if p c then (c ∷ run, rest) else ([], c ∷ s)

-- One byte or more that pass a test, as `\d+`.
unfoldable pub span_some : (ℕ → Bool) → Text → Option (Text × Text)
unfolding span
span_some p s = let (run, rest) = span p s in if is_empty run then none else some (run, rest)

-- The white space of `\s`
abbrev pub is_regex_space : ℕ → Bool
is_regex_space c = c == 9 || c == 10 || c == 12 || c == 13 || c == 32

-- `[A-Za-z0-9]`
unfoldable pub is_alnum : ℕ → Bool
unfolding is_lower is_upper is_digit
is_alnum c = is_lower c || is_upper c || is_digit c

-- `gpon-onu_\d+/(\d+)/(\d+):(\d+)` at the front, with its three groups and what follows
unfoldable pub match_onu : Text → Option (Text × Text × Text × Text)
match_onu s = do
  s₁ ← strip_prefix (codes "gpon-onu_") s
  (shelf, s₂) ← span_some is_digit s₁
  s₃ ← strip_prefix (codes "/") s₂
  (board, s₄) ← span_some is_digit s₃
  s₅ ← strip_prefix (codes "/") s₄
  (pon, s₆) ← span_some is_digit s₅
  s₇ ← strip_prefix (codes ":") s₆
  (onu_id, s₈) ← span_some is_digit s₇
  some (board, pon, onu_id, s₈)

-- `\s+([A-Za-z0-9]+)` at the front
unfoldable pub match_table_tail : Text → Option Text
match_table_tail s = do
  (space, s₁) ← span_some is_regex_space s
  (sn, s₂) ← span_some is_alnum s₁
  some sn

-- the first `SN:([A-Za-z0-9]+)` of a text
unfoldable pub find_sn : Text → Option Text
find_sn [] = none
find_sn (c ∷ s) =
    let later = find_sn s in
    elim (strip_prefix (codes "SN:") (c ∷ s)) [
      | none ↦ later
      | some rest ↦ elim (span_some is_alnum rest) [ none ↦ later | some (sn, _) ↦ some sn ]
    ]

-- `\s+.*?SN:([A-Za-z0-9]+)` at the front, in one line
unfoldable pub match_key_tail : Text → Option Text
match_key_tail s = do (space, s₁) ← span_some is_regex_space s; find_sn s₁

-- Four groups: a board, a PON, an ONU and a serial number.
abbrev pub Groups : Type 0
Groups = Text × Text × Text × Text

-- `FindStringSubmatch`: the first place where the two halves match
unfoldable pub find_onu : (Text → Option Text) → Text → Option Groups
find_onu tail [] = none
find_onu tail (c ∷ s) =
    let later = find_onu tail s in
    elim (match_onu (c ∷ s)) [
      | none ↦ later
      | some (board, pon, onu_id, rest) ↦ elim (tail rest) [
        | none ↦ later
        | some sn ↦ some (board, pon, onu_id, sn)
      ]
    ]

-- `parseUnconfiguredMatch`
unfoldable pub parse_unconfigured_match : Option Groups → Option UnconfiguredOnu
parse_unconfigured_match none = none
parse_unconfigured_match (some (board_text, pon_text, onu_text, sn)) = do
  board ← atoi board_text
  pon ← atoi pon_text
  onu_id ← atoi onu_text
  some (record {
    board = board;
    pon = pon;
    onu_id = onu_id;
    sn = sn;
    type = codes "ZTE";
    state = codes "Unconfigured";
  })

-- `parseUnconfiguredLine`
unfoldable pub parse_unconfigured_line : Text → Option UnconfiguredOnu
parse_unconfigured_line line =
    if not (has_prefix line (codes "gpon-onu_"))
    then none
    else if contains line (codes "SN:")
    then parse_unconfigured_match (find_onu match_key_tail line)
    else elim (find_onu match_table_tail line) [
      | none ↦ parse_unconfigured_match (find_onu match_key_tail line)
      | some groups ↦ parse_unconfigured_match (some groups)
    ]

abbrev add_onu : Option UnconfiguredOnu → List UnconfiguredOnu → List UnconfiguredOnu
add_onu none onus = onus
add_onu (some onu) onus = onu ∷ onus

unfoldable pub parse_lines : List Text → List UnconfiguredOnu
parse_lines [] = []
parse_lines (line ∷ lines) = add_onu (parse_unconfigured_line (trim_space line)) (parse_lines lines)

-- `parseUnconfiguredOutput`
unfoldable pub parse_unconfigured_output : Text → List UnconfiguredOnu
parse_unconfigured_output raw = parse_lines (split 10 raw)
