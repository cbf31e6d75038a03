-- ===== src/Config/Env.antt =====
-- internal/config/olt_runtime.go: secrets from the environment.
use zzte.Strings.Lower.{to_upper-trim_space-to_lower}
use zzte.Strings.{
  trim_space, trim, to_lower, to_upper, is_lower, is_upper, is_digit, is_empty, upper,
}
use zzte.Strings.Trim.{NoHead, NoLast, trim-NoHead, trim-NoLast, All-trim}
use zzte.Prelude.{
  All, Bool, Text, [], arith, codes, if◌then◌else◌, int_eq, map, nat_eq, refl, text_eq, true, ℕ,
  ◌++◌, ◌==◌, ◌||◌, ◌∷◌, ◌≡◌, ◌≢◌,
}

-- one rune of the loop of `normalizeOLTEnvSegment`
unfoldable pub env_char : ℕ → ℕ
unfolding is_lower is_upper is_digit
env_char c = if is_lower c || is_upper c || is_digit c then c else b'_'

abbrev is_underscore : ℕ → Bool
is_underscore c = c == b'_'

-- `normalizeOLTEnvSegment`
unfoldable pub normalize_olt_env_segment : Text → Text
normalize_olt_env_segment id =
    let normalized = trim is_underscore (map env_char (to_upper (trim_space id))) in
    if is_empty normalized then codes "DEFAULT" else normalized

-- The bytes of a name of an environment variable.
unfoldable pub is_env_char : ℕ → Bool
unfolding is_upper is_digit
is_env_char c = is_upper c || is_digit c || c == b'_'

abbrev pub IsEnvName : Text → Type 0
IsEnvName = All (λ c. is_env_char c ≡ true)

env_char-upper : (c : ℕ) → is_env_char (env_char (upper c)) ≡ true
unfolding is_env_char env_char upper
env_char-upper c = ground arith

map-env_char-IsEnvName : (s : Text) → IsEnvName (map env_char (to_upper s))
unfolding to_upper
map-env_char-IsEnvName [] = tt
map-env_char-IsEnvName (c ∷ s) = (env_char-upper c, map-env_char-IsEnvName s)

-- A part of the name of an environment variable: not empty, of upper case letters, digits and
-- underscores alone, with no underscore at either end.
abbrev pub IsSegment : Text → Type 0
IsSegment s = (s ≢ []) × IsEnvName s × NoHead is_underscore s × NoLast is_underscore s

IsSegment-or_default :
    (s : Text)
    → IsEnvName s
    → NoHead is_underscore s
    → NoLast is_underscore s
    → IsSegment (if is_empty s then codes "DEFAULT" else s)
unfolding is_env_char
IsSegment-or_default [] h k l = (cc, ground arith, refl, refl)
IsSegment-or_default (c ∷ s) h k l = (cc, h, k, l)

-- Whatever the identifier of an OLT, its segment is a proper part of the name of a variable: not
-- empty, of upper case letters, digits and underscores, with no underscore at either end.
pub normalize_olt_env_segment-IsSegment : (id : Text) → IsSegment (normalize_olt_env_segment id)
unfolding normalize_olt_env_segment
normalize_olt_env_segment-IsSegment id =
    let s = map env_char (to_upper (trim_space id)) in
    IsSegment-or_default (trim is_underscore s)
      (All-trim is_underscore _ s (map-env_char-IsEnvName (trim_space id)))
      (trim-NoHead is_underscore s) (trim-NoLast is_underscore s)

-- `readOLTEnv`; `getenv` is `os.Getenv`.
unfoldable pub read_olt_env : (Text → Text) → Text → Text → Text
read_olt_env getenv id suffix =
    trim_space (getenv (codes "OLT_" ++ (normalize_olt_env_segment id ++ b'_' ∷ suffix)))

-- An identifier and the same one in lower case have the same variables.
pub read_olt_env-to_lower :
    (getenv : Text → Text) (id suffix : Text)
    → read_olt_env getenv (to_lower id) suffix ≡ read_olt_env getenv id suffix
unfolding read_olt_env normalize_olt_env_segment
read_olt_env-to_lower getenv id suffix = rw (to_upper-trim_space-to_lower id) refl
