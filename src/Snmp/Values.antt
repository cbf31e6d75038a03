-- ===== src/Snmp/Values.antt =====
-- The variables that gosnmp returns, and how internal/snmp/client.go (`pduToString`, `pduToInt`)
-- and internal/snmp/parsers.go (`getPDUBytes`, `GetPDUInt`, `GetPDUInt64`) read their values.
use zzte.Strings.Decimal.{itoa}
use zzte.Snmp.IfIndex.{int_of, word}
use zzte.Prelude.{
  Bool, Option, Text, [], codes, false, if◌then◌else◌, int_eq, nat_eq, none, pos, refl, some,
  text_eq, true, ℕ, ℤ, ◌%◌, ◌++◌, ◌=ᵗ◌, ◌∷◌, ◌≡◌,
}

-- `gosnmp.Asn1BER`, the types that the program tells apart.
pub data Asn1 : Type 0 where
  octet_string integer counter32 counter64 gauge32 time_ticks : Asn1
  no_such_object no_such_instance null other_type : Asn1

-- The dynamic Go value of a variable; `other` holds what `%v` prints of it.
pub data Value : Type 0 where
  nil_value : Value
  bytes : Text → Value
  int int64 : ℤ → Value
  uint uint32 uint64 : ℕ → Value
  other : Text → Value

pub record SnmpPdu : Type 0 where
  pub name : Text
  pub asn1 : Asn1
  pub value : Value

abbrev pub is_nil : Value → Bool
is_nil nil_value = true
is_nil _ = false

-- `%v` of a byte slice: its numbers in brackets.
abbrev numbers : Text → Text
numbers [] = codes "]"
numbers (c ∷ []) = itoa (pos c) ++ codes "]"
numbers (c ∷ d ∷ s) = itoa (pos c) ++ b' ' ∷ numbers (d ∷ s)

-- `fmt.Sprintf("%v", value)`
unfoldable pub print_value : Value → Text
unfolding itoa
print_value nil_value = codes "<nil>"
print_value (bytes b) = b'[' ∷ numbers b
print_value (int n) = itoa n
print_value (int64 n) = itoa n
print_value (uint n) = itoa (pos n)
print_value (uint32 n) = itoa (pos n)
print_value (uint64 n) = itoa (pos n)
print_value (other s) = s

abbrev octets : Value → Text
octets (bytes b) = b
octets _ = []

unfoldable pub typed_string : Asn1 → Value → Text
unfolding print_value ◌=ᵗ◌
typed_string no_such_object v = []
typed_string no_such_instance v = []
typed_string null v = []
typed_string octet_string v = octets v
typed_string other_type v = let s = print_value v in if s =ᵗ codes "<nil>" then [] else s
typed_string _ v = print_value v

-- `pduToString`
unfoldable pub pdu_to_string : SnmpPdu → Text
unfolding typed_string
pdu_to_string pdu = if is_nil pdu.value then [] else typed_string pdu.asn1 pdu.value

-- `pduToInt`: the conversion to `int` keeps the low 64 bits.
unfoldable pub value_to_int : Value → ℤ
value_to_int (int n) = n
value_to_int (int64 n) = n
value_to_int (uint n) = int_of (n % word)
value_to_int (uint64 n) = int_of (n % word)
value_to_int (uint32 n) = int_of (n % word)
value_to_int _ = pos 0

unfoldable pub pdu_to_int : SnmpPdu → ℤ
unfolding value_to_int
pdu_to_int pdu = value_to_int pdu.value

-- `GetPDUInt`; the argument is a pointer, which may be nil.
unfoldable pub get_pdu_int : Option SnmpPdu → ℤ
unfolding pdu_to_int
get_pdu_int none = pos 0
get_pdu_int (some pdu) = if is_nil pdu.value then pos 0 else pdu_to_int pdu

-- `GetPDUInt64`
unfoldable pub get_pdu_int64 : Option SnmpPdu → ℤ
unfolding pdu_to_int
get_pdu_int64 none = pos 0
get_pdu_int64 (some pdu) = if is_nil pdu.value then pos 0 else pdu_to_int pdu

-- The type assertion `.([]byte)`: `none` is its panic.
abbrev assert_bytes : Value → Option Text
assert_bytes (bytes b) = some b
assert_bytes _ = none

abbrev bytes_of_type : Asn1 → Value → Option Text
bytes_of_type octet_string v = assert_bytes v
bytes_of_type _ v = some []

-- `getPDUBytes`
unfoldable pub get_pdu_bytes : Option SnmpPdu → Option Text
get_pdu_bytes none = some []
get_pdu_bytes (some pdu) = if is_nil pdu.value then some [] else bytes_of_type pdu.asn1 pdu.value

-- What gosnmp documents of its variables: an octet string comes as bytes, or as nil.
abbrev pub IsTyped : Asn1 → Value → Type 0
IsTyped octet_string (bytes b) = Unit
IsTyped octet_string nil_value = Unit
IsTyped octet_string _ = ⊥
IsTyped _ v = Unit

abbrev pub IsDecoded : SnmpPdu → Type 0
IsDecoded pdu = IsTyped pdu.asn1 pdu.value

-- The bytes of a documented variable are read without a panic.
typed_bytes :
    (t : Asn1) (v : Value)
    → IsTyped t v
    → (b : Text) × ((if is_nil v then some [] else bytes_of_type t v) ≡ some b)
typed_bytes octet_string (bytes b) h = (b, refl)
typed_bytes octet_string nil_value h = ([], refl)
typed_bytes octet_string (int n) h = absurd h
typed_bytes octet_string (int64 n) h = absurd h
typed_bytes octet_string (uint n) h = absurd h
typed_bytes octet_string (uint32 n) h = absurd h
typed_bytes octet_string (uint64 n) h = absurd h
typed_bytes octet_string (other n) h = absurd h
typed_bytes _ nil_value h = ([], refl)
typed_bytes _ _ h = ([], refl)

pub get_pdu_bytes_total :
    (pdu : SnmpPdu) → IsDecoded pdu → (b : Text) × (get_pdu_bytes (some pdu) ≡ some b)
unfolding get_pdu_bytes
get_pdu_bytes_total pdu h = typed_bytes pdu.asn1 pdu.value h
