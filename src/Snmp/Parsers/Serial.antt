-- ===== src/Snmp/Parsers/Serial.antt =====
-- Serial numbers: eight bytes become twelve characters, from which the bytes can be read back.
use zzte.Strings.{to_upper, upper}
use zzte.Snmp.Values.{SnmpPdu, IsDecoded, get_pdu_bytes_total}
use zzte.Snmp.Parsers.{hex_digit, encode_hex, serial_of_bytes, parse_serial_number}
use zzte.Prelude.{
  All, Text, [], ap, arith, drop, if◌then◌else◌, int_eq, length, ltb, nat_eq, refl, some, take,
  text_eq, ℕ, ◌%◌, ◌*◌, ◌++◌, ◌+◌, ◌-◌, ◌/◌, ◌<◌, ◌∷◌, ◌≡◌,
}

-- The number that an upper case hexadecimal digit stands for.
abbrev pub hex_value : ℕ → ℕ
hex_value c = if ltb c b'A' then c - b'0' else c - b'A' + 10

abbrev pub decode_hex : Text → Text
decode_hex [] = []
decode_hex (c ∷ []) = []
decode_hex (c ∷ d ∷ s) = (hex_value c * 16 + hex_value d) ∷ decode_hex s

abbrev pub IsBytes : Text → Type 0
IsBytes = All (λ c. c < 256)

hex_value-hex_digit : (d : ℕ) → d < 16 → hex_value (upper (hex_digit d)) ≡ d
unfolding hex_digit upper
hex_value-hex_digit d h = ground arith

decode_hex-encode_hex : (s : Text) → IsBytes s → decode_hex (to_upper (encode_hex s)) ≡ s
unfolding encode_hex to_upper
decode_hex-encode_hex [] h = refl
decode_hex-encode_hex (c ∷ s) (q, h) =
    rw
      (
        hex_value-hex_digit (c / 16) (omega arith),
        hex_value-hex_digit (c % 16) (omega arith),
        decode_hex-encode_hex s h,
      )
      (ap (λ t. t ∷ s) (omega arith))

length-encode_hex : (s : Text) → length (to_upper (encode_hex s)) ≡ 2 * length s
unfolding encode_hex to_upper
length-encode_hex [] = refl
length-encode_hex (c ∷ s) = omega (arith, length-encode_hex s)

-- The bytes that a serial number of twelve characters was made of.
abbrev pub bytes_of_serial : Text → Text
bytes_of_serial s = take 4 s ++ decode_hex (drop 4 s)

serial_eight :
    (a b c d : ℕ) (s : Text)
    → length s ≡ 4
    → serial_of_bytes (a ∷ b ∷ c ∷ d ∷ s) ≡ a ∷ b ∷ c ∷ d ∷ to_upper (encode_hex s)
unfolding serial_of_bytes
serial_eight a b c d s h = rw h

-- Eight bytes give a serial number of twelve characters: four as they are and the other four in
-- hexadecimal, from which all eight bytes are read back.
pub bytes_of_serial-serial_of_bytes :
    (bytes : Text)
    → length bytes ≡ 8
    → IsBytes bytes
    → (length (serial_of_bytes bytes) ≡ 12) × (bytes_of_serial (serial_of_bytes bytes) ≡ bytes)
bytes_of_serial-serial_of_bytes (a ∷ b ∷ c ∷ d ∷ s) n (_, (_, (_, (_, h)))) =
    rw (serial_eight a b c d s (omega arith))
      (omega (arith, length-encode_hex s), ap (λ t. a ∷ b ∷ c ∷ d ∷ t) (decode_hex-encode_hex s h))
bytes_of_serial-serial_of_bytes _ n h = absurd (omega arith)

-- On a variable as gosnmp documents it, the serial number is read without a panic.
pub parse_serial_number_total :
    (pdu : SnmpPdu) → IsDecoded pdu → (s : Text) × (parse_serial_number (some pdu) ≡ some s)
unfolding parse_serial_number
parse_serial_number_total pdu h =
    let (b, e) = get_pdu_bytes_total pdu h in (serial_of_bytes b, rw (e, parse_serial_number))
