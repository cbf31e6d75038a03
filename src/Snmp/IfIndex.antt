-- ===== src/Snmp/IfIndex.antt =====
-- internal/snmp/ifindex.go. An `int` is its 64-bit pattern: shifts and sums wrap around at 2 ^ 64.
-- The bits that `ParseIfIndex` reads lie below bit 32, where the arithmetic shift of a negative
-- `int` agrees with the logical shift of its pattern.
use zzte.Prelude.{
  ap, arith, if◌then◌else◌, int_eq, ltb, lt→ltb, nat_eq, negsuc, pos, sym, text_eq, ℕ, ℤ, ◌%◌, ◌*◌,
  ◌+◌, ◌-◌, ◌/◌, ◌<◌, ◌^◌, ◌∙◌, ◌≡◌,
}

abbrev pub word : ℕ
word = 2 ^ 64

-- The pattern of an `int`, and the `int` of a pattern.
abbrev pub pattern_of : ℤ → ℕ
pattern_of (pos n) = n % word
pattern_of (negsuc n) = word - 1 - n % word

abbrev pub int_of : ℕ → ℤ
int_of n = if ltb n (2 ^ 63) then pos n else negsuc (word - 1 - n)

-- `x << k`
abbrev pub shl : ℕ → ℕ → ℕ
shl x k = x * 2 ^ k % word

-- `x >> k`
abbrev pub shr : ℕ → ℕ → ℕ
shr x k = x / 2 ^ k

-- `x & (2 ^ k - 1)`
abbrev pub low_bits : ℕ → ℕ → ℕ
low_bits x k = x % 2 ^ k

unfoldable pub calculate_if_index : ℤ → ℤ → ℤ → ℤ
calculate_if_index shelf slot port =
    int_of (((shl 1 28 + shl (pattern_of slot) 16) % word + shl (pattern_of port) 8) % word)

unfoldable pub parse_if_index : ℤ → ℕ × ℕ × ℕ
parse_if_index if_index = (
  low_bits (shr (pattern_of if_index) 28) 4,
  low_bits (shr (pattern_of if_index) 16) 8,
  low_bits (shr (pattern_of if_index) 8) 8,
)

unfoldable pub calculate_if_index_default : ℤ → ℤ → ℤ
unfolding calculate_if_index
calculate_if_index_default board pon = calculate_if_index (pos 1) board pon

-- The index of a small slot and port, as a sum.
pub calculate_if_index_small :
    (shelf : ℤ) (slot port : ℕ)
    → slot < 2 ^ 40
    → port < 2 ^ 40
    → calculate_if_index shelf (pos slot) (pos port) ≡ pos (268435456 + slot * 65536 + port * 256)
unfolding calculate_if_index
calculate_if_index_small shelf slot port h k =
    let e : ((shl 1 28 + shl (slot % word) 16) % word + shl (port % word) 8) % word
        ≡ 268435456 + slot * 65536 + port * 256 =
      omega arith in
    rw (e, lt→ltb (268435456 + slot * 65536 + port * 256) (2 ^ 63) (omega arith))

-- A slot and a port of one byte each are read back from their index; the shelf is not part of the
-- index, and what is read back in its place is 1.
pub parse_if_index-calculate_if_index :
    (shelf : ℤ) (slot port : ℕ)
    → slot < 256
    → port < 256
    → parse_if_index (calculate_if_index shelf (pos slot) (pos port)) ≡ (1, slot, port)
unfolding parse_if_index
parse_if_index-calculate_if_index shelf slot port h k =
    rw (calculate_if_index_small shelf slot port (omega arith) (omega arith)) (ground arith)

-- Two ports whose slot and port numbers fit one byte each have the same index only if they are the
-- same port of the same slot.
pub calculate_if_index_injective :
    (shelf : ℤ) (slot port slot' port' : ℕ)
    → slot < 256
    → port < 256
    → slot' < 256
    → port' < 256
    → calculate_if_index shelf (pos slot) (pos port)
      ≡ calculate_if_index shelf (pos slot') (pos port')
    → (slot ≡ slot') × (port ≡ port')
calculate_if_index_injective shelf slot port slot' port' a b c d h =
    let e : 268435456 + slot * 65536 + port * 256 ≡ 268435456 + slot' * 65536 + port' * 256 =
      ground (
        arith,
        h,
        calculate_if_index_small shelf slot port,
        calculate_if_index_small shelf slot' port',
      ) in
    (omega (arith, e), omega (arith, e))

-- A port number of 256 or more runs over into the slot: it has the index of a port of the next
-- slot, for all slot and port numbers below 2 ^ 39.
pub calculate_if_index_aliases :
    (shelf : ℤ) (slot port : ℕ)
    → slot < 2 ^ 39
    → port < 2 ^ 39
    → calculate_if_index shelf (pos slot) (pos (port + 256))
      ≡ calculate_if_index shelf (pos (slot + 1)) (pos port)
calculate_if_index_aliases shelf slot port h k =
    calculate_if_index_small shelf slot (port + 256) (omega arith) (omega arith)
    ∙ ap pos (omega arith)
    ∙ sym (calculate_if_index_small shelf (slot + 1) port (omega arith) (omega arith))
