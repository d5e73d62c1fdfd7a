-- ===== src/Bits.antt =====
-- Bits in an array of words: `COM_BitCheck`, `COM_BitSet` and `COM_BitClear` of src/shared.c. A word
-- is the unsigned value of its 32 bits; a bit number is not negative.
pub mod Laws
use codextended.Prelude.{
  ℕ, zero, suc, ◌+◌, ◌-◌, ◌/◌, ◌%◌, ◌^◌, Bool, ltb, ◌==◌, if◌then◌else◌, write,
}

-- The loop: the word and the bit in it. Every round takes 32 off, so `left` rounds suffice for any
-- number up to `left`.
unfoldable pub bit_place : ℕ → ℕ → ℕ → ℕ × ℕ
bit_place zero i bit_num = (i, bit_num)
bit_place (suc left) i bit_num =
    let rest = bit_place left (suc i) (bit_num - 32) in
    if ltb 31 bit_num then rest else (i, bit_num)

unfoldable pub has_bit : ℕ → ℕ → Bool
has_bit word bit = word / 2 ^ bit % 2 == 1

unfoldable pub com_bit_check : (ℕ → ℕ) → ℕ → Bool
com_bit_check array bit_num = let (i, bit) = bit_place bit_num 0 bit_num in has_bit (array i) bit

unfoldable pub com_bit_set : (ℕ → ℕ) → ℕ → ℕ → ℕ
com_bit_set array bit_num =
    let (i, bit) = bit_place bit_num 0 bit_num in
    write array i (if has_bit (array i) bit then array i else array i + 2 ^ bit)

unfoldable pub com_bit_clear : (ℕ → ℕ) → ℕ → ℕ → ℕ
com_bit_clear array bit_num =
    let (i, bit) = bit_place bit_num 0 bit_num in
    write array i (if has_bit (array i) bit then array i - 2 ^ bit else array i)
