-- ===== src/ByteOrder.antt =====
-- Byte order: `BigLong` of src/msg.c, on a machine whose lowest byte comes first. An `int` is its
-- unsigned value. `BigShort` is `big_short` of Net/Text.
use codextended.Prelude.{ℕ, ◌+◌, ◌*◌, ◌/◌, ◌%◌, ◌<◌, ◌≡◌, arith}
use codextended.Net.Text.{big_short}

unfoldable pub big_long : ℕ → ℕ
big_long l =
    let b1 = l % 256 in
    let b2 = l / 256 % 256 in
    let b3 = l / 65536 % 256 in
    let b4 = l / 16777216 % 256 in b1 * 16777216 + b2 * 65536 + b3 * 256 + b4

-- Turning the bytes around twice gives a word back, of two bytes or of four.
pub big-twice :
    (s l : ℕ)
    → s < 65536
    → l < 4294967296
    → (big_short (big_short s) ≡ s) × (big_long (big_long l) ≡ l)
unfolding big_short big_long
big-twice s l a b = (omega (arith, a), omega (arith, b))
