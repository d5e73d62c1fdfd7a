-- ===== src/Bits/Laws.antt =====
-- Single bits of the words.
use native.Mathlib.Nat.{div-div-eq-div-mul, pow-suc}
use codextended.Prelude.{
  ℕ, zero, suc, ◌+◌, ◌-◌, ◌*◌, ◌/◌, ◌%◌, ◌^◌, ◌≤◌, ◌≡◌, refl, sym, ◌∙◌, Bool, true, false, ◌==◌,
  ==_iff, if◌then◌else◌, Bool-cases, inl, inr, write, arith, ltb,
}
use codextended.Bits.{bit_place, has_bit, com_bit_check, com_bit_set, com_bit_clear}

pow_suc : (b : ℕ) → 2 ^ suc b ≡ 2 * 2 ^ b
pow_suc b = omega (arith, pow-suc 2 b)

halved : (w b : ℕ) → w / 2 ^ suc b ≡ w / 2 / 2 ^ b
halved w b = rw (pow_suc b) (sym (div-div-eq-div-mul w 2 (2 ^ b)))

has_bit-suc : (w b : ℕ) → has_bit w (suc b) ≡ has_bit (w / 2) b
unfolding has_bit
has_bit-suc w b = rw (halved w b) refl

has_bit_zero : (w : ℕ) → has_bit w 0 ≡ (w % 2 == 1)
unfolding has_bit
has_bit_zero w = ground arith

-- A bit that is not set can be added, and no other one changes.
has_bit-add :
    (b c w : ℕ)
    → has_bit w b ≡ false
    → has_bit (w + 2 ^ b) c ≡ (if c == b then true else has_bit w c)
has_bit-add zero zero w h = rw (has_bit_zero (w + 1)) (ground (arith, rw (has_bit_zero w) at h))
has_bit-add zero (suc c) w h =
    let even : (w + 1) / 2 ≡ w / 2 = ground (arith, rw (has_bit_zero w) at h) in
    rw (has_bit-suc (w + 1) c, has_bit-suc w c, even) (ground arith)
has_bit-add (suc b) zero w h =
    rw (has_bit_zero (w + 2 ^ suc b), has_bit_zero w) (ground (arith, pow_suc b))
has_bit-add (suc b) (suc c) w h =
    let half : (w + 2 ^ suc b) / 2 ≡ w / 2 + 2 ^ b = omega (arith, pow_suc b) in
    rw (has_bit-suc (w + 2 ^ suc b) c, has_bit-suc w c, half)
      (has_bit-add b c (w / 2) (sym (has_bit-suc w b) ∙ h) ∙ ground arith)

-- The loop divides by 32.
bit_place-div : (left i n : ℕ) → n ≤ left → bit_place left i n ≡ (i + n / 32, n % 32)
unfolding bit_place
bit_place-div zero i n h = ground (arith)
bit_place-div (suc left) i n h = elim (Bool-cases (ltb 31 n)) [
  | inl more ↦
      let word : suc i + (n - 32) / 32 ≡ i + n / 32 = ground arith in
      let bit : (n - 32) % 32 ≡ n % 32 = ground arith in
      rw more (bit_place-div left (suc i) (n - 32) (ground arith) ∙ rw (word, bit) refl)
  | inr last ↦
      let word : i + n / 32 ≡ i = ground arith in
      let bit : n % 32 ≡ n = ground arith in rw (last, word, bit) refl
]

-- A word with one bit set, and with one bit cleared.
abbrev with_bit : ℕ → ℕ → ℕ
with_bit w b = if has_bit w b then w else w + 2 ^ b

abbrev without_bit : ℕ → ℕ → ℕ
without_bit w b = if has_bit w b then w - 2 ^ b else w

has_bit-with_bit : (w b c : ℕ) → has_bit (with_bit w b) c ≡ (if c == b then true else has_bit w c)
has_bit-with_bit w b c = elim (Bool-cases (has_bit w b)) [
  | inl h ↦ rw h (ground (arith, ==_iff c b, h))
  | inr h ↦ rw h (has_bit-add b c w h)
]

-- A set bit is at most the word, and the word without it has it not.
has_bit-remove : (b w : ℕ) → has_bit w b ≡ true → (2 ^ b ≤ w) × (has_bit (w - 2 ^ b) b ≡ false)
has_bit-remove zero w h =
    let odd : w % 2 ≡ 1 = ground (arith, rw (has_bit_zero w) at h) in
    (omega arith, rw (has_bit_zero (w - 1)) (ground arith))
has_bit-remove (suc b) w h =
    let (less, clear) = has_bit-remove b (w / 2) (sym (has_bit-suc w b) ∙ h) in
    let half : (w - 2 ^ suc b) / 2 ≡ w / 2 - 2 ^ b = omega (arith, pow_suc b, less) in
    (omega (arith, pow_suc b, less), rw (has_bit-suc (w - 2 ^ suc b) b, half) clear)

has_bit-without_bit :
    (w b c : ℕ) → has_bit (without_bit w b) c ≡ (if c == b then false else has_bit w c)
has_bit-without_bit w b c = elim (Bool-cases (has_bit w b)) [
  | inl h ↦
      let (less, clear) = has_bit-remove b w h in
      let back : (w - 2 ^ b) + 2 ^ b ≡ w = omega (arith, less) in
      let added = has_bit-add b c (w - 2 ^ b) clear in
      rw h (ground (arith, ==_iff c b, clear, rw back at added))
  | inr h ↦ rw h (ground (arith, ==_iff c b, h))
]

place : (n : ℕ) → bit_place n 0 n ≡ (n / 32, n % 32)
place n =
    let start : 0 + n / 32 ≡ n / 32 = omega arith in
    bit_place-div n 0 n (omega arith) ∙ rw start refl

abbrev at_bit : (ℕ → ℕ) → ℕ → Bool
at_bit array n = has_bit (array (n / 32)) (n % 32)

com_bit_check-at : (array : ℕ → ℕ) (n : ℕ) → com_bit_check array n ≡ at_bit array n
unfolding com_bit_check
com_bit_check-at array n = rw (place n) refl

com_bit_set-write :
    (array : ℕ → ℕ) (n : ℕ)
    → com_bit_set array n ≡ write array (n / 32) (with_bit (array (n / 32)) (n % 32))
unfolding com_bit_set
com_bit_set-write array n = rw (place n) refl

com_bit_clear-write :
    (array : ℕ → ℕ) (n : ℕ)
    → com_bit_clear array n ≡ write array (n / 32) (without_bit (array (n / 32)) (n % 32))
unfolding com_bit_clear
com_bit_clear-write array n = rw (place n) refl

same_bit : (n m : ℕ) → m / 32 ≡ n / 32 → (m == n) ≡ (m % 32 == n % 32)
same_bit n m e = ground (arith, ==_iff m n, ==_iff (m % 32) (n % 32))

other_word : (n m : ℕ) → (m / 32 == n / 32) ≡ false → (m == n) ≡ false
other_word n m e = ground (arith, ==_iff m n, ==_iff (m / 32) (n / 32))

-- A word written at the place of bit `n` that differs in that bit only.
written :
    (array : ℕ → ℕ) (n m v : ℕ) (b : Bool)
    → ((c : ℕ) → has_bit v c ≡ (if c == n % 32 then b else has_bit (array (n / 32)) c))
    → at_bit (write array (n / 32) v) m ≡ (if m == n then b else at_bit array m)
written array n m v b h = elim (Bool-cases (m / 32 == n / 32)) [
  | inl e ↦
      let word : m / 32 ≡ n / 32 = (==_iff (m / 32) (n / 32)).0 e in
      rw (e, same_bit n m word, word) (h (m % 32))
  | inr other ↦ rw (other, other_word n m other) refl
]

-- Setting or clearing a bit of an array changes that bit, and no other one of any word.
pub com_bit_check-set :
    (array : ℕ → ℕ) (n m : ℕ)
    → (com_bit_check (com_bit_set array n) m ≡ (if m == n then true else com_bit_check array m))
      × (com_bit_check (com_bit_clear array n) m
          ≡ (if m == n then false else com_bit_check array m))
com_bit_check-set array n m = (
  rw (com_bit_check-at (com_bit_set array n) m, com_bit_check-at array m, com_bit_set-write array n)
      (written array n m (with_bit (array (n / 32)) (n % 32)) true
        (has_bit-with_bit (array (n / 32)) (n % 32))),
  rw
      (
        com_bit_check-at (com_bit_clear array n) m,
        com_bit_check-at array m,
        com_bit_clear-write array n,
      )
      (written array n m (without_bit (array (n / 32)) (n % 32)) false
        (has_bit-without_bit (array (n / 32)) (n % 32))),
)
