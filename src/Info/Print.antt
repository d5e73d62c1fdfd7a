-- ===== src/Info/Print.antt =====
-- `Info_Print` of src/shared.c, with its buffers of 512 bytes.
use codextended.Prelude.{
  ℕ, zero, suc, ◌+◌, ◌-◌, ◌≤◌, ◌<◌, ◌≡◌, refl, false, ltb, leb, if◌then◌else◌, Option, none, some,
  [], ◌∷◌, ◌++◌, length, Bytes, codes, Bool-cases, inl, inr, arith, ◌==◌,
}
use codextended.Info.{span_slash, skip_slash}

unfoldable pub spaces : ℕ → Bytes
spaces zero = []
spaces (suc n) = b' ' ∷ spaces n

-- The key, filled up to 20 places.
abbrev pub padded : Bytes → Bytes
padded key = if ltb (length key) 20 then key ++ spaces (20 - length key) else key

abbrev then_print : Bytes → Option Bytes → Option Bytes
then_print text none = none
then_print text (some more) = some (text ++ more)

-- One round after the key, from what stands behind it, and the rounds that follow.
unfoldable pub print_value : (Bytes → Option Bytes) → Bytes → Bytes → Option Bytes
print_value more key [] = some (padded key ++ codes "MISSING VALUE\n")
print_value more key (slash ∷ at_value) =
    let (value, after) = span_slash at_value in
    if leb 512 (length value)
    then none
    else then_print (padded key ++ value ++ b'\n' ∷ []) (more (skip_slash after))

-- The loop; `none` is a write behind `key` or `value`, or fuel that ran out.
unfoldable pub print_loop : ℕ → Bytes → Option Bytes
print_loop zero s = none
print_loop (suc fuel) [] = some []
print_loop (suc fuel) (c ∷ s) =
    let (key, rest) = span_slash (c ∷ s) in
    if leb 512 (length key) then none else print_value (λ t. print_loop fuel t) key rest

unfoldable pub info_print : Bytes → Option Bytes
info_print s = print_loop (suc (length s)) (skip_slash s)

span_length : (s : Bytes) → length (span_slash s).0 + length (span_slash s).1 ≡ length s
unfolding span_slash
span_length [] = refl
span_length (c ∷ s) = elim (Bool-cases (c == b'\\')) [
  | inl y ↦ rw y (omega arith)
  | inr n ↦ rw n (omega (arith, span_length s))
]

skip_length : (s : Bytes) → length (skip_slash s) ≤ length s
unfolding skip_slash
skip_length [] = omega arith
skip_length (c ∷ s) = elim (Bool-cases (c == b'\\')) [
  | inl y ↦ rw y (omega arith)
  | inr n ↦ rw n (omega arith)
]

print_value-short :
    (more : Bytes → Option Bytes) (key rest : Bytes) (n : ℕ)
    → length rest ≤ n
    → n ≤ 512
    → ((s : Bytes) → length s < n → (out : Bytes) × (more s ≡ some out))
    → (out : Bytes) × (print_value more key rest ≡ some out)
unfolding print_value
print_value-short more key [] n f b k = (padded key ++ codes "MISSING VALUE\n", refl)
print_value-short more key (slash ∷ at_value) n f b k =
    let (value, after) = span_slash at_value in
    let whole = span_length at_value in
    let fits : leb 512 (length value) ≡ false = ground (arith, whole, f, b) in
    let (out, e) = k (skip_slash after) (omega (arith, whole, f, skip_length after)) in
    (padded key ++ value ++ b'\n' ∷ [] ++ out, rw (fits, e) refl)

print_loop-short :
    (fuel : ℕ) (s : Bytes)
    → length s < fuel
    → length s < 512
    → (out : Bytes) × (print_loop fuel s ≡ some out)
unfolding print_loop
print_loop-short zero s f b = absurd (omega arith)
print_loop-short (suc fuel) [] f b = ([], refl)
print_loop-short (suc fuel) (c ∷ s) f b =
    let whole = span_length (c ∷ s) in
    let fits : leb 512 (length (span_slash (c ∷ s)).0) ≡ false = ground (arith, whole, b) in
    rw fits (
      print_value-short (λ t. print_loop fuel t) (span_slash (c ∷ s)).0 (span_slash (c ∷ s)).1
        (length (c ∷ s)) (omega (arith, whole)) (omega (arith, b))
        λ t lt. print_loop-short fuel t (omega (arith, lt, f)) (omega (arith, lt, b)))

-- Info strings shorter than 512 bytes are printed within the buffers.
pub info_print-short : (s : Bytes) → length s < 512 → (out : Bytes) × (info_print s ≡ some out)
unfolding info_print
info_print-short s b =
    print_loop-short (suc (length s)) (skip_slash s) (omega (arith, skip_length s))
      (omega (arith, b, skip_length s))
