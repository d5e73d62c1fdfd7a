-- ===== src/Format/Intact.antt =====
-- How long a result of `va` lasts.
use codextended.Prelude.{
  ℕ, zero, suc, ◌+◌, ◌*◌, ◌≤◌, ◌<◌, ◌≡◌, refl, ap, ◌∙◌, ◌⊎◌, inl, inr, List, [], ◌∷◌, ==_refl, leb,
  length, write, Bytes, ok, arith, Bool-cases,
}
use codextended.Format.{max_va_string, Va, copy_to, start_of, va, read_at, va_all}

-- Bytes taken by texts with their closing zeros.
abbrev pub total : List Bytes → ℕ
total [] = 0
total (t ∷ ts) = length t + 1 + total ts

copy_to-outside :
    (s : Bytes) (i j : ℕ) (mem : ℕ → ℕ) → (j < i) ⊎ (i + length s < j) → copy_to i s mem j ≡ mem j
unfolding copy_to
copy_to-outside [] i j mem h = ground arith
copy_to-outside (c ∷ s) i j mem h = ground (arith, copy_to-outside s (suc i) j (write mem i c))

copy_to-here : (s : Bytes) (i : ℕ) (mem : ℕ → ℕ) → read_at (length s) i (copy_to i s mem) ≡ s
unfolding copy_to read_at
copy_to-here [] i mem = refl
copy_to-here (c ∷ s) i mem =
    rw (copy_to-outside s (suc i) i (write mem i c) (inl (omega arith)), ==_refl i)
      (ap (λ t. c ∷ t) (copy_to-here s (suc i) (write mem i c)))

-- A result at `i` of `len` bytes that the next `left` bytes do not reach: the array has been filled
-- up behind it by `spent` bytes, or from its start again.
abbrev Lasts : ℕ → ℕ → ℕ → ℕ → Type 0
Lasts i len left index =
    (i ≤ 31999)
    × (((spent : ℕ) × (index ≡ i + len + 1 + spent) × (len + 2 * (spent + left) ≤ 31998))
        ⊎ (index + left ≤ i))

abbrev Same : ℕ → ℕ → (ℕ → ℕ) → (ℕ → ℕ) → Type 0
Same i len mem mem' = (j : ℕ) → i ≤ j → j ≤ i + len → mem' j ≡ mem j

-- The state after a text that fits.
abbrev after : Bytes → Va → Va
after text st = record {
  string = copy_to (start_of (length text) st) text st.string;
  index = start_of (length text) st + length text + 1;
}

after-Lasts :
    (text : Bytes) (i len left : ℕ) (st : Va)
    → Lasts i len (length text + 1 + left) st.index
    → Lasts i len left (after text st).index × Same i len st.string (after text st).string
after-Lasts text i len left st (small, inl (spent, at, room)) =
    elim (Bool-cases (leb 31999 (length text + st.index))) [
      | inl wraps ↦
          let gap : 0 + length text + 1 + left ≤ i = ground (arith, at, room) in
          rw wraps
            ((small, inr gap), λ j low high. copy_to-outside text 0 j st.string (inr (omega arith)))
      | inr fits ↦ rw fits (
        (small, inl (spent + (length text + 1), omega (arith, at), omega (arith, room))),
        λ j low high. copy_to-outside text st.index j st.string (inl (omega (arith, at))),
      )
    ]
after-Lasts text i len left st (small, inr below) =
    elim (Bool-cases (leb 31999 (length text + st.index))) [
      | inl wraps ↦ absurd (ground (arith, below, small))
      | inr fits ↦ rw fits (
        (small, inr (omega (arith, below))),
        λ j low high. copy_to-outside text st.index j st.string (inr (omega (arith, below))),
      )
    ]

abbrev after_all : List Bytes → Va → Va
after_all [] st = st
after_all (text ∷ texts) st = after_all texts (after text st)

after_all-Same :
    (texts : List Bytes) (i len : ℕ) (st : Va)
    → Lasts i len (total texts) st.index
    → Same i len st.string (after_all texts st).string
after_all-Same [] i len st h = λ j low high. refl
after_all-Same (text ∷ texts) i len st h =
    let (lasts, same) = after-Lasts text i len (total texts) st h in
    let rest = after_all-Same texts i len (after text st) lasts in
    λ j low high. rest j low high ∙ same j low high

va-after :
    (text : Bytes) (st : Va)
    → length text < max_va_string
    → va text st ≡ ok (start_of (length text) st, after text st)
unfolding va
va-after text st h = elim (Bool-cases (leb max_va_string (length text))) [
  | inl big ↦ absurd (ground (arith, big))
  | inr fits ↦ rw fits refl
]

va_all-after_all :
    (texts : List Bytes) (st : Va) → total texts ≤ 31999 → va_all texts st ≡ ok (after_all texts st)
unfolding va_all
va_all-after_all [] st h = refl
va_all-after_all (text ∷ texts) st h =
    rw (va-after text st (omega arith)) (va_all-after_all texts (after text st) (omega arith))

read_at-Same :
    (len i : ℕ) (mem mem' : ℕ → ℕ) → Same i len mem mem' → read_at len i mem' ≡ read_at len i mem
unfolding read_at
read_at-Same zero i mem mem' h = refl
read_at-Same (suc len) i mem mem' h = rw (h i (omega arith) (omega arith)) (
    ap (λ t. mem i ∷ t)
      (read_at-Same len (suc i) mem mem' (λ j low high. h j (omega arith) (omega arith))))

start_of_small : (len : ℕ) (st : Va) → start_of len st ≤ 31999
start_of_small len st = ground arith

-- A result of `va` outlives the calls that follow: whatever the state before, the text still stands
-- at its place after any calls whose texts, with their closing zeros, take `n` bytes together, if
-- the text has at most 31998 - 2 n bytes; all these calls return.
pub va-intact :
    (text : Bytes) (texts : List Bytes) (st : Va)
    → length text + 2 * total texts ≤ 31998
    → (buf : ℕ) × (st' : Va) × (last : Va) × (va text st ≡ ok (buf, st'))
      × (va_all texts st' ≡ ok last)
      × (read_at (length text) buf last.string ≡ text)
va-intact text texts st h =
    let buf = start_of (length text) st in
    let st' = after text st in
    let lasts : Lasts buf (length text) (total texts) st'.index =
      (start_of_small (length text) st, inl (0, omega arith, omega arith)) in
    (
      buf,
      st',
      after_all texts st',
      va-after text st (omega arith),
      va_all-after_all texts st' (omega arith),
      read_at-Same (length text) buf st'.string _ (after_all-Same texts buf (length text) st' lasts)
          ∙ copy_to-here text buf st.string,
    )
