-- ===== src/ScriptStrings/Tokens.antt =====
-- The tokens of `Scr_StrTok`, and what `Scr_trim` leaves.
use codextended.Prelude.{
  ℕ, zero, suc, List, if◌then◌else◌, ◌≤◌, ◌≡◌, refl, sym, ap, ◌∙◌, Bool, false, not, [], ◌∷◌, keep,
  length, Bytes, is_empty, arith, Bool-cases, inl, inr,
}
use codextended.ScriptStrings.{is_delim, skip_delims, token, tokens_loop, scr_str_tok, ws, scr_trim}

-- One byte more in the first piece.
abbrev pub in_front : ℕ → List Bytes → List Bytes
in_front c [] = (c ∷ []) ∷ []
in_front c (t ∷ ts) = (c ∷ t) ∷ ts

-- The string cut at each delimiter, with the empty pieces.
unfoldable pub pieces : Bytes → Bytes → List Bytes
pieces delim [] = [] ∷ []
pieces delim (c ∷ s) =
    let rest = pieces delim s in if is_delim delim c then [] ∷ rest else in_front c rest

-- The pieces that are not empty.
abbrev pub solid : List Bytes → List Bytes
solid = keep (λ t. not (is_empty t))

length-skip_delims : (delim s : Bytes) → length (skip_delims delim s) ≤ length s
unfolding skip_delims
length-skip_delims delim [] = omega arith
length-skip_delims delim (c ∷ s) = ground (arith, length-skip_delims delim s)

skip-miss :
    (delim : Bytes) (c : ℕ) (s : Bytes)
    → is_delim delim c ≡ false
    → skip_delims delim (c ∷ s) ≡ c ∷ s
unfolding skip_delims
skip-miss delim c s miss = rw (skip_delims, miss) refl

pieces-skip_delims :
    (delim s : Bytes) → solid (pieces delim (skip_delims delim s)) ≡ solid (pieces delim s)
unfolding skip_delims pieces
pieces-skip_delims delim [] = refl
pieces-skip_delims delim (c ∷ s) = elim (Bool-cases (is_delim delim c)) [
  | inl hit ↦ rw hit (pieces-skip_delims delim s)
  | inr miss ↦ ap (λ t. solid (pieces delim t)) (skip-miss delim c s miss)
]

-- The first piece is the token, and the others are those of what stands behind it.
token-pieces :
    (delim s : Bytes)
    → (more : List Bytes) × (pieces delim s ≡ (token delim s).0 ∷ more)
      × (solid more ≡ solid (pieces delim (token delim s).1))
      × (length (token delim s).1 ≤ length s)
unfolding token pieces
token-pieces delim [] = ([], refl, refl, omega arith)
token-pieces delim (c ∷ s) = elim (Bool-cases (is_delim delim c)) [
  | inl hit ↦ rw hit (pieces delim s, refl, refl, omega arith)
  | inr miss ↦
      let (more, e, f, l) = token-pieces delim s in
      rw miss (more, ap (in_front c) e, f, omega (arith, l))
]

-- A string without a delimiter in front.
starts : Bytes → Bytes → Bool
starts delim [] = false
starts delim (c ∷ s) = is_delim delim c

skip_delims-starts : (delim s : Bytes) → starts delim (skip_delims delim s) ≡ false
unfolding skip_delims starts
skip_delims-starts delim [] = refl
skip_delims-starts delim (c ∷ s) = ground (arith, skip_delims-starts delim s)

-- A token in front is not empty, and what stands behind it is shorter.
token-cons :
    (delim : Bytes) (c : ℕ) (s : Bytes)
    → is_delim delim c ≡ false
    → (is_empty (token delim (c ∷ s)).0 ≡ false) × (length (token delim (c ∷ s)).1 ≤ length s)
unfolding token
token-cons delim c s miss = let (more, e, f, l) = token-pieces delim s in rw miss (refl, l)

tokens_loop-pieces :
    (fuel : ℕ) (delim s : Bytes)
    → length s ≤ fuel
    → starts delim s ≡ false
    → tokens_loop fuel delim s ≡ solid (pieces delim s)
unfolding tokens_loop starts
tokens_loop-pieces zero delim [] h f = unfold pieces in refl
tokens_loop-pieces zero delim (c ∷ s) h f = absurd (omega arith)
tokens_loop-pieces (suc fuel) delim [] h f = unfold pieces in refl
tokens_loop-pieces (suc fuel) delim (c ∷ s) h f =
    let rest = (token delim (c ∷ s)).1 in
    let (some_byte, shorter) = token-cons delim c s f in
    let (more, e, g, l) = token-pieces delim (c ∷ s) in
    let next =
      tokens_loop-pieces fuel delim (skip_delims delim rest)
        (omega (arith, shorter, length-skip_delims delim rest)) (skip_delims-starts delim rest) in
    rw e (
      rw some_byte
        (ap (λ ts. (token delim (c ∷ s)).0 ∷ ts) (next ∙ pieces-skip_delims delim rest ∙ sym g)))

-- `Scr_StrTok` gives the pieces of the string cut at each delimiter that are not empty, all of them
-- and in their order.
pub scr_str_tok-pieces : (str delim : Bytes) → scr_str_tok str delim ≡ solid (pieces delim str)
unfolding scr_str_tok
scr_str_tok-pieces str delim =
    tokens_loop-pieces (length str) delim (skip_delims delim str) (length-skip_delims delim str)
      (skip_delims-starts delim str)
    ∙ pieces-skip_delims delim str

-- `Scr_trim` takes out every blank, also those between words, where `utrim` takes those at the ends.
pub scr_trim-keep : (str : Bytes) → scr_trim str ≡ keep (λ c. not (is_delim ws c)) str
unfolding scr_trim
scr_trim-keep [] = refl
scr_trim-keep (c ∷ str) = ground (arith, scr_trim-keep str)
