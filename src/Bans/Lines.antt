-- ===== src/Bans/Lines.antt =====
-- What the loops of `fgets` read from a text of whole lines, and what `utrim` and `atoi` make of a
-- line that begins with a word and a colon.
use codextended.Prelude.{
  ℕ, zero, suc, ◌+◌, ◌-◌, ◌*◌, ◌≤◌, ◌<◌, ◌≡◌, ◌≢◌, refl, ap, ◌∙◌, sym, false, Option, none, some,
  List, [], ◌∷◌, ◌++◌, map, All, length, arith, Bytes, ==_iff, length-append,
}
use mathlib.Core.List.{append_assoc}
use codextended.Strings.{is_blank, atoi, signed_digits, digits}
use codextended.Bans.{fgets, read_lines, max_line, lines_of, text_of, trim_end, skip_blanks, utrim}

-- A line, without its newline, that the buffer of 256 bytes holds.
pub record IsLine (l : Bytes) : Type 0 where
  pub one : All (λ (c : ℕ). c ≢ b'\n') l
  pub fits : length l < max_line

abbrev pub ended : Bytes → Bytes
ended l = l ++ b'\n' ∷ []

abbrev pub unlines : List Bytes → Bytes
unlines [] = []
unlines (l ∷ ls) = l ++ b'\n' ∷ unlines ls

fgets-line :
    (n : ℕ) (l rest : Bytes)
    → All (λ (c : ℕ). c ≢ b'\n') l
    → length l < n
    → fgets n (l ++ b'\n' ∷ rest) ≡ (ended l, rest)
unfolding fgets
fgets-line zero l rest h k = absurd (omega arith)
fgets-line (suc n) [] rest h k = refl
fgets-line (suc n) (c ∷ l) rest h k =
    ground (arith, fgets-line n l rest h.1 (omega arith), ==_iff c b'\n')

read_lines-cons :
    (fuel : ℕ) (l rest : Bytes)
    → IsLine l
    → read_lines (suc fuel) (l ++ b'\n' ∷ rest) ≡ ended l ∷ read_lines fuel rest
unfolding read_lines
read_lines-cons fuel [] rest h = rw (fgets-line max_line [] rest h.one h.fits) refl
read_lines-cons fuel (c ∷ l) rest h = rw (fgets-line max_line (c ∷ l) rest h.one h.fits) refl

read_lines_nil : (fuel : ℕ) → read_lines fuel [] ≡ []
unfolding read_lines
read_lines_nil zero = refl
read_lines_nil (suc fuel) = refl

pub read_lines-unlines :
    (fuel : ℕ) (ls : List Bytes)
    → length (unlines ls) ≤ fuel
    → All IsLine ls
    → read_lines fuel (unlines ls) ≡ map ended ls
read_lines-unlines fuel [] k h = read_lines_nil fuel
read_lines-unlines zero (l ∷ ls) k h =
    absurd (omega (arith, length-append {0} l (b'\n' ∷ unlines ls)))
read_lines-unlines (suc fuel) (l ∷ ls) k h =
    read_lines-cons fuel l (unlines ls) h.0
    ∙ ap (λ zs. ended l ∷ zs)
        (read_lines-unlines fuel ls (omega (arith, length-append {0} l (b'\n' ∷ unlines ls))) h.1)

pub lines_of-unlines :
    (file : Option Bytes) (ls : List Bytes)
    → text_of file ≡ unlines ls
    → All IsLine ls
    → lines_of file ≡ map ended ls
unfolding lines_of
lines_of-unlines none [] e h = refl
lines_of-unlines none ([] ∷ ls) e h = absurd (cc e)
lines_of-unlines none ((c ∷ l) ∷ ls) e h = absurd (cc e)
lines_of-unlines (some text) ls e h =
    rw e (read_lines-unlines (length (unlines ls)) ls (omega arith) h)

pub unlines-append : (ls ms : List Bytes) → unlines (ls ++ ms) ≡ unlines ls ++ unlines ms
unlines-append [] ms = refl
unlines-append (l ∷ ls) ms =
    ap (λ zs. l ++ b'\n' ∷ zs) (unlines-append ls ms)
    ∙ sym (append_assoc l (b'\n' ∷ unlines ls) (unlines ms))

-- A word: no blank in it, and not empty.
pub record IsWord (w : Bytes) : Type 0 where
  pub solid : All (λ (c : ℕ). is_blank c ≡ false) w
  pub some_byte : 0 < length w

is_blank_newline : (c : ℕ) → is_blank c ≡ false → c ≢ b'\n'
is_blank_newline c h e = ground (arith, ==_iff c b'\n')

pub word_in_line :
    (w : Bytes) → All (λ (c : ℕ). is_blank c ≡ false) w → All (λ (c : ℕ). c ≢ b'\n') w
word_in_line [] h = tt
word_in_line (c ∷ w) h = (is_blank_newline c h.0, word_in_line w h.1)

trim_end-colon : (w t : Bytes) → trim_end (w ++ b':' ∷ t) ≡ w ++ b':' ∷ trim_end t
unfolding trim_end
trim_end-colon [] t = ground arith
trim_end-colon (c ∷ []) t = ground (arith, trim_end-colon [] t)
trim_end-colon (c ∷ d ∷ w) t = rw (trim_end-colon (d ∷ w) t) refl

pub utrim-colon : (w t : Bytes) → IsWord w → utrim (w ++ b':' ∷ t) ≡ w ++ b':' ∷ trim_end t
unfolding utrim skip_blanks
utrim-colon [] t h = absurd (omega (arith, h.some_byte))
utrim-colon (c ∷ w) t h = rw h.solid.0 (trim_end-colon (c ∷ w) t)

digits-colon : (n : ℕ) (w t : Bytes) → digits n (w ++ b':' ∷ t) ≡ digits n w
unfolding digits
digits-colon n [] t = refl
digits-colon n (c ∷ w) t = ground (arith, digits-colon (n * 10 + (c - b'0')) w t)

-- A number ends at the colon.
pub atoi-colon : (w t : Bytes) → IsWord w → atoi (w ++ b':' ∷ t) ≡ atoi w
unfolding atoi signed_digits
atoi-colon [] t h = absurd (omega (arith, h.some_byte))
atoi-colon (c ∷ w) t h = rw h.solid.0 (ground (arith, digits-colon 0 w t, digits-colon 0 (c ∷ w) t))
