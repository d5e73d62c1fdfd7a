-- ===== src/Format.antt =====
-- Formatted texts: `va` of src/shared.c, which keeps its results in one array that it fills over and
-- over. The text that `vsprintf` makes is an argument.
pub mod Intact
use codextended.Prelude.{
  ℕ, zero, suc, ◌+◌, Bool, List, [], ◌∷◌, leb, if◌then◌else◌, length, write, Bytes, Outcome, ok,
  err, err_drop, ◌>>=◌,
}

abbrev pub max_va_string : ℕ
max_va_string = 32000

-- The static variables `string` and `index`.
pub record Va : Type 0 where
  pub string : ℕ → ℕ
  pub index : ℕ

-- `memcpy` of a text and its closing zero.
unfoldable pub copy_to : ℕ → Bytes → (ℕ → ℕ) → ℕ → ℕ
copy_to i [] mem = write mem i 0
copy_to i (c ∷ s) mem = copy_to (suc i) s (write mem i c)

abbrev pub start_of : ℕ → Va → ℕ
start_of len st = if leb 31999 (len + st.index) then 0 else st.index

-- The place of the result. A text that does not fit has overrun `temp_buffer` before the test.
unfoldable pub va : Bytes → Va → Outcome (ℕ × Va)
va text st =
    let len = length text in
    let buf = start_of len st in
    if leb max_va_string len
    then err err_drop
    else ok (buf, record { string = copy_to buf text st.string; index = buf + len + 1 })

-- A C string of a known length, read from a place.
unfoldable pub read_at : ℕ → ℕ → (ℕ → ℕ) → Bytes
read_at zero i mem = []
read_at (suc n) i mem = mem i ∷ read_at n (suc i) mem

-- Calls one after the other, whose results are not looked at.
unfoldable pub va_all : List Bytes → Va → Outcome Va
va_all [] st = ok st
va_all (text ∷ texts) st = va text st >>= λ r. va_all texts r.1
