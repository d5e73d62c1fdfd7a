-- ===== src/Strings.antt =====
-- The string routines of src/shared.c, and the name and challenge tests of src/sv_client.c and
-- src/sv_main.c. A string is the list of its bytes; a buffer's size enters where the code reads it.
-- A null pointer has no counterpart among lists.
pub mod Compare
pub mod Clean
pub mod Buffers
pub mod Search
use codextended.Prelude.{
  ℕ, zero, suc, ◌+◌, ◌-◌, ◌*◌, Bool, true, false, not, ◌&&◌, ◌||◌, Option, none, some, List, [],
  ◌∷◌, ◌++◌, map, ◌==◌, ltb, leb, if◌then◌else◌, length, take, tail, ℤ, pos, negsuc, ◌-ℤ◌, ltb_ℤ,
  eqb_ℤ, signed8, Bytes, byte_at, Outcome, ok, err, err_fatal,
}

unfoldable pub q_isprint : ℕ → Bool
q_isprint c = leb 0x20 c && leb c 0x7e

unfoldable pub q_islower : ℕ → Bool
q_islower c = leb b'a' c && leb c b'z'

unfoldable pub q_isupper : ℕ → Bool
q_isupper c = leb b'A' c && leb c b'Z'

unfoldable pub q_isalpha : ℕ → Bool
q_isalpha c = (leb b'a' c && leb c b'z') || (leb b'A' c && leb c b'Z')

unfoldable pub q_isnumeric : ℕ → Bool
q_isnumeric c = leb b'0' c && leb c b'9'

unfoldable pub q_isalphanumeric : ℕ → Bool
unfolding q_isalpha q_isnumeric
q_isalphanumeric c = q_isalpha c || q_isnumeric c

unfoldable pub q_isforfilename : ℕ → Bool
unfolding q_isalphanumeric
q_isforfilename c = (q_isalphanumeric c || c == b'_') && not (c == b' ')

-- C's `toupper` and `tolower` in the "C" locale.
unfoldable pub to_upper : ℕ → ℕ
to_upper c = if leb b'a' c && leb c b'z' then c - 32 else c

unfoldable pub to_lower : ℕ → ℕ
to_lower c = if leb b'A' c && leb c b'Z' then c + 32 else c

-- The last place of `c`, as the rest of the string from there; the zero byte is found at the end.
q_strrchr_loop : Bytes → ℕ → Option Bytes → Option Bytes
q_strrchr_loop [] c sp = if c == 0 then some [] else sp
q_strrchr_loop (x ∷ s) c sp = q_strrchr_loop s c (if x == c then some (x ∷ s) else sp)

unfoldable pub q_strrchr : Bytes → ℕ → Option Bytes
unfolding q_strrchr_loop
q_strrchr s c = q_strrchr_loop s c none

-- `strncpy` and the closing zero: at most `destsize - 1` bytes are kept.
unfoldable pub q_strncpyz : Bytes → ℕ → Outcome Bytes
q_strncpyz src destsize = if ltb destsize 1 then err err_fatal else ok (take (destsize - 1) src)

unfoldable pub q_strcat : Bytes → ℕ → Bytes → Outcome Bytes
q_strcat dest size src =
    let l1 = length dest in
    if leb size l1
    then err err_fatal
    else elim (q_strncpyz src (size - l1)) [ ok copied ↦ ok (dest ++ copied) | err e ↦ err e ]

unfoldable pub stricmp : Bytes → Bytes → ℤ
stricmp [] s2 = pos 0 -ℤ pos (to_upper (byte_at s2))
stricmp (x ∷ s1) s2 =
    let c1 = to_upper x in
    let c2 = to_upper (byte_at s2) in
    let rest = stricmp s1 (tail s2) in
    if c1 == 0 then pos c1 -ℤ pos c2 else if c1 == c2 then rest else pos c1 -ℤ pos c2

-- `c1` and `c2` are `char` values, which are signed, so `<` compares signed values. The code
-- folds `a` to `z` in place, as `to_upper` does.
unfoldable pub q_stricmpn : ℕ → Bytes → Bytes → ℤ
q_stricmpn zero s1 s2 = pos 0
q_stricmpn (suc n) s1 s2 =
    let c1 = byte_at s1 in
    let c2 = byte_at s2 in
    let u1 = to_upper c1 in
    let u2 = to_upper c2 in
    let rest = q_stricmpn n (tail s1) (tail s2) in
    if c1 == c2
    then if c1 == 0 then pos 0 else rest
    else if u1 == u2
    then if u1 == 0 then pos 0 else rest
    else if ltb_ℤ (signed8 u1) (signed8 u2)
    then negsuc 0
    else pos 1

unfoldable pub q_strncmp : ℕ → Bytes → Bytes → ℤ
q_strncmp zero s1 s2 = pos 0
q_strncmp (suc n) s1 s2 =
    let c1 = byte_at s1 in
    let c2 = byte_at s2 in
    let rest = q_strncmp n (tail s1) (tail s2) in
    if not (c1 == c2)
    then if ltb_ℤ (signed8 c1) (signed8 c2) then negsuc 0 else pos 1
    else if c1 == 0
    then pos 0
    else rest

unfoldable pub q_stricmp : Bytes → Bytes → ℤ
q_stricmp s1 s2 = q_stricmpn 99999 s1 s2

-- Outer and inner loop of `Q_stristr`: `c` is the first byte of `find`, in upper case.
q_stristr_loop : ℕ → Bytes → Bytes → Option Bytes
q_stristr_loop c find [] = none
q_stristr_loop c find (x ∷ s) =
    if to_upper x == c && eqb_ℤ (q_stricmpn (length find) s find) (pos 0)
    then some (x ∷ s)
    else q_stristr_loop c find s

unfoldable pub q_stristr : Bytes → Bytes → Option Bytes
unfolding q_stristr_loop
q_stristr s [] = some s
q_stristr s (c ∷ find) = q_stristr_loop (to_upper c) find s

-- `Q_IsColorString`: an escape before a byte that is no escape.
unfoldable pub q_is_color_string : Bytes → Bool
q_is_color_string s =
    byte_at s == b'^' && not (byte_at (tail s) == 0) && not (byte_at (tail s) == b'^')

-- The flag says that the byte before was such an escape, and this one is skipped with it.
q_clean_loop : Bool → Bytes → Bytes
unfolding q_is_color_string
q_clean_loop skip [] = []
q_clean_loop skip (c ∷ s) =
    let escape = not skip && q_is_color_string (c ∷ s) in
    let rest = q_clean_loop escape s in
    if not skip && not escape && leb 0x20 c && leb c 0x7e then c ∷ rest else rest

unfoldable pub q_clean_str : Bytes → Bytes
unfolding q_clean_loop
q_clean_str = q_clean_loop false

unfoldable pub q_strlwr : Bytes → Bytes
q_strlwr = map λ c. if leb b'A' c && leb c b'Z' then c + 32 else c

-- `*cp += 'A' - 'a'`.
unfoldable pub q_strupr : Bytes → Bytes
q_strupr = map λ c. if leb b'a' c && leb c b'z' then c - 32 else c

-- A `char` from 128 up is negative, so the first test refuses it too.
abbrev pub is_good_byte : ℕ → Bool
is_good_byte c = not (ltb_ℤ (signed8 c) (pos 32) || ltb_ℤ (pos 126) (signed8 c))

unfoldable pub is_good_string : Bytes → Bool
is_good_string [] = true
is_good_string (c ∷ s) = if is_good_byte c then is_good_string s else false

-- C's `atoi` in the "C" locale: blanks, a sign, digits. The library leaves a number outside the
-- range of `int` undefined.
unfoldable pub digits : ℕ → Bytes → ℕ
digits n [] = n
digits n (c ∷ s) = if leb b'0' c && leb c b'9' then digits (n * 10 + (c - b'0')) s else n

abbrev pub is_blank : ℕ → Bool
is_blank c = c == 32 || (leb 9 c && leb c 13)

unfoldable pub signed_digits : Bytes → ℤ
unfolding digits
signed_digits [] = pos 0
signed_digits (c ∷ s) =
    if c == b'-'
    then pos 0 -ℤ pos (digits 0 s)
    else if c == b'+'
    then pos (digits 0 s)
    else pos (digits 0 (c ∷ s))

unfoldable pub atoi : Bytes → ℤ
unfolding signed_digits
atoi [] = pos 0
atoi (c ∷ s) = let rest = atoi s in if is_blank c then rest else signed_digits (c ∷ s)

-- The colour escape here is byte 27. `in += 2` jumps over the zero byte of a string that ends
-- in an escape; the model stops there.
unfoldable pub sanitize_string : Bytes → Bytes
sanitize_string [] = []
sanitize_string (c ∷ []) =
    if c == 27 then [] else if ltb_ℤ (signed8 c) (pos 32) then [] else to_lower c ∷ []
sanitize_string (c ∷ d ∷ s) =
    let skipped = sanitize_string s in
    let rest = sanitize_string (d ∷ s) in
    if c == 27 then skipped else if ltb_ℤ (signed8 c) (pos 32) then rest else to_lower c ∷ rest

abbrev pub challenge_byte_ok : ℕ → Bool
challenge_byte_ok c = not (
    c == b'\\'
    || c == b'/'
    || c == b'%'
    || c == b';'
    || c == b'"'
    || ltb_ℤ (signed8 c) (pos 32)
    || ltb_ℤ (pos 126) (signed8 c))

verify_challenge_loop : Bytes → Bool
verify_challenge_loop [] = true
verify_challenge_loop (c ∷ s) = if challenge_byte_ok c then verify_challenge_loop s else false

unfoldable pub sv_verify_challenge : Bytes → Bool
unfolding verify_challenge_loop
sv_verify_challenge s = if ltb 128 (length s) then false else verify_challenge_loop s
