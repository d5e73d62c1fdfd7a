-- ===== src/Strings/Clean.antt =====
-- What the filters of src/shared.c and src/sv_client.c let through.
use codextended.Prelude.{
  ℕ, ◌≤◌, ◌<◌, ◌≡◌, ◌≢◌, ◌↔◌, Bool, true, false, not, ◌&&◌, [], ◌∷◌, arith, length, All, Bytes,
}
use codextended.Strings.{
  q_isupper, to_lower, q_is_color_string, q_clean_loop, q_clean_str, is_good_string,
  sanitize_string, challenge_byte_ok, verify_challenge_loop, sv_verify_challenge,
}

abbrev pub IsPrintable : ℕ → Type 0
IsPrintable c = (0x20 ≤ c) × (c ≤ 0x7e)

q_clean_loop-IsPrintable :
    (skip : Bool) (s : Bytes)
    → All IsPrintable (q_clean_loop skip s) × (length (q_clean_loop skip s) ≤ length s)
unfolding q_clean_loop
q_clean_loop-IsPrintable skip [] = (tt, omega arith)
q_clean_loop-IsPrintable skip (c ∷ s) =
    let rest = q_clean_loop-IsPrintable (not skip && q_is_color_string (c ∷ s)) s in ground arith

-- Whatever the name, `Q_CleanStr` leaves only bytes from 32 to 126, and no more bytes than before.
pub q_clean_str-IsPrintable :
    (s : Bytes) → All IsPrintable (q_clean_str s) × (length (q_clean_str s) ≤ length s)
unfolding q_clean_str
q_clean_str-IsPrintable s = q_clean_loop-IsPrintable false s

-- One pass does not remove every colour code: two escapes before a doubled byte leave one escape
-- with that byte, which is a colour code again.
pub q_clean_str-leaves_color :
    (c : ℕ)
    → IsPrintable c
    → c ≢ b'^'
    → (q_clean_str (b'^' ∷ b'^' ∷ c ∷ c ∷ []) ≡ b'^' ∷ c ∷ [])
      × (q_is_color_string (q_clean_str (b'^' ∷ b'^' ∷ c ∷ c ∷ [])) ≡ true)
unfolding q_clean_str
q_clean_str-leaves_color c p n = (ground arith, ground arith)

-- `is_good_string` accepts exactly the strings whose bytes all lie between 32 and 126.
pub is_good_string_iff :
    (s : Bytes) → All (λ c. c < 256) s → (is_good_string s ≡ true) ↔ All IsPrintable s
unfolding is_good_string
is_good_string_iff [] h = ground arith
is_good_string_iff (c ∷ s) h = ground (arith, is_good_string_iff s h.1)

abbrev pub IsSanitized : ℕ → Type 0
IsSanitized c = (32 ≤ c) × (c ≤ 127) × (q_isupper c ≡ false)

-- Whatever the input, `SanitizeString` leaves no control byte, no byte above 127 and no capital.
pub sanitize_string-IsSanitized :
    (s : Bytes) → All (λ c. c < 256) s → All IsSanitized (sanitize_string s)
unfolding sanitize_string to_lower q_isupper
sanitize_string-IsSanitized [] h = tt
sanitize_string-IsSanitized (c ∷ []) h = ground arith
sanitize_string-IsSanitized (c ∷ d ∷ s) h =
    let skipped = sanitize_string-IsSanitized s h.1.1 in
    let rest = sanitize_string-IsSanitized (d ∷ s) h.1 in ground arith

abbrev pub IsChallengeByte : ℕ → Type 0
IsChallengeByte c = IsPrintable c × (c ≢ b'\\') × (c ≢ b'/') × (c ≢ b'%') × (c ≢ b';') × (c ≢ b'"')

challenge_byte_ok_iff : (c : ℕ) → c < 256 → (challenge_byte_ok c ≡ true) ↔ IsChallengeByte c
challenge_byte_ok_iff c h = ground arith

verify_challenge_loop_iff :
    (s : Bytes) → All (λ c. c < 256) s → (verify_challenge_loop s ≡ true) ↔ All IsChallengeByte s
unfolding verify_challenge_loop
verify_challenge_loop_iff [] h = ground arith
verify_challenge_loop_iff (c ∷ s) h =
    ground (arith, challenge_byte_ok_iff c h.0, verify_challenge_loop_iff s h.1)

-- `SV_VerifyChallenge` accepts exactly the strings of at most 128 bytes, all printable, with no
-- backslash, slash, percent sign, semicolon or quote.
pub sv_verify_challenge_iff :
    (s : Bytes)
    → All (λ c. c < 256) s
    → (sv_verify_challenge s ≡ true) ↔ ((length s ≤ 128) × All IsChallengeByte s)
unfolding sv_verify_challenge
sv_verify_challenge_iff s h = ground (arith, verify_challenge_loop_iff s h)
