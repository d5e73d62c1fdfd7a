-- ===== src/Info.antt =====
-- Info strings, `\key\value\key\value`: `Info_ValueForKey`, `Info_RemoveKey` and
-- `Info_SetValueForKey` of src/shared.c, and the `_Big` versions of src/sv_client.c, which differ in
-- the buffer's size. The scratch buffers `pkey` and `value` are as large as the longest string
-- that passes the length test, and are not bounded here.
pub mod Pairs
pub mod Parse
pub mod Refine
pub mod Update
pub mod ReadBack
pub mod Limit
pub mod Print
use codextended.Prelude.{
  ℕ, zero, suc, ◌+◌, ◌-◌, Bool, true, false, not, ◌&&◌, ◌||◌, Option, none, some, List, [], ◌∷◌,
  ◌++◌, ◌==◌, ltb, leb, if◌then◌else◌, length, take, pos, eqb_ℤ, Bytes, Outcome, ok, err, err_fatal,
  err_drop, ErrorCode, is_empty,
}
use codextended.Strings.{stricmp, q_stricmp}

abbrev pub max_info_string : ℕ
max_info_string = 1024

abbrev pub big_info_string : ℕ
big_info_string = 8192

-- The copying loops: the bytes before the next backslash, and the rest from there.
unfoldable pub span_slash : Bytes → Bytes × Bytes
span_slash [] = ([], [])
span_slash (c ∷ s) =
    let (before, rest) = span_slash s in if c == b'\\' then ([], c ∷ s) else (c ∷ before, rest)

-- `if ( *s == '\\' ) s++;`
unfoldable pub skip_slash : Bytes → Bytes
skip_slash [] = []
skip_slash (c ∷ s) = if c == b'\\' then s else c ∷ s

-- `strchr( s, c )`.
unfoldable pub has_byte : ℕ → Bytes → Bool
has_byte b [] = false
has_byte b (c ∷ s) = c == b || has_byte b s

-- The `while ( 1 )` of `Info_ValueForKey`; `none` is fuel that ran out.
unfoldable pub value_loop : ℕ → Bytes → Bytes → Option Bytes
value_loop zero key s = none
value_loop (suc fuel) key s =
    let (pkey, rest) = span_slash s in
    elim rest [
      | [] ↦ some []
      | _ ∷ at_value ↦
          let (value, after) = span_slash at_value in
          if eqb_ℤ (stricmp key pkey) (pos 0)
          then some value
          else (elim after [ [] ↦ some [] | _ ∷ next ↦ value_loop fuel key next ])
    ]

unfoldable pub info_value_for_key : Bytes → Bytes → Outcome (Option Bytes)
unfolding value_loop skip_slash
info_value_for_key s key =
    if leb big_info_string (length s)
    then err err_fatal
    else ok (value_loop (suc (length s)) key (skip_slash s))

-- The `while ( 1 )` of `Info_RemoveKey`: the string from `start` on, after the loop.
unfoldable pub remove_loop : ℕ → Bytes → Bytes → Option Bytes
remove_loop zero key start = none
remove_loop (suc fuel) key start =
    let (pkey, rest) = span_slash (skip_slash start) in
    elim rest [
      | [] ↦ some start
      | slash ∷ at_value ↦
          let (value, after) = span_slash at_value in
          if eqb_ℤ (q_stricmp key pkey) (pos 0) then some after else (elim after [
            | [] ↦ some start
            | c ∷ next ↦ elim (remove_loop fuel key (c ∷ next)) [
              | none ↦ none
              | some left ↦ some (take (length start - length (c ∷ next)) start ++ left)
            ]
          ])
    ]

-- `limit` is MAX_INFO_STRING or, in the `_Big` versions, BIG_INFO_STRING.
unfoldable pub info_remove_key : ℕ → Bytes → Bytes → Outcome (Option Bytes)
unfolding remove_loop has_byte
info_remove_key limit s key =
    if leb limit (length s)
    then err err_drop
    else if has_byte b'\\' key
    then ok (some s)
    else ok (remove_loop (suc (length s)) key s)

-- `Com_sprintf( newi, sizeof( newi ), "\\%s\\%s", key, value )`, cut to the buffer.
abbrev pub new_pair : ℕ → Bytes → Bytes → Bytes
new_pair limit key value = take (limit - 1) (b'\\' ∷ (key ++ (b'\\' ∷ value)))

-- What follows the removal.
unfoldable pub append_pair : ℕ → Bytes → Bytes → Bytes → Bytes
append_pair limit s key value =
    if is_empty value
    then s
    else if ltb limit (length (new_pair limit key value) + length s)
    then s
    else s ++ new_pair limit key value

abbrev pub has_any : Bytes → Bytes → ℕ → Bool
has_any key value b = has_byte b key || has_byte b value

unfoldable pub info_set_value_for_key : ℕ → Bytes → Bytes → Bytes → Outcome (Option Bytes)
unfolding info_remove_key append_pair
info_set_value_for_key limit s key value =
    if leb limit (length s)
    then err err_drop
    else if has_any key value b'\\'
    then ok (some s)
    else if has_any key value b';'
    then ok (some s)
    else if has_any key value b'"'
    then ok (some s)
    else elim (info_remove_key limit s key) [
      | err e ↦ err e
      | ok none ↦ ok none
      | ok (some left) ↦ ok (some (append_pair limit left key value))
    ]

-- The versions for long strings.
abbrev pub info_remove_key_big : Bytes → Bytes → Outcome (Option Bytes)
info_remove_key_big s key = info_remove_key big_info_string s key

abbrev pub info_set_value_for_key_big : Bytes → Bytes → Bytes → Outcome (Option Bytes)
info_set_value_for_key_big s key value = info_set_value_for_key big_info_string s key value
