-- ===== src/ScriptStrings.antt =====
-- The string functions of scripts: src/scr_string.c. `Scr_GetString` gives the arguments, and the
-- value added by `Scr_AddString`, `Scr_AddBool` or `Scr_AddArray` is the result; both are code of
-- the game binary.
pub mod Tokens
use codextended.Prelude.{
  ℕ, zero, suc, Bool, true, false, not, ◌||◌, List, [], ◌∷◌, map, ◌==◌, if◌then◌else◌, length,
  Bytes,
}
use codextended.Strings.{to_lower, to_upper}
use codextended.Strings.Search.{strstr, Replaced, str_replace}

unfoldable pub is_delim : Bytes → ℕ → Bool
is_delim [] c = false
is_delim (d ∷ delim) c = d == c || is_delim delim c

unfoldable pub skip_delims : Bytes → Bytes → Bytes
skip_delims delim [] = []
skip_delims delim (c ∷ s) = if is_delim delim c then skip_delims delim s else c ∷ s

-- A token, and the string behind the delimiter that ends it.
unfoldable pub token : Bytes → Bytes → Bytes × Bytes
token delim [] = ([], [])
token delim (c ∷ s) =
    let (tok, rest) = token delim s in if is_delim delim c then ([], s) else (c ∷ tok, rest)

-- The calls of `strtok` until it returns NULL, on fuel: `s` has lost the delimiters in front.
unfoldable pub tokens_loop : ℕ → Bytes → Bytes → List Bytes
tokens_loop zero delim s = []
tokens_loop (suc fuel) delim [] = []
tokens_loop (suc fuel) delim (c ∷ s) =
    let (tok, rest) = token delim (c ∷ s) in tok ∷ tokens_loop fuel delim (skip_delims delim rest)

unfoldable pub scr_str_tok : Bytes → Bytes → List Bytes
scr_str_tok str delim = tokens_loop (length str) delim (skip_delims delim str)

unfoldable pub scr_is_sub_str : Bytes → Bytes → Bool
scr_is_sub_str string substring = strstr string substring

unfoldable pub scr_to_lower : Bytes → Bytes
scr_to_lower = map to_lower

unfoldable pub scr_to_upper : Bytes → Bytes
scr_to_upper = map to_upper

-- "\n\r\t\f ".
abbrev pub ws : Bytes
ws = 10 ∷ 13 ∷ 9 ∷ 12 ∷ 32 ∷ []

unfoldable pub scr_trim : Bytes → Bytes
scr_trim [] = []
scr_trim (c ∷ str) = let rest = scr_trim str in if is_delim ws c then rest else c ∷ rest

unfoldable pub scr_ucfirst : Bytes → Bytes
scr_ucfirst [] = []
scr_ucfirst (c ∷ str) = to_upper c ∷ str

unfoldable pub scr_replace : Bytes → Bytes → Bytes → Replaced
scr_replace orig rep with = str_replace orig rep with
