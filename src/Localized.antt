-- ===== src/Localized.antt =====
-- Localized strings and models of scripts, in src/script.c, over the configstrings of the server:
-- `SV_GetConfigstring` cuts what it copies to the buffer, and `SV_SetConfigstring` writes.
pub mod Again
use codextended.Prelude.{
  ℕ, zero, suc, ◌+◌, Bool, true, false, ◌==◌, leb, if◌then◌else◌, Option, none, some, List, [], ◌∷◌,
  take, write, is_empty, Bytes, codes, eqb_ℤ, pos,
}
use codextended.Net.{bytes_eq}
use codextended.Strings.{stricmp}

-- The configstrings, `x_localized_string_index` and `x_model_index`.
pub record Indices : Type 0 where
  pub configstrings : ℕ → Bytes
  pub localized : ℕ
  pub model : ℕ

abbrev pub start : ℕ
start = 1244

-- Where the search ends: at the string, at a place without a string, or behind the last place.
pub data Place : Type 0 where
  found free : ℕ → Place
  full : Place

-- The loop: `left` places to go from place `i` on.
unfoldable pub localized_loop : ℕ → ℕ → (ℕ → Bytes) → Bytes → Place
localized_loop zero i cs str = full
localized_loop (suc left) i cs str =
    let s = take 1023 (cs (start + i)) in
    let rest = localized_loop left (suc i) cs str in
    if is_empty s then free i else if bytes_eq s str then found i else rest

abbrev pub add_at : Indices → ℕ → Bytes → ℕ × Indices
add_at x i str = (
  i,
  record x { configstrings = write x.configstrings (i + start) str; localized = x.localized + 1 },
)

-- What follows the search.
unfoldable pub add_found : Indices → Bytes → Place → ℕ × Indices
add_found x str (found i) = (i, x)
add_found x str (free i) = add_at x i str
add_found x str full = add_at x x.localized str

-- A counter behind the last place goes back to 128.
abbrev pub in_range : Indices → Indices
in_range x = if leb 256 x.localized then record x { localized = 128 } else x

unfoldable pub x_localized_string_index : Bytes → Indices → ℕ × Indices
x_localized_string_index str x =
    if is_empty str
    then (0, in_range x)
    else add_found (in_range x) str (localized_loop 255 1 x.configstrings str)

-- An index of 256 or more is replaced by the counter's, and one of the counter by 0.
unfoldable pub x_set_localized_string_index : ℕ → Bytes → Indices → ℕ × Indices
x_set_localized_string_index index str x =
    let i = if leb 256 index then x.localized else index in
    let x' = if leb 256 i then record x { localized = 0 } else x in
    let i' = if leb 256 i then 0 else i in
    if is_empty str
    then (0, x)
    else (i', record x' { configstrings = write x.configstrings (i' + start) str })

unfoldable pub x_model_index : ℕ → Bytes → Indices → ℕ × Indices
x_model_index index name x =
    let i = if leb 256 index then x.model else index in
    let x' = if leb 256 i then record x { model = 0 } else x in
    let i' = if leb 256 i then 0 else i in
    if is_empty name
    then (0, x)
    else (i', record x' { configstrings = write x.configstrings (i' + 268) name })

-- The arguments of the script: a string, or an index and a string.
unfoldable pub scr_precache_string : Option ℕ → Bytes → Indices → ℕ × Indices
scr_precache_string none str x = x_set_localized_string_index 256 str x
scr_precache_string (some index) str x = x_set_localized_string_index index str x

-- The search of `GScr_configstringindex`: `left` places to go from place `i` on. The least index that
-- the script asks for is not used.
unfoldable pub index_loop : ℕ → ℕ → (ℕ → Bytes) → Bytes → ℕ
index_loop zero i cs str = 0
index_loop (suc left) i cs str =
    let rest = index_loop left (suc i) cs str in
    if eqb_ℤ (stricmp str (take 1023 (cs i))) (pos 0) then i else rest
