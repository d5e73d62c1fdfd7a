-- ===== src/Strings/Search.antt =====
-- C's `strstr`, and what searches with it: `str_replace` and `startsWith` of src/util.c.
pub mod Replace
use codextended.Prelude.{
  ℕ, zero, suc, ◌+◌, Bool, true, false, not, ◌&&◌, ◌||◌, Option, none, some, List, [], ◌∷◌, ◌++◌,
  ◌==◌, ltb, if◌then◌else◌, length, take, drop, Bytes, is_empty,
}
use mathlib.Core.Option
use codextended.Net.{bytes_eq}

-- `!strncmp( sub, s, strlen( sub ) )`.
unfoldable pub starts_with : Bytes → Bytes → Bool
starts_with [] s = true
starts_with (x ∷ sub) [] = false
starts_with (x ∷ sub) (c ∷ s) = x == c && starts_with sub s

-- `strstr( s, sub ) != NULL`.
unfoldable pub strstr : Bytes → Bytes → Bool
strstr [] sub = starts_with sub []
strstr (c ∷ s) sub = starts_with sub (c ∷ s) || strstr s sub

-- `strstr( s, sub ) - s`, if it is not NULL.
unfoldable pub place_of : Bytes → Bytes → Option ℕ
place_of [] sub = if starts_with sub [] then some 0 else none
place_of (c ∷ s) sub =
    let rest = Option.map (λ n. suc n) (place_of s sub) in
    if starts_with sub (c ∷ s) then some 0 else rest

-- What `str_replace` does: it returns NULL, or a text; `crash` is a pointer computed from NULL.
pub data Replaced : Type 0 where
  null crash : Replaced
  text : Bytes → Replaced

-- The loop that counts, on fuel.
unfoldable pub count_loop : ℕ → Bytes → Bytes → ℕ
count_loop zero ins rep = 0
count_loop (suc fuel) ins rep = elim (place_of ins rep) [
  | none ↦ 0
  | some n ↦ suc (count_loop fuel (drop (n + length rep) ins) rep)
]

abbrev pub before : Bytes → Replaced → Replaced
before s null = null
before s crash = crash
before s (text t) = text (s ++ t)

-- The loop that copies, with `count` places to go.
unfoldable pub replace_loop : ℕ → Bytes → Bytes → Bytes → Replaced
replace_loop zero orig rep with = text orig
replace_loop (suc count) orig rep with = elim (place_of orig rep) [
  | none ↦ crash
  | some n ↦ before (take n orig ++ with) (replace_loop count (drop (n + length rep) orig) rep with)
]

-- The number of places: counting starts at the first one, and finds it again.
unfoldable pub count_of : Bytes → Bytes → ℕ
count_of orig rep = elim (place_of orig rep) [
  | none ↦ 0
  | some n ↦ count_loop (length orig) (drop n orig) rep
]

-- Memory is taken to be there.
unfoldable pub str_replace : Bytes → Bytes → Bytes → Replaced
str_replace orig rep with =
    if is_empty rep
    then null
    else if not (strstr orig rep)
    then null
    else replace_loop (count_of orig rep) orig rep with

-- `startsWith`, with C's `strncmp` on texts that are long enough.
unfoldable pub starts_with_text : Bytes → Bytes → Bool
starts_with_text str pre =
    if ltb (length str) (length pre) then false else bytes_eq pre (take (length pre) str)
