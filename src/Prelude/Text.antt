-- ===== src/Prelude/Text.antt =====
-- C strings as lists of bytes, without the closing zero byte.
use Prim.Native.Char.{code}
use Prim.Native.Nat.{ℕ}
use Prim.Native.String.{String}
use mathlib.Core.List.{List, [], ◌∷◌}

abbrev pub Bytes : Type 0
Bytes = List ℕ

-- The bytes of an ASCII text.
abbrev pub codes : String → Bytes
codes String.[] = []
codes (String.◌∷◌ c s) = code c ∷ codes s

-- `*s` and `s + 1`: reading at the end gives the zero byte.
abbrev pub byte_at : Bytes → ℕ
byte_at [] = 0
byte_at (c ∷ s) = c
