-- ===== src/Info/Pairs.antt =====
-- What an info string stands for: a list of keys with their values.
use codextended.Prelude.{
  ◌<◌, ◌≤◌, ◌≢◌, Bool, true, false, List, [], ◌∷◌, ◌++◌, if◌then◌else◌, arith, length,
  length-append, All, Bytes,
}
use codextended.Strings.Compare.{same_text, IsText}

abbrev pub Pair : Type 0
Pair = Bytes × Bytes

unfoldable pub encode : List Pair → Bytes
encode [] = []
encode ((k, v) ∷ ps) = b'\\' ∷ (k ++ (b'\\' ∷ (v ++ encode ps)))

-- A key or a value that an info string can hold.
abbrev pub IsField : Bytes → Type 0
IsField = All (λ c. (0 < c) × (c < 256) × (c ≢ b'\\'))

abbrev pub IsPairs : List Pair → Type 0
IsPairs = All (λ ((k, v) : Pair). IsField k × IsField v)

-- The value of the first key that matches, whatever its case; the empty string if there is none.
unfoldable pub lookup : Bytes → List Pair → Bytes
lookup key [] = []
lookup key ((k, v) ∷ ps) = if same_text key k then v else lookup key ps

unfoldable pub contains : Bytes → List Pair → Bool
contains key [] = false
contains key ((k, v) ∷ ps) = if same_text key k then true else contains key ps

-- Drops the first key that matches, with its value.
unfoldable pub remove : Bytes → List Pair → List Pair
remove key [] = []
remove key ((k, v) ∷ ps) = if same_text key k then ps else (k, v) ∷ remove key ps

-- No two keys are the same text.
unfoldable pub has_distinct_keys : List Pair → Bool
has_distinct_keys [] = true
has_distinct_keys ((k, v) ∷ ps) = if contains k ps then false else has_distinct_keys ps

pub IsField-IsText : (s : Bytes) → IsField s → IsText s
IsField-IsText [] h = tt
IsField-IsText (c ∷ s) h = ((h.0.0, h.0.1), IsField-IsText s h.1)

pub length-encode : (ps : List Pair) → length ps ≤ length (encode ps)
unfolding encode
length-encode [] = omega arith
length-encode ((k, v) ∷ ps) = omega (
  arith,
  length-encode ps,
  length-append k (b'\\' ∷ (v ++ encode ps)),
  length-append v (encode ps),
)

pub remove-IsPairs : (key : Bytes) (ps : List Pair) → IsPairs ps → IsPairs (remove key ps)
unfolding remove
remove-IsPairs key [] h = tt
remove-IsPairs key ((k, v) ∷ ps) h = ground (arith, remove-IsPairs key ps h.1)
