-- ===== src/Info/Update.antt =====
-- `Info_SetValueForKey` against the list of pairs.
use mathlib.Core.List.{append-nil, append_assoc}
use codextended.Prelude.{
  is_empty, ℕ, ◌+◌, ◌-◌, ◌<◌, ◌≤◌, ◌≡◌, refl, ap, ◌∙◌, false, some, List, [], ◌∷◌, ◌++◌,
  if◌then◌else◌, arith, length, take_all, length-append, Bytes, ok,
}
use codextended.Info.{has_byte, new_pair, append_pair, info_set_value_for_key}
use codextended.Info.Pairs.{Pair, encode, IsField, IsPairs, remove}
use codextended.Info.Refine.{IsField-has_byte, info_remove_key-remove}

-- A key or value that `Info_SetValueForKey` accepts.
pub record IsClean (s : Bytes) : Type 0 where
  pub field : IsField s
  pub no_semicolon : has_byte b';' s ≡ false
  pub no_quote : has_byte b'"' s ≡ false

-- The list after a set: the old pair goes, and the new one stands at the end unless it is empty.
unfoldable pub update : Bytes → Bytes → List Pair → List Pair
update key value ps = if is_empty value then remove key ps else remove key ps ++ (key, value) ∷ []

encode-append : (ps qs : List Pair) → encode (ps ++ qs) ≡ encode ps ++ encode qs
unfolding encode
encode-append [] qs = refl
encode-append ((k, v) ∷ ps) qs = simp (encode-append ps qs, append_assoc)

length-remove-le :
    (key : Bytes) (ps : List Pair) → length (encode (remove key ps)) ≤ length (encode ps)
unfolding remove encode
length-remove-le key [] = omega arith
length-remove-le key ((k, v) ∷ ps) = ground (
  arith,
  length-remove-le key ps,
  length-append k (b'\\' ∷ (v ++ encode ps)),
  length-append v (encode ps),
  length-append k (b'\\' ∷ (v ++ encode (remove key ps))),
  length-append v (encode (remove key ps)),
)

-- The room that a pair takes.
abbrev pub pair_size : Bytes → Bytes → ℕ
pair_size key value = length key + length value + 2

new_pair-encode :
    (limit : ℕ) (key value : Bytes)
    → pair_size key value < limit
    → new_pair limit key value ≡ encode ((key, value) ∷ [])
unfolding encode
new_pair-encode limit key value h =
    take_all (limit - 1) (b'\\' ∷ (key ++ (b'\\' ∷ value)))
      (omega (arith, length-append key (b'\\' ∷ value)))
    ∙ simp append-nil

length-encode-one : (key value : Bytes) → length (encode ((key, value) ∷ [])) ≡ pair_size key value
unfolding encode
length-encode-one key value =
    omega (arith, length-append key (b'\\' ∷ (value ++ [])), length-append value [])

pub length-update :
    (key value : Bytes) (ps : List Pair)
    → length (encode (update key value ps)) ≤ pair_size key value + length (encode (remove key ps))
unfolding update
length-update key value ps = ground (
  arith,
  ap length (encode-append (remove key ps) ((key, value) ∷ [])),
  length-append (encode (remove key ps)) (encode ((key, value) ∷ [])),
  length-encode-one key value,
)

append_pair-update :
    (limit : ℕ) (key value : Bytes) (ps : List Pair)
    → pair_size key value + length (encode (remove key ps)) ≤ limit
    → pair_size key value < limit
    → append_pair limit (encode (remove key ps)) key value ≡ encode (update key value ps)
unfolding append_pair update
append_pair-update limit key value ps fits short = ground (
  arith,
  new_pair-encode limit key value short,
  length-encode-one key value,
  encode-append (remove key ps) ((key, value) ∷ []),
)

module _ (limit : ℕ) (key value : Bytes) (ps : List Pair) (k : IsClean key) (v : IsClean value)
    (h : IsPairs ps) where
  -- With room for the pair, `Info_SetValueForKey` drops the old pair of that key and adds the new
  -- one at the end; an empty value only drops.
  pub info_set_value_for_key-update :
      length (encode ps) < limit
      → length key < 99999
      → pair_size key value < limit
      → pair_size key value + length (encode (remove key ps)) ≤ limit
      → info_set_value_for_key limit (encode ps) key value
        ≡ ok (some (encode (update key value ps)))
  unfolding info_set_value_for_key
  info_set_value_for_key-update small short p fits = ground (
    arith,
    k.no_semicolon,
    v.no_semicolon,
    k.no_quote,
    v.no_quote,
    IsField-has_byte key k.field,
    IsField-has_byte value v.field,
    info_remove_key-remove limit key ps k.field short h small,
    append_pair-update limit key value ps fits p,
  )

-- The length test lets a string of `limit` bytes through, one more than a buffer of `limit` bytes
-- holds with its closing zero: whenever pair and remainder add up to `limit`, `strcat` writes the
-- zero one byte past the end.
pub set-overflows :
    (limit c : ℕ) (key value : Bytes) (ps : List Pair)
    → IsClean key
    → IsClean (c ∷ value)
    → IsPairs ps
    → length key < 99999
    → length (encode ps) < limit
    → pair_size key (c ∷ value) < limit
    → pair_size key (c ∷ value) + length (encode (remove key ps)) ≡ limit
    → (s : Bytes) × (info_set_value_for_key limit (encode ps) key (c ∷ value) ≡ ok (some s))
      × (length s ≡ limit)
set-overflows limit c key value ps ck cv h short small p full = (
  encode (update key (c ∷ value) ps),
  info_set_value_for_key-update limit key (c ∷ value) ps ck cv h small short p (omega arith),
  unfold update in
      omega (
        arith,
        ap length (encode-append (remove key ps) ((key, c ∷ value) ∷ [])),
        length-append (encode (remove key ps)) (encode ((key, c ∷ value) ∷ [])),
        length-encode-one key (c ∷ value),
      ),
)

-- When the pair does not fit, the old pair of that key is gone all the same.
pub set-loses :
    (limit c : ℕ) (key value : Bytes) (ps : List Pair)
    → IsClean key
    → IsClean (c ∷ value)
    → IsPairs ps
    → length key < 99999
    → length (encode ps) < limit
    → pair_size key (c ∷ value) < limit
    → limit < pair_size key (c ∷ value) + length (encode (remove key ps))
    → info_set_value_for_key limit (encode ps) key (c ∷ value) ≡ ok (some (encode (remove key ps)))
unfolding info_set_value_for_key append_pair
set-loses limit c key value ps ck cv h short small p over = ground (
  arith,
  ck.no_semicolon,
  cv.no_semicolon,
  ck.no_quote,
  cv.no_quote,
  IsField-has_byte key ck.field,
  IsField-has_byte (c ∷ value) cv.field,
  info_remove_key-remove limit key ps ck.field short h small,
  new_pair-encode limit key (c ∷ value) p,
  length-encode-one key (c ∷ value),
)
