-- ===== src/Info/Refine.antt =====
-- The info string functions of src/shared.c do to an encoded list of pairs what `lookup` and
-- `remove` do to the list.
use codextended.Prelude.{
  ℕ, suc, ◌<◌, ◌≤◌, ◌≡◌, refl, false, some, List, [], ◌∷◌, arith, length, Bytes, ok,
}
use codextended.Strings.Compare.{IsText}
use codextended.Info.{
  big_info_string, span_slash, skip_slash, has_byte, value_loop, info_value_for_key,
  info_remove_key,
}
use codextended.Info.Pairs.{
  Pair, encode, IsField, IsPairs, IsField-IsText, lookup, remove, length-encode,
}
use codextended.Info.Parse.{value_loop-lookup, remove_loop-remove}

pub IsField-has_byte : (s : Bytes) → IsField s → has_byte b'\\' s ≡ false
unfolding has_byte
IsField-has_byte [] h = refl
IsField-has_byte (c ∷ s) h = ground (arith, IsField-has_byte s h.1)

value_loop-encode :
    (key : Bytes) (ps : List Pair) (fuel : ℕ)
    → IsText key
    → IsPairs ps
    → length ps ≤ fuel
    → value_loop (suc fuel) key (skip_slash (encode ps)) ≡ some (lookup key ps)
unfolding encode skip_slash value_loop lookup span_slash
value_loop-encode key [] fuel t h f = refl
value_loop-encode key ((k, v) ∷ ps) fuel t h f =
    value_loop-lookup key t (suc fuel) k v ps h.0.0 h.0.1 h.1 (omega arith)

-- On every info string shorter than BIG_INFO_STRING that encodes a list of pairs,
-- `Info_ValueForKey` returns the value of the first pair whose key is the same text, or "".
pub info_value_for_key-lookup :
    (key : Bytes) (ps : List Pair)
    → IsText key
    → IsPairs ps
    → length (encode ps) < big_info_string
    → info_value_for_key (encode ps) key ≡ ok (some (lookup key ps))
unfolding info_value_for_key
info_value_for_key-lookup key ps t h small =
    ground (arith, value_loop-encode key ps (length (encode ps)) t h (length-encode ps))

-- `Info_RemoveKey` takes out the first pair whose key is the same text, and nothing else. A key
-- with a backslash is no field, and is excluded.
pub info_remove_key-remove :
    (limit : ℕ) (key : Bytes) (ps : List Pair)
    → IsField key
    → length key < 99999
    → IsPairs ps
    → length (encode ps) < limit
    → info_remove_key limit (encode ps) key ≡ ok (some (encode (remove key ps)))
unfolding info_remove_key
info_remove_key-remove limit key ps k short h small = ground (
  arith,
  IsField-has_byte key k,
  length-encode ps,
  remove_loop-remove key (IsField-IsText key k) short (suc (length (encode ps))) ps h,
)
