-- ===== src/Examples/InfoAt.antt =====
-- The info string functions at concrete inputs.
use codextended.Prelude.{
  ◌≡◌, ◌≤◌, ◌<◌, refl, some, List, [], ◌∷◌, arith, length, Bytes, codes, ok, err, err_drop,
  if◌then◌else◌, ◌-ℤ◌,
}
use codextended.Strings.Compare.{same_text}
use codextended.Strings.{to_upper, stricmp, q_stricmp, q_stricmpn}
use codextended.Info.{
  info_value_for_key, info_remove_key, info_set_value_for_key, span_slash, skip_slash, has_byte,
}
use codextended.Info.Pairs.{Pair, encode, lookup, contains, remove, has_distinct_keys}
use codextended.Info.Refine.{info_value_for_key-lookup, info_remove_key-remove}
use codextended.Info.Update.{IsClean, update, info_set_value_for_key-update, set-overflows}
use codextended.Info.ReadBack.{value-set}
use codextended.Info.Limit.{info_set_value_for_key_total}

abbrev alias : Bytes
alias = codes "no\\pair"

abbrev userinfo : List Pair
userinfo = (codes "name", codes "Ann") ∷ (codes "rate", codes "5000") ∷ []

encode-userinfo : encode userinfo ≡ codes "\\name\\Ann\\rate\\5000"
unfolding encode
encode-userinfo = refl

set_name :
    info_set_value_for_key 1024 (codes "\\name\\Ann\\rate\\5000") (codes "NAME") (codes "Bo")
    ≡ ok (some (codes "\\rate\\5000\\NAME\\Bo"))
unfolding info_set_value_for_key span_slash q_stricmp q_stricmpn to_upper skip_slash
set_name = refl

refuse_semicolon :
    info_set_value_for_key 1024 (codes "\\a\\b") (codes "c") (codes "d;e")
    ≡ ok (some (codes "\\a\\b"))
unfolding info_set_value_for_key
refuse_semicolon = refl

value_of_rate :
    info_value_for_key (codes "\\name\\Ann\\rate\\5000") (codes "Rate") ≡ ok (some (codes "5000"))
unfolding info_value_for_key span_slash stricmp to_upper ◌-ℤ◌
value_of_rate = refl

name-IsClean : IsClean (codes "name")
unfolding has_byte
name-IsClean = record { field = omega arith; no_semicolon = refl; no_quote = refl }

value-IsClean : IsClean (codes "Bo")
unfolding has_byte
value-IsClean = record { field = omega arith; no_semicolon = refl; no_quote = refl }

info_value_for_key-lookup_example :
    info_value_for_key (encode userinfo) (codes "RATE") ≡ ok (some (lookup (codes "RATE") userinfo))
unfolding encode
info_value_for_key-lookup_example =
    info_value_for_key-lookup (codes "RATE") userinfo (omega arith) (omega arith) (omega arith)

info_remove_key-remove_example :
    info_remove_key 1024 (encode userinfo) (codes "name")
    ≡ ok (some (encode (remove (codes "name") userinfo)))
unfolding encode
info_remove_key-remove_example =
    info_remove_key-remove 1024 (codes "name") userinfo (omega arith) (omega arith) (omega arith)
      (omega arith)

info_set_value_for_key_total_example :
    (8 ≤ length alias → info_set_value_for_key 8 alias (codes "k") (codes "v") ≡ err err_drop)
    × (length alias < 8
        → (r : Bytes) × (info_set_value_for_key 8 alias (codes "k") (codes "v") ≡ ok (some r))
          × (length r ≤ 8))
info_set_value_for_key_total_example = info_set_value_for_key_total 8 alias (codes "k") (codes "v")

info_set_value_for_key-update_example :
    info_set_value_for_key 1024 (encode userinfo) (codes "name") (codes "Bo")
    ≡ ok (some (encode (update (codes "name") (codes "Bo") userinfo)))
unfolding encode remove same_text to_upper
info_set_value_for_key-update_example =
    info_set_value_for_key-update 1024 (codes "name") (codes "Bo") userinfo name-IsClean
      value-IsClean (omega arith) (omega arith) (omega arith) (omega arith) (omega arith)

value-set_example :
    (s : Bytes) × (info_set_value_for_key 1024 (encode userinfo) (codes "name") (codes "Bo")
      ≡ ok (some s))
    × (info_value_for_key s (codes "NAME")
        ≡ ok (
            some (
              if same_text (codes "NAME") (codes "name")
              then codes "Bo"
              else lookup (codes "NAME") userinfo)))
unfolding encode remove same_text to_upper has_distinct_keys contains
value-set_example =
    value-set 1024 (codes "name") (codes "Bo") (codes "NAME") userinfo name-IsClean value-IsClean
      (omega arith) (omega arith) refl (omega arith) (omega arith) (omega arith) (omega arith)

abbrev small : List Pair
small = (codes "c", codes "d") ∷ []

a-IsClean : IsClean (codes "a")
unfolding has_byte
a-IsClean = record { field = omega arith; no_semicolon = refl; no_quote = refl }

bcd-IsClean : IsClean (codes "bcd")
unfolding has_byte
bcd-IsClean = record { field = omega arith; no_semicolon = refl; no_quote = refl }

set-overflows_example :
    (s : Bytes) × (info_set_value_for_key 10 (encode small) (codes "a") (codes "bcd") ≡ ok (some s))
    × (length s ≡ 10)
unfolding encode remove same_text to_upper
set-overflows_example =
    set-overflows 10 b'b' (codes "a") (codes "cd") small a-IsClean bcd-IsClean (omega arith)
      (omega arith) (omega arith) (omega arith) refl
