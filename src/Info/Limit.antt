-- ===== src/Info/Limit.antt =====
-- How long the results of `Info_SetValueForKey` are, and that the loops end on any string.
use codextended.Prelude.{
  ℕ, zero, suc, ◌+◌, ◌-◌, ◌<◌, ◌≤◌, ◌≡◌, refl, Option, none, some, [], ◌∷◌, ◌++◌, arith, length,
  take, tail, length-append, length-take-le, Bytes, Outcome, ok, err, err_fatal, err_drop,
}
use codextended.Info.{
  span_slash, skip_slash, value_loop, remove_loop, new_pair, append_pair, info_remove_key,
  info_set_value_for_key, info_value_for_key, big_info_string,
}

span_slash-length : (s : Bytes) → length (span_slash s).0 + length (span_slash s).1 ≡ length s
unfolding span_slash
span_slash-length [] = refl
span_slash-length (c ∷ s) = ground (arith, span_slash-length s)

skip_slash-length : (s : Bytes) → length (skip_slash s) ≤ length s
unfolding skip_slash
skip_slash-length [] = omega arith
skip_slash-length (c ∷ s) = ground arith

abbrev Within : ℕ → Option Bytes → Type 0
Within n none = ⊥
Within n (some r) = length r ≤ n

value_loop-Within :
    (fuel : ℕ) (key s : Bytes) → length s < fuel → Within (length s) (value_loop fuel key s)
unfolding value_loop
value_loop-Within zero key s h = absurd (omega arith)
value_loop-Within (suc fuel) key s h =
    let at_value = tail (span_slash s).1 in
    let next = tail (span_slash at_value).1 in
    ground (arith, span_slash-length s, span_slash-length at_value, value_loop-Within fuel key next)

abbrev part : Option Bytes → Bytes
part none = []
part (some r) = r

-- What `remove_loop` puts together, when what is left of the rest is no longer than the rest.
length-take-append :
    (s after : Bytes) (left : Option Bytes)
    → length (take (length s - length after) s ++ part left)
      ≤ length s - length after + length (part left)
length-take-append s after left = omega (
  arith,
  length-append (take (length s - length after) s) (part left),
  length-take-le (length s - length after) s,
)

remove_loop-Within :
    (fuel : ℕ) (key s : Bytes) → length s < fuel → Within (length s) (remove_loop fuel key s)
unfolding remove_loop
remove_loop-Within zero key s h = absurd (omega arith)
remove_loop-Within (suc fuel) key s h =
    let at_value = tail (span_slash (skip_slash s)).1 in
    let after = (span_slash at_value).1 in
    ground (
      arith,
      skip_slash-length s,
      span_slash-length (skip_slash s),
      span_slash-length at_value,
      remove_loop-Within fuel key after,
      length-take-append s after (remove_loop fuel key after),
    )

append_pair-le :
    (limit : ℕ) (s key value : Bytes)
    → length s ≤ limit
    → length (append_pair limit s key value) ≤ limit
unfolding append_pair
append_pair-le limit s key value h = ground (arith, length-append s (new_pair limit key value))

abbrev Kept : ℕ → Outcome (Option Bytes) → Type 0
Kept n (ok (some r)) = length r ≤ n
Kept n _ = ⊥

abbrev removed : Outcome (Option Bytes) → Bytes
removed (ok (some r)) = r
removed _ = []

info_remove_key-Kept :
    (limit : ℕ) (s key : Bytes) → length s < limit → Kept limit (info_remove_key limit s key)
unfolding info_remove_key
info_remove_key-Kept limit s key h = ground (arith, remove_loop-Within (suc (length s)) key s)

Kept-ok :
    (n : ℕ) (o : Outcome (Option Bytes))
    → Kept n o
    → (r : Bytes) × (o ≡ ok (some r)) × (length r ≤ n)
Kept-ok n (ok none) h = absurd h
Kept-ok n (ok (some r)) h = (r, refl, h)
Kept-ok n (err e) h = absurd h

info_value_for_key-Kept :
    (s key : Bytes) → length s < big_info_string → Kept (length s) (info_value_for_key s key)
unfolding info_value_for_key
info_value_for_key-Kept s key h =
    ground (arith, skip_slash-length s, value_loop-Within (suc (length s)) key (skip_slash s))

info_set_value_for_key-Kept :
    (limit : ℕ) (s key value : Bytes)
    → length s < limit
    → Kept limit (info_set_value_for_key limit s key value)
unfolding info_set_value_for_key
info_set_value_for_key-Kept limit s key value h =
    let left = removed (info_remove_key limit s key) in
    ground (arith, info_remove_key-Kept limit s key h, append_pair-le limit left key value)

-- On any string, well formed or not: `Info_ValueForKey` returns a value no longer than the string,
-- or raises the fatal error exactly when the string has BIG_INFO_STRING bytes or more.
pub info_value_for_key_total :
    (s key : Bytes)
    → (length s < big_info_string
        → (r : Bytes) × (info_value_for_key s key ≡ ok (some r)) × (length r ≤ length s))
      × (big_info_string ≤ length s → info_value_for_key s key ≡ err err_fatal)
unfolding info_value_for_key
info_value_for_key_total s key =
    (λ h. Kept-ok (length s) _ (info_value_for_key-Kept s key h), ground arith)

-- On any string and any pair: `Info_SetValueForKey` raises a drop error exactly when the string
-- has `limit` bytes or more, and otherwise returns a string of at most `limit` bytes.
pub info_set_value_for_key_total :
    (limit : ℕ) (s key value : Bytes)
    → (limit ≤ length s → info_set_value_for_key limit s key value ≡ err err_drop)
      × (length s < limit
          → (r : Bytes) × (info_set_value_for_key limit s key value ≡ ok (some r))
            × (length r ≤ limit))
unfolding info_set_value_for_key
info_set_value_for_key_total limit s key value =
    (ground arith, λ h. Kept-ok limit _ (info_set_value_for_key-Kept limit s key value h))
