-- ===== src/Info/ReadBack.antt =====
-- Reading a key back after `Info_SetValueForKey`.
use codextended.Prelude.{
  ℕ, ◌+◌, ◌<◌, ◌≤◌, ◌≡◌, refl, ap, ◌∙◌, true, false, some, List, [], ◌∷◌, ◌++◌, if◌then◌else◌,
  arith, length, All-append, Bytes, ok, Bool-cases, inl, inr,
}
use codextended.Strings.Compare.{same_text, IsText, same_text_sym, same_text_trans}
use codextended.Info.{big_info_string, info_value_for_key, info_set_value_for_key}
use codextended.Info.Pairs.{
  Pair, encode, IsField, IsPairs, lookup, contains, remove, has_distinct_keys, remove-IsPairs,
}
use codextended.Info.Refine.{info_value_for_key-lookup}
use codextended.Info.Update.{
  IsClean, update, pair_size, length-update, info_set_value_for_key-update,
}

contains-lookup : (k : Bytes) (ps : List Pair) → contains k ps ≡ false → lookup k ps ≡ []
unfolding contains lookup
contains-lookup k [] h = refl
contains-lookup k ((j, v) ∷ ps) h = ground (arith, contains-lookup k ps)

lookup-append :
    (k : Bytes) (ps qs : List Pair)
    → lookup k (ps ++ qs) ≡ (if contains k ps then lookup k ps else lookup k qs)
unfolding contains lookup
lookup-append k [] qs = refl
lookup-append k ((j, v) ∷ ps) qs = ground (arith, lookup-append k ps qs)

contains-same_text :
    (k j : Bytes) (ps : List Pair) → same_text k j ≡ true → contains k ps ≡ contains j ps
unfolding contains
contains-same_text k j [] h = refl
contains-same_text k j ((i, v) ∷ ps) h =
    ground (arith, same_text_trans k j i h, contains-same_text k j ps h)

contains-remove :
    (k : Bytes) (ps : List Pair) → has_distinct_keys ps ≡ true → contains k (remove k ps) ≡ false
unfolding contains remove has_distinct_keys
contains-remove k [] h = refl
contains-remove k ((j, v) ∷ ps) h = ground (arith, contains-same_text k j ps, contains-remove k ps)

same_text_ne :
    (k j i : Bytes) → same_text k j ≡ false → same_text j i ≡ true → same_text k i ≡ false
same_text_ne k j i n h =
    ground (arith, same_text_trans j i k h, same_text_sym k j, same_text_sym k i)

lookup-remove_ne :
    (k j : Bytes) (ps : List Pair)
    → same_text k j ≡ false
    → (lookup k (remove j ps) ≡ lookup k ps) × (contains k (remove j ps) ≡ contains k ps)
unfolding lookup remove contains
lookup-remove_ne k j [] h = (refl, refl)
lookup-remove_ne k j ((i, v) ∷ ps) h =
    ground (arith, same_text_ne k j i h, lookup-remove_ne k j ps h)

lookup-one :
    (k key value : Bytes) → lookup k ((key, value) ∷ []) ≡ (if same_text k key then value else [])
unfolding lookup
lookup-one k key value = refl

pub lookup-update :
    (k key value : Bytes) (ps : List Pair)
    → has_distinct_keys ps ≡ true
    → lookup k (update key value ps) ≡ (if same_text k key then value else lookup k ps)
unfolding update
lookup-update k key value ps d = elim (Bool-cases (same_text k key)) [
  | inl e ↦ ground (
    arith,
    lookup-append k (remove key ps) ((key, value) ∷ []),
    contains-same_text k key (remove key ps) e,
    contains-remove key ps d,
    contains-lookup k (remove key ps),
    lookup-one k key value,
  )
  | inr n ↦ ground (
    arith,
    lookup-append k (remove key ps) ((key, value) ∷ []),
    lookup-remove_ne k key ps n,
    contains-lookup k ps,
    lookup-one k key value,
  )
]

update-IsPairs :
    (key value : Bytes) (ps : List Pair)
    → IsField key
    → IsField value
    → IsPairs ps
    → IsPairs (update key value ps)
unfolding update
update-IsPairs key value ps k v h = ground (
  arith,
  remove-IsPairs key ps h,
  All-append (λ ((k, v) : Pair). IsField k × IsField v) (remove key ps) ((key, value) ∷ [])
      (remove-IsPairs key ps h) ((k, v), tt),
)

-- Reading back, on a string that encodes pairs whose keys are distinct, also in upper and lower case:
-- after a set that had room, `Info_ValueForKey` gives the new value for that key, in upper or lower
-- case, and the old value for every other key. (With a key that stands twice, only its first pair is
-- taken away, and the old value of the second is read back.)
pub value-set :
    (limit : ℕ) (key value k : Bytes) (ps : List Pair)
    → IsClean key
    → IsClean value
    → IsText k
    → IsPairs ps
    → has_distinct_keys ps ≡ true
    → length (encode ps) < limit
    → limit < big_info_string
    → pair_size key value < limit
    → pair_size key value + length (encode (remove key ps)) ≤ limit
    → (s : Bytes) × (info_set_value_for_key limit (encode ps) key value ≡ ok (some s))
      × (info_value_for_key s k ≡ ok (some (if same_text k key then value else lookup k ps)))
value-set limit key value k ps ck cv t h d small big p fits = (
  encode (update key value ps),
  info_set_value_for_key-update limit key value ps ck cv h small (omega arith) p fits,
  info_value_for_key-lookup k (update key value ps) t
        (update-IsPairs key value ps ck.field cv.field h)
        (omega (arith, length-update key value ps))
      ∙ ap (λ r. ok (some r)) (lookup-update k key value ps d),
)
