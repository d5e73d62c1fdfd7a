-- ===== src/Info/Parse.antt =====
-- The loops of the info string functions, run over an encoded list of pairs.
use mathlib.Core.List.{append-nil, append_assoc}
use codextended.Prelude.{
  sym, ap, ◌∙◌, ℕ, zero, suc, ◌-◌, ◌<◌, ◌≡◌, refl, some, List, [], ◌∷◌, ◌++◌, arith, length,
  length-append, take, Bytes, pos, eqb_ℤ,
}
use codextended.Strings.{q_stricmp}
use codextended.Strings.Compare.{same_text, IsText, stricmp-same_text, q_stricmpn-same_text}
use codextended.Info.{span_slash, skip_slash, value_loop, remove_loop}
use codextended.Info.Pairs.{Pair, encode, IsField, IsPairs, IsField-IsText, lookup, remove}

pub span_slash-slash : (k t : Bytes) → IsField k → span_slash (k ++ (b'\\' ∷ t)) ≡ (k, b'\\' ∷ t)
unfolding span_slash
span_slash-slash [] t h = refl
span_slash-slash (c ∷ k) t h = ground (arith, span_slash-slash k t h.1)

pub span_slash-encode :
    (v : Bytes) (ps : List Pair) → IsField v → span_slash (v ++ encode ps) ≡ (v, encode ps)
unfolding span_slash encode
span_slash-encode [] [] h = refl
span_slash-encode [] ((k, w) ∷ ps) h = refl
span_slash-encode (c ∷ v) ps h = ground (arith, span_slash-encode v ps h.1)

module _ (key : Bytes) (text : IsText key) where
  pub value_loop-lookup :
      (fuel : ℕ) (k v : Bytes) (ps : List Pair)
      → IsField k
      → IsField v
      → IsPairs ps
      → length ps < fuel
      → value_loop fuel key (k ++ (b'\\' ∷ (v ++ encode ps))) ≡ some (lookup key ((k, v) ∷ ps))
  unfolding value_loop lookup encode
  value_loop-lookup zero k v ps hk hv hps f = absurd (omega arith)
  value_loop-lookup (suc fuel) k v [] hk hv hps f = ground (
    arith,
    span_slash-slash k (v ++ encode []) hk,
    span_slash-encode v [] hv,
    stricmp-same_text key k text (IsField-IsText k hk),
  )
  value_loop-lookup (suc fuel) k v ((k', v') ∷ ps) hk hv hps f = ground (
    arith,
    span_slash-slash k (v ++ encode ((k', v') ∷ ps)) hk,
    span_slash-encode v ((k', v') ∷ ps) hv,
    stricmp-same_text key k text (IsField-IsText k hk),
    value_loop-lookup fuel k' v' ps hps.0.0 hps.0.1 hps.1,
  )

take-length-append : (a e : Bytes) → take (length a) (a ++ e) ≡ a
take-length-append [] e = refl
take-length-append (x ∷ a) e = rw (take-length-append a e)

take-front : (a e : Bytes) → take (length (a ++ e) - length e) (a ++ e) ≡ a
take-front a e =
    ap (λ m. take m (a ++ e)) (omega (arith, length-append a e)) ∙ take-length-append a e

-- The bytes of the first pair, with any bytes behind them.
first_pair : Bytes → Bytes → Bytes → Bytes
first_pair k v e = b'\\' ∷ (k ++ (b'\\' ∷ (v ++ e)))

first_pair-append : (k v e : Bytes) → first_pair k v e ≡ first_pair k v [] ++ e
unfolding first_pair
first_pair-append k v e = simp (append_assoc, append-nil)

-- What the loop writes before the part that it has cleaned.
take-first_pair :
    (k v e left : Bytes)
    → take (length (first_pair k v e) - length e) (first_pair k v e) ++ left ≡ first_pair k v left
take-first_pair k v e left =
    rw (first_pair-append k v e, take-front (first_pair k v []) e)
      (sym (first_pair-append k v left))

module _ (key : Bytes) (text : IsText key) (short : length key < 99999) where
  same : (k : Bytes) → IsField k → eqb_ℤ (q_stricmp key k) (pos 0) ≡ same_text key k
  unfolding q_stricmp
  same k h = q_stricmpn-same_text 99999 key k text (IsField-IsText k h) short

  pub remove_loop-remove :
      (fuel : ℕ) (ps : List Pair)
      → IsPairs ps
      → length ps < fuel
      → remove_loop fuel key (encode ps) ≡ some (encode (remove key ps))
  unfolding remove_loop remove encode span_slash skip_slash first_pair
  remove_loop-remove zero ps h f = absurd (omega arith)
  remove_loop-remove (suc fuel) [] h f = refl
  remove_loop-remove (suc fuel) ((k, v) ∷ []) h f =
      ground (
        arith,
        span_slash-slash k (v ++ encode []) h.0.0,
        span_slash-encode v [] h.0.1,
        same k h.0.0,
      )
  remove_loop-remove (suc fuel) ((k, v) ∷ (k', v') ∷ ps) h f = ground (
    arith,
    span_slash-slash k (v ++ encode ((k', v') ∷ ps)) h.0.0,
    span_slash-encode v ((k', v') ∷ ps) h.0.1,
    same k h.0.0,
    take-first_pair k v (encode ((k', v') ∷ ps)) (encode (remove key ((k', v') ∷ ps))),
    remove_loop-remove fuel ((k', v') ∷ ps) h.1,
  )
