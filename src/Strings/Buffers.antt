-- ===== src/Strings/Buffers.antt =====
-- The bounded copies of src/shared.c keep the string within its buffer.
use codextended.Prelude.{
  ℕ, zero, suc, ◌-◌, ◌≤◌, ◌<◌, ◌≡◌, ap, [], ◌∷◌, ◌++◌, arith, length, take, length-take-le, Bytes,
  ok, err, err_fatal,
}
use codextended.Strings.{q_strncpyz, q_strcat}

take-append : (n : ℕ) (s t : Bytes) → length s ≤ n → take n (s ++ t) ≡ s ++ take (n - length s) t
take-append n [] t h = ap (λ m. take m t) (omega arith)
take-append zero (x ∷ s) t h = absurd (omega arith)
take-append (suc n) (x ∷ s) t h = ground (arith, take-append n s t)

-- `Q_strcat` raises a fatal error exactly when the buffer is full already; otherwise it leaves the
-- longest prefix of the joined strings that fits with its closing zero, shorter than the buffer.
pub q_strcat-take :
    (dest src : Bytes) (size : ℕ)
    → (size ≤ length dest → q_strcat dest size src ≡ err err_fatal)
      × (length dest < size
          → (q_strcat dest size src ≡ ok (take (size - 1) (dest ++ src)))
            × (length (take (size - 1) (dest ++ src)) < size))
unfolding q_strcat q_strncpyz
q_strcat-take dest src size = (
  ground arith,
  λ h. (
    ground (arith, take-append (size - 1) dest src),
    omega (arith, length-take-le (size - 1) (dest ++ src)),
  ),
)
