-- ===== src/Strings/Compare.antt =====
-- The case-insensitive comparisons of src/shared.c against an independent description: two texts
-- are equal when their upper-case forms are.
use codextended.Prelude.{
  ℕ, zero, suc, ◌<◌, ◌≡◌, refl, ◌↔◌, Bool, true, false, ◌&&◌, [], ◌∷◌, map, arith, ◌==◌, length,
  All, pos, ◌-ℤ◌, eqb_ℤ, Bytes,
}
use codextended.Strings.{to_upper, stricmp, q_stricmpn, q_stricmp}

-- The bytes of a C string.
abbrev pub IsText : Bytes → Type 0
IsText = All (λ c. (0 < c) × (c < 256))

unfoldable pub same_text : Bytes → Bytes → Bool
same_text [] [] = true
same_text (a ∷ s) (b ∷ t) = to_upper a == to_upper b && same_text s t
same_text _ _ = false

pub same_text_refl : (s : Bytes) → same_text s s ≡ true
unfolding same_text
same_text_refl [] = refl
same_text_refl (a ∷ s) = ground (arith, same_text_refl s)

pub same_text_sym : (s t : Bytes) → same_text s t ≡ same_text t s
unfolding same_text
same_text_sym [] [] = refl
same_text_sym [] (b ∷ t) = refl
same_text_sym (a ∷ s) [] = refl
same_text_sym (a ∷ s) (b ∷ t) = ground (arith, same_text_sym s t)

pub same_text_trans : (s t u : Bytes) → same_text s t ≡ true → same_text s u ≡ same_text t u
unfolding same_text
same_text_trans [] [] u h = refl
same_text_trans [] (b ∷ t) u h = ground arith
same_text_trans (a ∷ s) [] u h = ground arith
same_text_trans (a ∷ s) (b ∷ t) [] h = refl
same_text_trans (a ∷ s) (b ∷ t) (c ∷ u) h = ground (arith, same_text_trans s t u)

pub same_text_iff : (s t : Bytes) → (same_text s t ≡ true) ↔ (map to_upper s ≡ map to_upper t)
unfolding same_text
same_text_iff [] [] = ground arith
same_text_iff [] (b ∷ t) = ground arith
same_text_iff (a ∷ s) [] = ground arith
same_text_iff (a ∷ s) (b ∷ t) = ground (arith, same_text_iff s t)

to_upper_pos : (c : ℕ) → 0 < c → 0 < to_upper c
unfolding to_upper
to_upper_pos c h = ground arith

to_upper_zero : to_upper 0 ≡ 0
unfolding to_upper
to_upper_zero = refl

pub stricmp-same_text :
    (s t : Bytes) → IsText s → IsText t → eqb_ℤ (stricmp s t) (pos 0) ≡ same_text s t
unfolding stricmp same_text ◌-ℤ◌
stricmp-same_text [] [] p q = rw to_upper_zero
stricmp-same_text [] (b ∷ t) p q = ground (arith, to_upper_pos b, to_upper_zero)
stricmp-same_text (a ∷ s) [] p q = ground (arith, to_upper_pos a, to_upper_zero)
stricmp-same_text (a ∷ s) (b ∷ t) p q =
    ground (arith, to_upper_pos a, to_upper_pos b, stricmp-same_text s t p.1 q.1)

pub q_stricmpn-same_text :
    (n : ℕ) (s t : Bytes)
    → IsText s
    → IsText t
    → length s < n
    → eqb_ℤ (q_stricmpn n s t) (pos 0) ≡ same_text s t
unfolding q_stricmpn same_text
q_stricmpn-same_text zero s t p q h = absurd (omega arith)
q_stricmpn-same_text (suc n) [] [] p q h = refl
q_stricmpn-same_text (suc n) [] (b ∷ t) p q h = ground (arith, to_upper_pos b, to_upper_zero)
q_stricmpn-same_text (suc n) (a ∷ s) [] p q h = ground (arith, to_upper_pos a, to_upper_zero)
q_stricmpn-same_text (suc n) (a ∷ s) (b ∷ t) p q h =
    ground (arith, to_upper_pos a, q_stricmpn-same_text n s t p.1 q.1)

-- `Q_stricmp`, which stops after 99999 bytes, and `stricmp` call the same two texts equal, namely
-- those with equal upper-case forms, as long as the first is shorter than that.
pub q_stricmp-stricmp :
    (s t : Bytes)
    → IsText s
    → IsText t
    → length s < 99999
    → (eqb_ℤ (q_stricmp s t) (pos 0) ≡ eqb_ℤ (stricmp s t) (pos 0))
      × ((eqb_ℤ (stricmp s t) (pos 0) ≡ true) ↔ (map to_upper s ≡ map to_upper t))
unfolding q_stricmp
q_stricmp-stricmp s t p q h =
    rw (stricmp-same_text s t p q) (q_stricmpn-same_text 99999 s t p q h, same_text_iff s t)
