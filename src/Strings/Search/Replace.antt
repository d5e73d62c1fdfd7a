-- ===== src/Strings/Search/Replace.antt =====
-- `str_replace` against a description by one scan from left to right, and the size of its buffer.
use codextended.Prelude.{
  ℕ, zero, suc, ◌+◌, ◌-◌, ◌*◌, ◌≤◌, ◌≡◌, refl, ap, true, false, not, ◌||◌, none, some, Option-cases,
  [], ◌∷◌, ◌++◌, if◌then◌else◌, length, length-append, take, drop, length-drop, length-take,
  drop-drop, Bytes, is_empty, arith, inl, inr, ◌⊎◌, Bool-cases,
}
use codextended.Strings.Search.{
  starts_with, strstr, place_of, null, text, count_loop, before, replace_loop, str_replace,
  count_of,
}

-- One scan: at each place the text to replace, if it stands there, or the byte; `skip` bytes belong
-- to what was replaced.
abbrev pub scanned : ℕ → Bytes → Bytes → Bytes → Bytes
scanned skip [] rep with = []
scanned (suc skip) (c ∷ s) rep with = scanned skip s rep with
scanned zero (c ∷ s) rep with =
    if starts_with rep (c ∷ s)
    then with ++ scanned (length rep - 1) s rep with
    else c ∷ scanned zero s rep with

scanned_nil : (k : ℕ) (rep with : Bytes) → scanned k [] rep with ≡ []
scanned_nil zero rep with = refl
scanned_nil (suc k) rep with = refl

scanned-drop : (k : ℕ) (s rep with : Bytes) → scanned k s rep with ≡ scanned 0 (drop k s) rep with
scanned-drop zero s rep with = refl
scanned-drop (suc k) [] rep with = refl
scanned-drop (suc k) (c ∷ s) rep with = scanned-drop k s rep with

-- What follows a place.
abbrev after_place : Bytes → Bytes → ℕ → Bytes
after_place s rep n = drop (n + length rep) s

starts_with-length : (sub s : Bytes) → starts_with sub s ≡ true → length sub ≤ length s
unfolding starts_with
starts_with-length [] s e = omega arith
starts_with-length (x ∷ sub) [] e = absurd (cc)
starts_with-length (x ∷ sub) (c ∷ s) e = ground (arith, starts_with-length sub s)

place_zero :
    (c : ℕ) (s sub : Bytes) → place_of (c ∷ s) sub ≡ some 0 → starts_with sub (c ∷ s) ≡ true
unfolding place_of
place_zero c s sub e = elim (Option-cases (place_of s sub)) [
  | inl n ↦ ground arith
  | inr (m, f) ↦ ground arith
]

place_suc :
    (c m : ℕ) (s sub : Bytes)
    → place_of (c ∷ s) sub ≡ some (suc m)
    → (starts_with sub (c ∷ s) ≡ false) × (place_of s sub ≡ some m)
unfolding place_of
place_suc c m s sub e = elim (Option-cases (place_of s sub)) [
  | inl n ↦ ground arith
  | inr (k, f) ↦ ground arith
]

place_none :
    (c : ℕ) (s sub : Bytes)
    → place_of (c ∷ s) sub ≡ none
    → (starts_with sub (c ∷ s) ≡ false) × (place_of s sub ≡ none)
unfolding place_of
place_none c s sub e = elim (Option-cases (place_of s sub)) [
  | inl n ↦ ground arith
  | inr (k, f) ↦ ground arith
]

place_nil : (x n : ℕ) (sub : Bytes) → ¬ (place_of [] (x ∷ sub) ≡ some n)
unfolding place_of starts_with
place_nil x n sub e = absurd (ground arith)

scanned-some :
    (s with : Bytes) (x : ℕ) (sub : Bytes) (n : ℕ)
    → place_of s (x ∷ sub) ≡ some n
    → (scanned 0 s (x ∷ sub) with
        ≡ (take n s ++ with) ++ scanned 0 (after_place s (x ∷ sub) n) (x ∷ sub) with)
      × (n + suc (length sub) ≤ length s)
scanned-some [] with x sub n e = absurd (place_nil x n sub e)
scanned-some (c ∷ s) with x sub zero e =
    let hit = place_zero c s (x ∷ sub) e in
    let pred : suc (length sub) - 1 ≡ length sub = omega arith in
    let start : 0 + suc (length sub) ≡ suc (length sub) = omega arith in
    (
      rw (hit, pred, start) (ap (λ t. with ++ t) (scanned-drop (length sub) s (x ∷ sub) with)),
      omega (arith, starts_with-length (x ∷ sub) (c ∷ s) hit),
    )
scanned-some (c ∷ s) with x sub (suc n) e =
    let (miss, f) = place_suc c n s (x ∷ sub) e in
    let rest = scanned-some s with x sub n f in
    let shift : suc n + suc (length sub) ≡ suc (n + suc (length sub)) = omega arith in
    (rw (miss, shift) (ap (λ t. c ∷ t) rest.0), omega (arith, rest.1))

scanned-none : (s rep with : Bytes) → place_of s rep ≡ none → scanned 0 s rep with ≡ s
scanned-none [] rep with e = refl
scanned-none (c ∷ s) rep with e =
    let (miss, f) = place_none c s rep e in rw miss (ap (λ t. c ∷ t) (scanned-none s rep with f))

count-none : (fuel : ℕ) (s rep : Bytes) → place_of s rep ≡ none → count_loop (suc fuel) s rep ≡ 0
unfolding count_loop
count-none fuel s rep e = ground arith

count-some :
    (fuel n : ℕ) (s rep : Bytes)
    → place_of s rep ≡ some n
    → count_loop (suc fuel) s rep ≡ suc (count_loop fuel (after_place s rep n) rep)
unfolding count_loop
count-some fuel n s rep e = ground arith

replace-some :
    (count n : ℕ) (s rep with : Bytes)
    → place_of s rep ≡ some n
    → replace_loop (suc count) s rep with
      ≡ before (take n s ++ with) (replace_loop count (after_place s rep n) rep with)
unfolding replace_loop
replace-some count n s rep with e = ground arith

-- What the loop copies, with the places that were counted, and its length.
replace_loop-scanned :
    (fuel : ℕ) (s with : Bytes) (x : ℕ) (sub : Bytes)
    → length s ≤ fuel
    → (replace_loop (count_loop fuel s (x ∷ sub)) s (x ∷ sub) with
        ≡ text (scanned 0 s (x ∷ sub) with))
      × (length (scanned 0 s (x ∷ sub) with) + count_loop fuel s (x ∷ sub) * suc (length sub)
          ≡ length s + count_loop fuel s (x ∷ sub) * length with)
replace_loop-scanned zero [] with x sub h = unfold replace_loop count_loop in (refl, omega arith)
replace_loop-scanned zero (c ∷ s) with x sub h = absurd (omega arith)
replace_loop-scanned (suc fuel) s with x sub h = elim (Option-cases (place_of s (x ∷ sub))) [
  | inl none_left ↦
      rw (count-none fuel s (x ∷ sub) none_left, scanned-none s (x ∷ sub) with none_left)
        (unfold replace_loop in refl, omega arith)
  | inr (n, found) ↦
      let t = after_place s (x ∷ sub) n in
      let (e, room) = scanned-some s with x sub n found in
      let d = length-drop (n + suc (length sub)) s room in
      let rest = replace_loop-scanned fuel t with x sub (omega (arith, d)) in
      let k = count_loop fuel t (x ∷ sub) in
      let r = scanned 0 t (x ∷ sub) with in
      let sizes : length ((take n s ++ with) ++ r) ≡ n + length with + length r = omega (
        arith,
        length-append {0} (take n s ++ with) r,
        length-append {0} (take n s) with,
        length-take n s (omega arith),
      ) in
      rw (count-some fuel n s (x ∷ sub) found, replace-some k n s (x ∷ sub) with found, e, rest.0)
        (refl, omega (arith, sizes, d, rest.1))
]

strstr-some :
    (s sub : Bytes)
    → strstr s sub ≡ true
    → (n : ℕ) × (place_of s sub ≡ some n) × (place_of (drop n s) sub ≡ some 0)
unfolding strstr place_of
strstr-some [] sub e = (0, ground arith, ground arith)
strstr-some (c ∷ s) sub e = elim (Bool-cases (starts_with sub (c ∷ s))) [
  | inl hit ↦ (0, rw hit refl, rw hit refl)
  | inr miss ↦
      let (n, found, again) = strstr-some s sub (rw miss at e) in
      (suc n, rw (miss, found) refl, again)
]

-- Counting from the first place on and counting from the start come to the same.
count-first :
    (fuel n : ℕ) (s rep : Bytes)
    → place_of s rep ≡ some n
    → place_of (drop n s) rep ≡ some 0
    → count_loop fuel (drop n s) rep ≡ count_loop fuel s rep
count-first zero n s rep e f = unfold count_loop in refl
count-first (suc fuel) n s rep e f =
    let start : 0 + length rep ≡ length rep = omega arith in
    rw
      (
        count-some fuel 0 (drop n s) rep f,
        count-some fuel n s rep e,
        start,
        drop-drop n (length rep) s,
      )
      refl

count_of-some : (s rep : Bytes) → strstr s rep ≡ true → count_of s rep ≡ count_loop (length s) s rep
unfolding count_of
count_of-some s rep hit =
    let (n, found, again) = strstr-some s rep hit in
    ground (arith, found, count-first (length s) n s rep found again)

-- `str_replace` returns NULL exactly for an empty text to replace and where none stands; otherwise it
-- returns, and the result is the scan from left to right, of the length that was allocated: the
-- original's, and for each place counted the difference of the two texts.
pub str_replace-scanned :
    (orig rep with : Bytes)
    → ((is_empty rep || not (strstr orig rep) ≡ true) × (str_replace orig rep with ≡ null))
      ⊎ ((is_empty rep || not (strstr orig rep) ≡ false)
          × (str_replace orig rep with ≡ text (scanned 0 orig rep with))
          × (length (scanned 0 orig rep with) + count_of orig rep * length rep
              ≡ length orig + count_of orig rep * length with))
unfolding str_replace
str_replace-scanned orig [] with = inl (refl, refl)
str_replace-scanned orig (x ∷ sub) with = elim (Bool-cases (strstr orig (x ∷ sub))) [
  | inr miss ↦ rw miss (inl (refl, refl))
  | inl hit ↦
      let (copied, size) = replace_loop-scanned (length orig) orig with x sub (omega arith) in
      inr (rw (hit, count_of-some orig (x ∷ sub) hit) (refl, copied, size))
]
