-- ===== src/Localized/Again.antt =====
-- Asking twice for the number of a localized string.
use codextended.Prelude.{
  ℕ, zero, suc, ◌+◌, ◌≡◌, ◌≤◌, ◌<◌, ◌⊎◌, refl, sym, ap, subst, ◌∙◌, Bool, true, false, ◌==◌, ==_iff,
  leb, [], ◌∷◌, take, length, write, is_empty, Bytes, Bool-cases, inl, inr, arith,
}
use codextended.Net.{bytes_eq}
use codextended.Net.Laws.{bytes_eq_iff}
use codextended.Prelude.{take_all, inl, inr}
use codextended.Localized.{
  Indices, start, Place, found, free, full, localized_loop, add_at, in_range, add_found,
  x_localized_string_index,
}

abbrev at_place : Place → ℕ
at_place (found i) = i
at_place (free i) = i
at_place full = 0

abbrev is_full : Place → Bool
is_full (found i) = false
is_full (free i) = false
is_full full = true

abbrev is_free_place : Place → Bool
is_free_place (found i) = false
is_free_place (free i) = true
is_free_place full = false

-- What `write` leaves at the place that it writes, and at the others.
write_here :
    (cs : ℕ → Bytes) (str : Bytes) (i k : ℕ) → i ≡ k → write cs (k + start) str (start + i) ≡ str
write_here cs str i k e =
    let h : (start + i == k + start) ≡ true = (==_iff _ _).1 (omega (arith, e)) in rw h refl

write_there :
    (cs : ℕ → Bytes) (str : Bytes) (i k : ℕ)
    → (i == k) ≡ false
    → write cs (k + start) str (start + i) ≡ cs (start + i)
write_there cs str i k n = let h : (start + i == k + start) ≡ false = ground (arith, n) in rw h refl

module _ (str : Bytes) (some_text : is_empty (take 1023 str) ≡ false)
    (whole : bytes_eq (take 1023 str) str ≡ true) where
  -- One round of the search.
  round_free :
      (left i : ℕ) (cs : ℕ → Bytes)
      → is_empty (take 1023 (cs (start + i))) ≡ true
      → localized_loop (suc left) i cs str ≡ free i
  unfolding localized_loop
  round_free left i cs a = rw a refl

  round_found :
      (left i : ℕ) (cs : ℕ → Bytes)
      → cs (start + i) ≡ str
      → localized_loop (suc left) i cs str ≡ found i
  unfolding localized_loop
  round_found left i cs e = rw (e, some_text, whole) refl

  round_same :
      (left i : ℕ) (cs : ℕ → Bytes)
      → is_empty (take 1023 (cs (start + i))) ≡ false
      → bytes_eq (take 1023 (cs (start + i))) str ≡ true
      → localized_loop (suc left) i cs str ≡ found i
  unfolding localized_loop
  round_same left i cs a b = rw (a, b) refl

  round_next :
      (left i : ℕ) (cs : ℕ → Bytes)
      → is_empty (take 1023 (cs (start + i))) ≡ false
      → bytes_eq (take 1023 (cs (start + i))) str ≡ false
      → localized_loop (suc left) i cs str ≡ localized_loop left (suc i) cs str
  unfolding localized_loop
  round_next left i cs a b = rw (a, b) refl

  end_full : (i : ℕ) (cs : ℕ → Bytes) → localized_loop zero i cs str ≡ full
  unfolding localized_loop
  end_full i cs = refl

  -- A place that is free is not before the first.
  free_from : (left i k : ℕ) (cs : ℕ → Bytes) → localized_loop left i cs str ≡ free k → i ≤ k
  free_from zero i k cs e =
      let q : false ≡ true = ap is_free_place (sym (end_full i cs) ∙ e) in
      absurd (ground (arith, q))
  free_from (suc left) i k cs e = elim (Bool-cases (is_empty (take 1023 (cs (start + i))))) [
    | inl a ↦ let q : i ≡ k = ap at_place (sym (round_free left i cs a) ∙ e) in omega (arith, q)
    | inr a ↦ elim (Bool-cases (bytes_eq (take 1023 (cs (start + i))) str)) [
      | inl b ↦
          let q : false ≡ true = ap is_free_place (sym (round_same left i cs a b) ∙ e) in
          absurd (ground (arith, q))
      | inr b ↦
          let q = free_from left (suc i) k cs (sym (round_next left i cs a b) ∙ e) in
          omega (arith, q)
    ]
  ]

  -- The search after `str` was written at the free place that it had ended at.
  free-found :
      (left i k : ℕ) (cs : ℕ → Bytes)
      → localized_loop left i cs str ≡ free k
      → localized_loop left i (write cs (k + start) str) str ≡ found k
  free-found zero i k cs e =
      let q : false ≡ true = ap is_free_place (sym (end_full i cs) ∙ e) in
      absurd (ground (arith, q))
  free-found (suc left) i k cs e = elim (Bool-cases (is_empty (take 1023 (cs (start + i))))) [
    | inl a ↦
        let q : i ≡ k = ap at_place (sym (round_free left i cs a) ∙ e) in
        round_found left i (write cs (k + start) str) (write_here cs str i k q) ∙ ap found q
    | inr a ↦ elim (Bool-cases (bytes_eq (take 1023 (cs (start + i))) str)) [
      | inl b ↦
          let q : false ≡ true = ap is_free_place (sym (round_same left i cs a b) ∙ e) in
          absurd (ground (arith, q))
      | inr b ↦
          let next = sym (round_next left i cs a b) ∙ e in
          let later = free_from left (suc i) k cs next in
          let n : (i == k) ≡ false = ground (arith, later) in
          let w = sym (write_there cs str i k n) in
          round_next left i (write cs (k + start) str)
            (subst (λ t. is_empty (take 1023 t) ≡ false) w a)
            (subst (λ t. bytes_eq (take 1023 t) str ≡ false) w b)
          ∙ free-found left (suc i) k cs next
    ]
  ]

  -- The same when it had found no place, and `str` was written at one of those that it had seen.
  full-found :
      (left i k : ℕ) (cs : ℕ → Bytes)
      → localized_loop left i cs str ≡ full
      → i ≤ k
      → k < i + left
      → localized_loop left i (write cs (k + start) str) str ≡ found k
  full-found zero i k cs e l u = absurd (omega (arith, l, u))
  full-found (suc left) i k cs e l u = elim (Bool-cases (is_empty (take 1023 (cs (start + i))))) [
    | inl a ↦
        let q : false ≡ true = ap is_full (sym (round_free left i cs a) ∙ e) in
        absurd (ground (arith, q))
    | inr a ↦ elim (Bool-cases (bytes_eq (take 1023 (cs (start + i))) str)) [
      | inl b ↦
          let q : false ≡ true = ap is_full (sym (round_same left i cs a b) ∙ e) in
          absurd (ground (arith, q))
      | inr b ↦ elim (Bool-cases (i == k)) [
        | inl y ↦
            let q : i ≡ k = (==_iff i k).0 y in
            round_found left i (write cs (k + start) str) (write_here cs str i k q) ∙ ap found q
        | inr n ↦
            let w = sym (write_there cs str i k n) in
            round_next left i (write cs (k + start) str)
              (subst (λ t. is_empty (take 1023 t) ≡ false) w a)
              (subst (λ t. bytes_eq (take 1023 t) str ≡ false) w b)
            ∙ full-found left (suc i) k cs (sym (round_next left i cs a b) ∙ e)
                (ground (arith, l, n)) (omega (arith, u))
      ]
    ]
  ]

has_text : (s : Bytes) → 0 < length s → is_empty s ≡ false
has_text [] l = absurd (omega arith)
has_text (c ∷ s) l = refl

place_cases : (p : Place) → ((k : ℕ) × (p ≡ found k)) ⊎ (((k : ℕ) × (p ≡ free k)) ⊎ (p ≡ full))
place_cases (found k) = inl (k, refl)
place_cases (free k) = inr (inl (k, refl))
place_cases full = inr (inr refl)

in_range-configstrings : (x : Indices) → (in_range x).configstrings ≡ x.configstrings
in_range-configstrings x = elim (Bool-cases (leb 256 x.localized)) [
  | inl y ↦ rw y refl
  | inr n ↦ rw n refl
]

in_range-localized :
    (x : Indices) → 1 ≤ x.localized → (1 ≤ (in_range x).localized) × ((in_range x).localized < 256)
in_range-localized x h = elim (Bool-cases (leb 256 x.localized)) [
  | inl y ↦ rw y (omega arith, omega arith)
  | inr n ↦ rw n (h, ground (arith, n))
]

-- The call, once it is known where the search ends.
call :
    (str : Bytes) (x : Indices) (p : Place)
    → is_empty str ≡ false
    → localized_loop 255 1 x.configstrings str ≡ p
    → x_localized_string_index str x ≡ add_found (in_range x) str p
unfolding x_localized_string_index
call str x p a e = rw (a, e) refl

written :
    (str : Bytes) (x : Indices) (k : ℕ)
    → is_empty str ≡ false
    → localized_loop 255 1 (write x.configstrings (k + start) str) str ≡ found k
    → (x_localized_string_index str (add_at (in_range x) k str).1).0 ≡ k
unfolding add_found
written str x k a e =
    let q : localized_loop 255 1 (write (in_range x).configstrings (k + start) str) str ≡ found k =
      ap (λ cs. localized_loop 255 1 (write cs (k + start) str) str) (in_range-configstrings x)
      ∙ e in
    ap (λ (r : ℕ × Indices). r.0) (call str (add_at (in_range x) k str).1 (found k) a q)

-- A string that is not empty and shorter than 1024 bytes is given the same number when it is asked
-- for again, also when all places are taken and it replaces another string, as long as the counter
-- is not 0.
pub x_localized_string_index-again :
    (str : Bytes) (x : Indices)
    → 0 < length str
    → length str < 1024
    → 1 ≤ x.localized
    → (x_localized_string_index str (x_localized_string_index str x).1).0
      ≡ (x_localized_string_index str x).0
unfolding add_found
x_localized_string_index-again str x l u h =
    let cut : take 1023 str ≡ str = take_all 1023 str (omega (arith, u)) in
    let a : is_empty str ≡ false = has_text str l in
    let b : is_empty (take 1023 str) ≡ false = rw cut a in
    let c : bytes_eq (take 1023 str) str ≡ true = rw cut ((bytes_eq_iff str str).1 refl) in
    elim (place_cases (localized_loop 255 1 x.configstrings str)) [
      | inl (k, e) ↦
          let q = ap (λ cs. localized_loop 255 1 cs str) (in_range-configstrings x) ∙ e in
          rw (call str x (found k) a e)
            (ap (λ (r : ℕ × Indices). r.0) (call str (in_range x) (found k) a q))
      | inr (inl (k, e)) ↦
          rw (call str x (free k) a e)
            (written str x k a (free-found str b c 255 1 k x.configstrings e))
      | inr (inr e) ↦
          let k = (in_range x).localized in
          let (low, high) = in_range-localized x h in
          rw (call str x full a e) (
            written str x k a
              (full-found str b c 255 1 k x.configstrings e low (omega (arith, high))))
    ]
