-- ===== src/Player/Perks.antt =====
-- Perks as a set: what scripts ask after they set one or took one away.
use codextended.Prelude.{
  ℕ, zero, suc, ◌≡◌, refl, sym, ap, subst, ◌∙◌, Bool, true, false, ◌==◌, ==_iff, ◌&&◌,
  if◌then◌else◌, Bool-cases, Option, none, some, Option-cases, inl, inr, arith,
}
use mathlib.Core.Option.{some-injective}
use codextended.Player.{
  perk_loop, max_perks, given, set_perk_to, player_cmd_set_perk, player_cmd_unset_perk,
  player_cmd_has_perk,
}

-- The loop gives a place of the name.
perk_loop-named :
    (left i : ℕ) (names : ℕ → ℕ) (perk j : ℕ)
    → perk_loop left i names perk ≡ some j
    → names j ≡ perk
unfolding perk_loop
perk_loop-named zero i names perk j e = absurd (ground (arith, e))
perk_loop-named (suc left) i names perk j e = elim (Bool-cases (names i == perk)) [
  | inl h ↦
      let p : perk_loop (suc left) i names perk ≡ some i = rw h refl in
      let q : i ≡ j = some-injective i j (sym p ∙ e) in
      subst (λ k. names k ≡ perk) q ((==_iff (names i) perk).0 h)
  | inr n ↦ perk_loop-named left (suc i) names perk j (ground (arith, n, e))
]

places_apart :
    (names : ℕ → ℕ) (p q i j : ℕ) → (q == p) ≡ false → names i ≡ p → names j ≡ q → (j == i) ≡ false
places_apart names p q i j n named_p named_q = elim (Bool-cases (j == i)) [
  | inl y ↦
      let same : q ≡ p = sym named_q ∙ ap names ((==_iff j i).0 y) ∙ named_p in
      absurd (ground (arith, same, n))
  | inr y ↦ y
]

-- A write at the place of a name is seen under that name only.
given-write :
    (names : ℕ → ℕ) (p q i : ℕ) (on : Bool) (perks : ℕ → Bool)
    → perk_loop max_perks 0 names p ≡ some i
    → given (set_perk_to on (some i) perks) (perk_loop max_perks 0 names q) ≡ (
        if q == p
        then if on then some true else none
        else given perks (perk_loop max_perks 0 names q))
given-write names p q i on perks e = elim (Bool-cases (q == p)) [
  | inl h ↦
      let f : perk_loop max_perks 0 names q ≡ some i =
        subst (λ k. perk_loop max_perks 0 names k ≡ some i) (sym ((==_iff q p).0 h)) e in
      let i_itself : (i == i) ≡ true = (==_iff i i).1 refl in rw (f, h, i_itself) refl
  | inr n ↦ elim (Option-cases (perk_loop max_perks 0 names q)) [
    | inl m ↦ rw (m, n) refl
    | inr (j, m) ↦
        let named_q = perk_loop-named max_perks 0 names q j m in
        let named_p = perk_loop-named max_perks 0 names p i e in
        rw (m, n, places_apart names p q i j n named_p named_q) refl
  ]
]

abbrev is_found : Option ℕ → Bool
is_found none = false
is_found (some i) = true

-- A perk is known if one of the places has its name.
abbrev pub is_known : (ℕ → ℕ) → ℕ → Bool
is_known names perk = is_found (perk_loop max_perks 0 names perk)

given-set :
    (names : ℕ → ℕ) (p q : ℕ) (on : Bool) (perks : ℕ → Bool)
    → player_cmd_has_perk names q (set_perk_to on (perk_loop max_perks 0 names p) perks) ≡ (
        if is_known names p && q == p
        then if on then some true else none
        else player_cmd_has_perk names q perks)
unfolding player_cmd_has_perk
given-set names p q on perks = elim (Option-cases (perk_loop max_perks 0 names p)) [
  | inl m ↦ rw m refl
  | inr (i, m) ↦ rw m (given-write names p q i on perks m)
]

-- After a script sets a perk, it has that perk, if the name is known; after it takes a perk away, it
-- gets no value for it; and every other perk is as before.
pub player_cmd_has_perk-set :
    (names : ℕ → ℕ) (p q : ℕ) (perks : ℕ → Bool)
    → (player_cmd_has_perk names q (player_cmd_set_perk names p perks)
        ≡ (if is_known names p && q == p then some true else player_cmd_has_perk names q perks))
      × (player_cmd_has_perk names q (player_cmd_unset_perk names p perks)
          ≡ (if is_known names p && q == p then none else player_cmd_has_perk names q perks))
unfolding player_cmd_set_perk player_cmd_unset_perk
player_cmd_has_perk-set names p q perks =
    (given-set names p q true perks, given-set names p q false perks)
