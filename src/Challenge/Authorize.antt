-- ===== src/Challenge/Authorize.antt =====
-- What `SV_XAuthorize` may change.
use codextended.Prelude.{
  ℕ, zero, suc, ◌+◌, ◌≤◌, ◌<◌, ◌≡◌, refl, Bool, true, false, inl, inr, ◌⊎◌, arith, Bool-cases,
  Option, none, some, ◌==◌, ==_iff, ℤ, pos, eqb_ℤ, is_empty, Bytes,
}
use codextended.Strings.{atoi}
use codextended.Challenge.{
  Challenge, XChallenge, Tables, max_challenges, number_loop, authorize, set_numbered,
  sv_x_authorize,
}

-- The first slot with a number, or none.
abbrev pub Numbered : (ℕ → Challenge) → ℤ → ℕ → Option ℕ → Type 0
Numbered cs number i none =
    (j : ℕ) → i ≤ j → j < max_challenges → eqb_ℤ (cs j).challenge number ≡ false
Numbered cs number i (some k) = (k < max_challenges) × (eqb_ℤ (cs k).challenge number ≡ true)

later :
    (i : ℕ) (cs : ℕ → Challenge) (number : ℤ) (r : Option ℕ)
    → eqb_ℤ (cs i).challenge number ≡ false
    → Numbered cs number (suc i) r
    → Numbered cs number i r
later i cs number none n h = λ j low high. elim (Bool-cases (j == i)) [
  | inl e ↦ rw ((==_iff j i).0 e) n
  | inr ne ↦ h j (ground arith) high
]
later i cs number (some k) n h = h

number_loop-Numbered :
    (left i : ℕ) (cs : ℕ → Challenge) (number : ℤ)
    → i + left ≡ max_challenges
    → Numbered cs number i (number_loop left i cs number)
unfolding number_loop
number_loop-Numbered zero i cs number e = λ j low high. absurd (omega arith)
number_loop-Numbered (suc left) i cs number e = elim (Bool-cases (eqb_ℤ (cs i).challenge number)) [
  | inl here ↦ rw here (omega arith, here)
  | inr other ↦
      rw other
        (later i cs number _ other (number_loop-Numbered left (suc i) cs number (omega arith)))
]

-- A packet that lets the client of a slot connect.
pub record Allows (s : Tables) (j : ℕ) (from_master : Bool) (arg1 arg2 arg3 : Bytes) : Type 0 where
  pub master : from_master ≡ true
  pub number : eqb_ℤ (s.challenges j).challenge (atoi arg1) ≡ true
  pub allowed : eqb_ℤ (atoi arg2) (pos 0) ≡ false
  pub has_m_uid : is_empty arg3 ≡ false

authorize-can_connect :
    (x : XChallenge) (allowed : ℤ) (m_uid : Bytes)
    → (authorize x allowed m_uid).can_connect ≡ pos 1
    → (x.can_connect ≡ pos 1) ⊎ ((eqb_ℤ allowed (pos 0) ≡ false) × (is_empty m_uid ≡ false))
unfolding authorize
authorize-can_connect x allowed m_uid e = elim (Bool-cases (eqb_ℤ allowed (pos 0))) [
  | inl denied ↦ absurd (ground arith)
  | inr ok ↦ elim (Bool-cases (is_empty m_uid)) [
    | inl none_given ↦ inl (ground arith)
    | inr given ↦ inr (ok, given)
  ]
]

set_numbered-Allows :
    (s : Tables) (arg1 arg2 arg3 : Bytes) (j : ℕ) (r : Option ℕ)
    → Numbered s.challenges (atoi arg1) 0 r
    → ((set_numbered s r (atoi arg2) arg3).x_challenges j).can_connect ≡ pos 1
    → ((s.x_challenges j).can_connect ≡ pos 1) ⊎ Allows s j true arg1 arg2 arg3
unfolding set_numbered
set_numbered-Allows s arg1 arg2 arg3 j none n e = inl e
set_numbered-Allows s arg1 arg2 arg3 j (some i) n e = elim (Bool-cases (j == i)) [
  | inl here ↦
      let at : j ≡ i = (==_iff j i).0 here in
      elim (authorize-can_connect (s.x_challenges i) (atoi arg2) arg3 (rw here at e)) [
        | inl old ↦ inl (rw at old)
        | inr (a, g) ↦
            inr (record { master = refl; number = rw at n.1; allowed = a; has_m_uid = g })
      ]
  | inr other ↦ inl (rw other at e)
]

-- A slot that may connect after a packet could so before, or the packet came from the master, names
-- the slot's number, allows it, and gives an mUID.
pub sv_x_authorize-Allows :
    (s : Tables) (from_master : Bool) (arg1 arg2 arg3 : Bytes) (j : ℕ)
    → ((sv_x_authorize s from_master arg1 arg2 arg3).x_challenges j).can_connect ≡ pos 1
    → ((s.x_challenges j).can_connect ≡ pos 1) ⊎ Allows s j from_master arg1 arg2 arg3
unfolding sv_x_authorize
sv_x_authorize-Allows s false arg1 arg2 arg3 j e = inl e
sv_x_authorize-Allows s true arg1 arg2 arg3 j e =
    set_numbered-Allows s arg1 arg2 arg3 j _
      (number_loop-Numbered max_challenges 0 s.challenges (atoi arg1) (omega arith)) e
