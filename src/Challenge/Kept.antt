-- ===== src/Challenge/Kept.antt =====
-- Slots that are neither authorized nor given an mUID: all that `SV_GetChallenge` does to a slot,
-- and `SV_XAuthorize` without the master.
use codextended.Prelude.{
  ℕ, ◌≡◌, refl, ◌∙◌, ◌⊎◌, inl, inr, Bool, false, ◌==◌, ==_iff, arith, Bool-cases, ℤ, pos, Bytes,
  write,
}
use codextended.Net.{Adr}
use codextended.RateLimit.{Limiter, svc_rate_limit_address, svc_rate_limit_outbound}
use codextended.Challenge.{
  XChallenge, Tables, Slot, known, recycled, recycle, touch, give, issue, find_slot, Clock, Cvars,
  sv_get_challenge, sv_x_authorize,
}

-- The slot keeps its mUID, and its state, unless that is set back to 0.
pub record IsKept (x y : XChallenge) : Type 0 where
  pub m_uid : y.m_uid ≡ x.m_uid
  pub can_connect : (y.can_connect ≡ x.can_connect) ⊎ (y.can_connect ≡ pos 0)

pub IsKept-refl : (x : XChallenge) → IsKept x x
IsKept-refl x = record { m_uid = refl; can_connect = inl refl }

pub IsKept-trans : (x y z : XChallenge) → IsKept x y → IsKept y z → IsKept x z
IsKept-trans x y z h k = record { m_uid = k.m_uid ∙ h.m_uid; can_connect = ground arith }

abbrev pub AllKept : (ℕ → XChallenge) → (ℕ → XChallenge) → Type 0
AllKept xs ys = (j : ℕ) → IsKept (xs j) (ys j)

pub write-AllKept :
    (xs : ℕ → XChallenge) (i : ℕ) (y : XChallenge) → IsKept (xs i) y → AllKept xs (write xs i y)
write-AllKept xs i y h j = elim (Bool-cases (j == i)) [
  | inl e ↦ let same : j ≡ i = (==_iff j i).0 e in rw (e, same) h
  | inr n ↦ rw n (IsKept-refl (xs j))
]

give-AllKept :
    (s : Tables) (from : Adr) (number now : ℤ) (m : Slot)
    → AllKept s.x_challenges (give s from number now m).0.x_challenges
unfolding give touch recycle
give-AllKept s from number now (known i) j = IsKept-refl (s.x_challenges j)
give-AllKept s from number now (recycled i) j =
    write-AllKept s.x_challenges i _ (record { m_uid = refl; can_connect = inr refl }) j

issue-AllKept :
    (s : Tables) (from : Adr) (number now : ℤ)
    → AllKept s.x_challenges (issue s from number now).0.x_challenges
unfolding issue
issue-AllKept s from number now = give-AllKept s from number now (find_slot s.challenges from)

pub sv_get_challenge-AllKept :
    (l : Limiter) (s : Tables) (from : Adr) (number : ℤ) (t : Clock) (v : Cvars)
    → AllKept s.x_challenges (sv_get_challenge l s from number t v).1.x_challenges
unfolding sv_get_challenge
sv_get_challenge-AllKept l s from number t v j =
    let a = svc_rate_limit_address l from t.search t.limit 10 1000 in
    let b = svc_rate_limit_outbound a.1 t.outbound 10 100 in
    elim (Bool-cases a.0) [
      | inl limited ↦ rw limited (IsKept-refl (s.x_challenges j))
      | inr passes ↦ rw passes (elim (Bool-cases b.0) [
        | inl full ↦ rw full (IsKept-refl (s.x_challenges j))
        | inr free ↦ rw free (issue-AllKept s from number t.svs_time j)
      ])
    ]

pub sv_x_authorize-AllKept :
    (s : Tables) (from_master : Bool) (arg1 arg2 arg3 : Bytes)
    → from_master ≡ false
    → AllKept s.x_challenges (sv_x_authorize s from_master arg1 arg2 arg3).x_challenges
unfolding sv_x_authorize
sv_x_authorize-AllKept s from_master arg1 arg2 arg3 m j = rw m (IsKept-refl (s.x_challenges j))
