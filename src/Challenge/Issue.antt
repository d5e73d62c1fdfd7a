-- ===== src/Challenge/Issue.antt =====
-- What `SV_GetChallenge` does to the tables, and asking twice.
use codextended.Prelude.{
  ℕ, ◌<◌, ◌≡◌, refl, sym, ap, ◌∙◌, true, false, arith, ℤ, ◌==◌, ==_refl, subst,
}
use codextended.Net.{Adr, net_compare_adr}
use codextended.Challenge.{
  Challenge, Tables, max_challenges, is_waiting, Slot, known, recycled, find_slot, recycle, touch,
  give, issue,
}
use codextended.Challenge.Slots.{NoneBefore, Chosen, AreInts, find_slot-Chosen, find_slot-known}

-- The tables and the slot after a challenge has been issued.
pub record Issued (s : Tables) (from : Adr) (r : Tables × ℕ) : Type 0 where
  pub below : r.1 < max_challenges
  pub waiting : is_waiting from (r.0.challenges r.1) ≡ true
  pub first : NoneBefore r.0.challenges from r.1
  pub others : (j : ℕ) → (j == r.1) ≡ false → r.0.challenges j ≡ s.challenges j
  pub kept :
      is_waiting from (s.challenges r.1) ≡ true
      → (r.0.challenges r.1).challenge ≡ (s.challenges r.1).challenge

touched :
    (s : Tables) (i : ℕ) (now : ℤ)
    → ((touch s i now).challenges i ≡ record (s.challenges i) { ping_time = now })
      × ((j : ℕ) → (j == i) ≡ false → (touch s i now).challenges j ≡ s.challenges j)
unfolding touch
touched s i now = (rw ==_refl refl, λ j n. rw n refl)

recycled-there :
    (s : Tables) (i : ℕ) (from : Adr) (number now : ℤ)
    → (((recycle s i from number now).challenges i).adr ≡ from)
      × (((recycle s i from number now).challenges i).connected ≡ false)
      × (((recycle s i from number now).x_challenges i).m_uid ≡ (s.x_challenges i).m_uid)
      × ((j : ℕ) → (j == i) ≡ false → (recycle s i from number now).challenges j ≡ s.challenges j)
unfolding recycle
recycled-there s i from number now =
    (rw ==_refl refl, rw ==_refl refl, rw ==_refl refl, λ j n. rw n refl)

NoneBefore-same :
    (cs ds : ℕ → Challenge) (from : Adr) (i : ℕ)
    → NoneBefore cs from i
    → ((j : ℕ) → (j == i) ≡ false → ds j ≡ cs j)
    → NoneBefore ds from i
NoneBefore-same cs ds from i n e j b = ap (is_waiting from) (e j (ground arith)) ∙ n j b

known-Issued :
    (s : Tables) (from : Adr) (now : ℤ) (i : ℕ)
    → Chosen s.challenges from (known i)
    → Issued s from (touch s i now, i)
known-Issued s from now i c =
    let t = touched s i now in
    record {
      below = c.0;
      waiting = ap (is_waiting from) t.0 ∙ c.1;
      first = NoneBefore-same s.challenges (touch s i now).challenges from i c.2 t.1;
      others = t.1;
      kept = λ w. ap (λ (d : Challenge). d.challenge) t.0;
    }

recycled-Issued :
    (s : Tables) (from : Adr) (number now : ℤ) (i : ℕ)
    → net_compare_adr from from ≡ true
    → Chosen s.challenges from (recycled i)
    → Issued s from (touch (recycle s i from number now) i now, i)
recycled-Issued s from number now i self c =
    let u = recycle s i from number now in
    let t = touched u i now in
    let r = recycled-there s i from number now in
    let others : (j : ℕ) → (j == i) ≡ false → (touch u i now).challenges j ≡ s.challenges j =
      λ j n. t.1 j n ∙ r.3 j n in
    record {
      below = c.0;
      waiting = ap (is_waiting from) t.0 ∙ ground (arith, self, ap (net_compare_adr from) r.0, r.1);
      first =
          NoneBefore-same s.challenges (touch u i now).challenges from i
            (λ j b. c.1 j (omega (arith, c.0))) others;
      others = others;
      kept = λ w. absurd (ground (arith, c.1 i));
    }

give-Issued :
    (s : Tables) (from : Adr) (number now : ℤ) (r : Slot)
    → net_compare_adr from from ≡ true
    → Chosen s.challenges from r
    → Issued s from (give s from number now r)
unfolding give
give-Issued s from number now (known i) self c = known-Issued s from now i c
give-Issued s from number now (recycled i) self c = recycled-Issued s from number now i self c

-- For an address that `NET_CompareAdr` compares at all: the slot that `SV_GetChallenge` answers for
-- is the first that waits for the address, its number is kept if it waited already, and no other
-- slot changes.
pub issue-Issued :
    (s : Tables) (from : Adr) (number now : ℤ)
    → net_compare_adr from from ≡ true
    → AreInts s.challenges
    → Issued s from (issue s from number now)
unfolding issue
issue-Issued s from number now self ints =
    give-Issued s from number now (find_slot s.challenges from) self
      (find_slot-Chosen s.challenges from ints)

issue-known :
    (s : Tables) (from : Adr) (number now : ℤ) (i : ℕ)
    → find_slot s.challenges from ≡ known i
    → issue s from number now ≡ (touch s i now, i)
unfolding issue give
issue-known s from number now i e = ap (give s from number now) e

-- Asking again, before the client connects, gives the same slot and the same number, whatever the
-- time and whatever number would have been drawn.
pub issue-again :
    (s : Tables) (from : Adr) (number number' now now' : ℤ)
    → net_compare_adr from from ≡ true
    → AreInts s.challenges
    → ((issue (issue s from number now).0 from number' now').1 ≡ (issue s from number now).1)
      × (((issue (issue s from number now).0 from number' now').0.challenges
            (issue s from number now).1).challenge
          ≡ ((issue s from number now).0.challenges (issue s from number now).1).challenge)
issue-again s from number number' now now' self ints =
    let r = issue s from number now in
    let d = issue-Issued s from number now self ints in
    let e =
      issue-known r.0 from number' now' r.1
        (find_slot-known r.0.challenges from r.1 d.below d.waiting d.first) in
    rw e (refl, ap (λ (c : Challenge). c.challenge) (touched r.0 r.1 now').0)

given-keeps_m_uid :
    (s : Tables) (from : Adr) (number now : ℤ) (i : ℕ)
    → (((give s from number now (recycled i)).0.challenges i).adr ≡ from)
      × (((give s from number now (recycled i)).0.x_challenges i).m_uid ≡ (s.x_challenges i).m_uid)
unfolding give touch
given-keeps_m_uid s from number now i =
    let r = recycled-there s i from number now in rw ==_refl (r.0, r.2)

-- A slot that is taken for another address keeps the mUID of the client that had it before, which
-- `SV_DirectConnect` then gives to the new client.
pub recycle-keeps_m_uid :
    (s : Tables) (from : Adr) (number now : ℤ) (i : ℕ)
    → find_slot s.challenges from ≡ recycled i
    → (((issue s from number now).0.challenges i).adr ≡ from)
      × (((issue s from number now).0.x_challenges i).m_uid ≡ (s.x_challenges i).m_uid)
unfolding issue
recycle-keeps_m_uid s from number now i e =
    subst
      (λ r.
        (((give s from number now r).0.challenges i).adr ≡ from)
        × (((give s from number now r).0.x_challenges i).m_uid ≡ (s.x_challenges i).m_uid))
      (sym e) (given-keeps_m_uid s from number now i)
