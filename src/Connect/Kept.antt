-- ===== src/Connect/Kept.antt =====
-- `SV_DirectConnect` neither authorizes a slot nor gives it an mUID, and leaves the bans alone.
use codextended.Prelude.{
  ℕ, ◌≡◌, refl, subst, ◌∙◌, ◌⊎◌, inl, inr, false, arith, ℤ, Option, none, some, Option-cases, List,
  Bytes, ok, then_some-some, ok-some-injective, write, take, codes,
}
use codextended.Info.{max_info_string, info_value_for_key, info_set_value_for_key}
use codextended.Client.{Client, userinfo_changed}
use codextended.Challenge.{Challenge, XChallenge, max_challenges}
use codextended.Challenge.Kept.{IsKept, IsKept-refl, AllKept, write-AllKept}
use codextended.Connect.{
  Server, Cvars, Outside, Refusal, Request, Numbers, Sent, prepare, check_slot, gate_slot, gate_at,
  gate_after, gate, ban_loop, list_each, is_muid_ban, check_request, challenge_loop, choose_place,
}
use codextended.Connect.Seat.{
  Connected, fresh_client, read_numbers, seat_after, seat, seat_at, vacate, place_client,
  after_gate, sv_direct_connect,
}

prepare-IsKept :
    (c : Challenge) (x : XChallenge) (r : Request) (qport : ℤ) → IsKept x (prepare c x r qport).0
unfolding prepare
prepare-IsKept c x r qport = record { m_uid = ground arith; can_connect = inl (ground arith) }

check_slot-same :
    (v : Cvars) (s : Server) (r : Request) (c : Challenge) (x : XChallenge) (name : Bytes)
    → ((check_slot v s r c x name).0.m_uid ≡ x.m_uid)
      × ((check_slot v s r c x name).0.can_connect ≡ x.can_connect)
unfolding check_slot
check_slot-same v s r c x name =
    elim (Option-cases (ban_loop (is_muid_ban x.m_uid) v.banned_message (list_each s.bans))) [
      | inl clear ↦ (ground arith, ground arith)
      | inr (reason, found) ↦ (ground arith, ground arith)
    ]

gate_slot-AllKept :
    (s : Server) (r : Request) (i : ℕ) (sent : List Sent) (c : XChallenge × Option Refusal)
    → IsKept (s.tables.x_challenges i) c.0
    → AllKept s.tables.x_challenges (gate_slot s r i sent c).tables.x_challenges
unfolding gate_slot
gate_slot-AllKept s r i sent (x, some why) h = write-AllKept s.tables.x_challenges i x h
gate_slot-AllKept s r i sent (x, none) h = write-AllKept s.tables.x_challenges i x h

gate_at-AllKept :
    (v : Cvars) (s : Server) (r : Request) (qport : ℤ) (name : Bytes) (m : Option ℕ)
    → AllKept s.tables.x_challenges (gate_at v s r qport name m).tables.x_challenges
unfolding gate_at
gate_at-AllKept v s r qport name none = λ j. IsKept-refl (s.tables.x_challenges j)
gate_at-AllKept v s r qport name (some i) =
    let c = s.tables.challenges i in
    let x = s.tables.x_challenges i in
    let p = prepare c x r qport in
    let k = prepare-IsKept c x r qport in
    let same = check_slot-same v s r c p.0 name in
    gate_slot-AllKept s r i p.1 (check_slot v s r c p.0 name)
      (record { m_uid = same.0 ∙ k.m_uid; can_connect = rw same.1 k.can_connect })

gate-AllKept :
    (o : Outside) (v : Cvars) (s : Server) (r : Request) (n : Numbers) (name : Bytes)
    → AllKept s.tables.x_challenges (gate o v s r n name).tables.x_challenges
unfolding gate
gate-AllKept o v s r n name = after (check_request o v s r n)
  where
    after :
        (m : Option Refusal)
        → AllKept s.tables.x_challenges (gate_after v s r n name m).tables.x_challenges
    after none =
        unfold gate_after in
        gate_at-AllKept v s r n.qport name
          (challenge_loop max_challenges 0 s.tables.challenges r.from n.challenge)
    after (some why) = unfold gate_after in λ j. IsKept-refl (s.tables.x_challenges j)

-- What follows the tests leaves the slots and the bans as they are.
record IsSame (s : Server) (c : Connected) : Type 0 where
  slots : c.server.tables.x_challenges ≡ s.tables.x_challenges
  bans : c.server.bans ≡ s.bans

seat_after-IsSame :
    (o : Outside) (s : Server) (r : Request) (k i : ℕ) (sent : List Sent)
    (a : Client × Option Bytes) (c : Connected)
    → seat_after o s r k i sent a ≡ ok (some c)
    → IsSame s c
unfolding seat_after
seat_after-IsSame o s r k i sent (cl, some why) c e =
    let same = ok-some-injective _ c e in
    subst (IsSame s) same (record { slots = refl; bans = refl })
seat_after-IsSame o s r k i sent (cl, none) c e =
    let (changed, f, g) = then_some-some (userinfo_changed cl false) _ c e in
    let same = ok-some-injective _ c g in
    subst (IsSame s) same (record { slots = refl; bans = refl })

seat_at-IsSame :
    (o : Outside) (s : Server) (r : Request) (n : Numbers) (userinfo : Bytes) (k : ℕ)
    (sent : List Sent) (m : Option ℕ) (c : Connected)
    → seat_at o s r n userinfo k sent m ≡ ok (some c)
    → IsSame s c
unfolding seat_at seat
seat_at-IsSame o s r n userinfo k sent none c e =
    let same = ok-some-injective _ c e in
    subst (IsSame s) same (record { slots = refl; bans = refl })
seat_at-IsSame o s r n userinfo k sent (some i) c e =
    let u = vacate o s i in
    let s' : Server = record u { m_uids = write s.m_uids i (s.tables.x_challenges k).m_uid } in
    let h = seat_after-IsSame o s' r k i sent (o.connect i (fresh_client r n userinfo)) c e in
    record { slots = h.slots; bans = h.bans }

after_gate-IsSame :
    (o : Outside) (v : Cvars) (s : Server) (r : Request) (n : Numbers) (userinfo : Bytes)
    (sent : List Sent) (verdict : Refusal ⊎ ℕ) (c : Connected)
    → after_gate o v s r n userinfo sent verdict ≡ ok (some c)
    → IsSame s c
unfolding after_gate place_client
after_gate-IsSame o v s r n userinfo sent (inl why) c e =
    let same = ok-some-injective _ c e in
    subst (IsSame s) same (record { slots = refl; bans = refl })
after_gate-IsSame o v s r n userinfo sent (inr k) c e =
    let (info, f, g) =
      then_some-some (info_set_value_for_key max_info_string userinfo (codes "ip") r.from_text) _ c
        e in
    let (password, f', g') = then_some-some (info_value_for_key info (codes "password")) _ c g in
    seat_at-IsSame o s r n info k sent (choose_place o v s r n.qport password) c g'

pub sv_direct_connect-AllKept :
    (o : Outside) (v : Cvars) (s : Server) (r : Request) (c : Connected)
    → sv_direct_connect o v s r ≡ ok (some c)
    → AllKept s.tables.x_challenges c.server.tables.x_challenges × (c.server.bans ≡ s.bans)
unfolding sv_direct_connect
sv_direct_connect-AllKept o v s r c e =
    let userinfo = take 1023 r.userinfo in
    let (n, f, g) = then_some-some (read_numbers userinfo) _ c e in
    let (name, f', g') = then_some-some (info_value_for_key userinfo (codes "name")) _ c g in
    let t = gate o v s r n name in
    let h =
      after_gate-IsSame o v (record s { tables = t.tables }) r n userinfo t.sent t.verdict c g' in
    (rw h.slots (gate-AllKept o v s r n name), h.bans)
