-- ===== src/Connect/Gate.antt =====
-- Who passes the tests of `SV_DirectConnect`.
use codextended.Prelude.{
  ℕ, zero, suc, ◌+◌, ◌<◌, ◌≡◌, refl, ap, subst, Bool, true, false, ◌⊎◌, inl, inr, Option, none,
  some, Option-cases, List, [], ◌∷◌, ◌++◌, All, arith, Bool-cases, ℤ, pos, negsuc, eqb_ℤ, Bytes,
}
use codextended.Net.{Adr, net_compare_adr}
use codextended.Strings.{is_good_string}
use codextended.Challenge.{Challenge, XChallenge, max_challenges}
use codextended.Connect.{
  drop_last, Ban, Server, Cvars, Outside, Request, Numbers, Refusal, ban_loop, list_each, is_ip_ban,
  is_muid_ban, challenge_loop, check_request, prepare, check_slot, Sent, gate_slot, gate_at,
  gate_after, gate,
}

ban_loop-All :
    (test : Ban → Bool) (message : Bytes) (bans : List Ban)
    → ban_loop test message bans ≡ none
    → All (λ (b : Ban). test b ≡ false) bans
unfolding ban_loop
ban_loop-All test message [] e = tt
ban_loop-All test message (b ∷ bans) e = elim (Bool-cases (test b)) [
  | inl hit ↦ absurd (ground arith)
  | inr miss ↦ (miss, ban_loop-All test message bans (rw miss at e))
]

challenge_loop-some :
    (left i k : ℕ) (cs : ℕ → Challenge) (from : Adr) (number : ℤ)
    → challenge_loop left i cs from number ≡ some k
    → (k < i + left)
      × (net_compare_adr from (cs k).adr ≡ true)
      × (eqb_ℤ (cs k).challenge number ≡ true)
unfolding challenge_loop
challenge_loop-some zero i k cs from number e = absurd (ground arith)
challenge_loop-some (suc left) i k cs from number e =
    ground (arith, challenge_loop-some left (suc i) k cs from number)

drop_last-snoc : {A : Type 0} (xs : List A) (x : A) → drop_last (xs ++ x ∷ []) ≡ xs
drop_last-snoc [] x = refl
drop_last-snoc (y ∷ []) x = refl
drop_last-snoc (y ∷ z ∷ zs) x = ap (λ ys. y ∷ ys) (drop_last-snoc (z ∷ zs) x)

-- The ban added last is not enforced, unless it is the only one: for whichever test, the loop comes
-- to the result that it has without that ban.
pub last_ban-ignored :
    (test : Ban → Bool) (message : Bytes) (b x : Ban) (bans : List Ban)
    → ban_loop test message (list_each (b ∷ (bans ++ x ∷ []))) ≡ ban_loop test message (b ∷ bans)
unfolding ban_loop list_each
last_ban-ignored test message b x bans =
    rw (drop_last-snoc (b ∷ bans) x)
      (elim (Bool-cases (test b)) [ inl hit ↦ rw hit refl | inr miss ↦ rw miss refl ])

record Checked (o : Outside) (v : Cvars) (s : Server) (r : Request) (n : Numbers) : Type 0 where
  version : eqb_ℤ n.version (pos 1) ≡ true
  no_ip_ban : All (λ (b : Ban). is_ip_ban o.compare_base r.from b ≡ false) (list_each s.bans)

check_request-Checked :
    (o : Outside) (v : Cvars) (s : Server) (r : Request) (n : Numbers)
    → check_request o v s r n ≡ none
    → Checked o v s r n
unfolding check_request
check_request-Checked o v s r n e = elim (Bool-cases (eqb_ℤ n.version (pos 1))) [
  | inr other ↦ absurd (ground arith)
  | inl one ↦
      elim (Option-cases
        (ban_loop (is_ip_ban o.compare_base r.from) v.banned_message (list_each s.bans))) [
          | inl clear ↦ record {
            version = one;
            no_ip_ban = ban_loop-All _ _ (list_each s.bans) clear;
          }
          | inr (reason, found) ↦ absurd (ground arith)
        ]
]

record Passed (s : Server) (x : XChallenge) (name : Bytes) : Type 0 where
  may : eqb_ℤ x.can_connect (negsuc 0) ≡ false
  no_muid_ban : All (λ (b : Ban). is_muid_ban x.m_uid b ≡ false) (list_each s.bans)
  good : is_good_string name ≡ true

check_slot-Passed :
    (v : Cvars) (s : Server) (r : Request) (c : Challenge) (x : XChallenge) (name : Bytes)
    → (check_slot v s r c x name).1 ≡ none
    → Passed s x name
unfolding check_slot
check_slot-Passed v s r c x name e = elim (Bool-cases (eqb_ℤ x.can_connect (negsuc 0))) [
  | inl never ↦ absurd (ground arith)
  | inr may ↦
      elim (Option-cases (ban_loop (is_muid_ban x.m_uid) v.banned_message (list_each s.bans))) [
        | inr (reason, found) ↦ absurd (ground arith)
        | inl clear ↦ record {
          may = may;
          no_muid_ban = ban_loop-All _ _ (list_each s.bans) clear;
          good = ground arith;
        }
      ]
]

prepare-same :
    (c : Challenge) (x : XChallenge) (r : Request) (qport : ℤ)
    → ((prepare c x r qport).0.can_connect ≡ x.can_connect)
      × ((prepare c x r qport).0.m_uid ≡ x.m_uid)
unfolding prepare
prepare-same c x r qport = (ground arith, ground arith)

-- A client that may connect with the challenge at place `k`.
pub record Admitted (o : Outside) (s : Server) (r : Request) (n : Numbers) (name : Bytes) (k : ℕ)
    : Type 0 where
  pub version : eqb_ℤ n.version (pos 1) ≡ true
  pub no_ip_ban : All (λ (b : Ban). is_ip_ban o.compare_base r.from b ≡ false) (list_each s.bans)
  pub below : k < max_challenges
  pub address : net_compare_adr r.from (s.tables.challenges k).adr ≡ true
  pub number : eqb_ℤ (s.tables.challenges k).challenge n.challenge ≡ true
  pub may : eqb_ℤ (s.tables.x_challenges k).can_connect (negsuc 0) ≡ false
  pub no_muid_ban :
      All (λ (b : Ban). is_muid_ban (s.tables.x_challenges k).m_uid b ≡ false) (list_each s.bans)
  pub good : is_good_string name ≡ true

place_or : Refusal ⊎ ℕ → ℕ
place_or (inl why) = 0
place_or (inr k) = k

gate_slot-some :
    (s : Server) (r : Request) (i k : ℕ) (sent : List Sent) (c : XChallenge × Option Refusal)
    → (gate_slot s r i sent c).verdict ≡ inr k
    → (c.1 ≡ none) × (i ≡ k)
unfolding gate_slot place_or
gate_slot-some s r i k sent (x, some why) e = absurd (ground arith)
gate_slot-some s r i k sent (x, none) e = (refl, ap place_or e)

gate_at-Admitted :
    (o : Outside) (v : Cvars) (s : Server) (r : Request) (n : Numbers) (name : Bytes) (m : Option ℕ)
    (k : ℕ)
    → Checked o v s r n
    → challenge_loop max_challenges 0 s.tables.challenges r.from n.challenge ≡ m
    → (gate_at v s r n.qport name m).verdict ≡ inr k
    → Admitted o s r n name k
unfolding gate_at
gate_at-Admitted o v s r n name none k h f e = absurd (ground arith)
gate_at-Admitted o v s r n name (some i) k h f e =
    let c = s.tables.challenges i in
    let p = prepare c (s.tables.x_challenges i) r n.qport in
    let (clear, at) = gate_slot-some s r i k p.1 (check_slot v s r c p.0 name) e in
    let q = check_slot-Passed v s r c p.0 name clear in
    let same = prepare-same c (s.tables.x_challenges i) r n.qport in
    let found = challenge_loop-some max_challenges 0 i s.tables.challenges r.from n.challenge f in
    subst (Admitted o s r n name) at (record {
      version = h.version;
      no_ip_ban = h.no_ip_ban;
      below = omega (arith, found.0);
      address = found.1;
      number = found.2;
      may = rw same.0 at q.may;
      no_muid_ban = rw same.1 at q.no_muid_ban;
      good = q.good;
    })

gate_after-Admitted :
    (o : Outside) (v : Cvars) (s : Server) (r : Request) (n : Numbers) (name : Bytes) (k : ℕ)
    (m : Option Refusal)
    → check_request o v s r n ≡ m
    → (gate_after v s r n name m).verdict ≡ inr k
    → Admitted o s r n name k
unfolding gate_after
gate_after-Admitted o v s r n name k (some why) c e = absurd (ground arith)
gate_after-Admitted o v s r n name k none c e =
    gate_at-Admitted o v s r n name _ k (check_request-Checked o v s r n c) refl e

-- A packet passes the tests of `SV_DirectConnect` only with the right version, with the number of a
-- challenge that its address was given and that the master has not denied, with a printable name,
-- and with an address and an mUID that none of the bans met by `list_each` name.
pub gate-Admitted :
    (o : Outside) (v : Cvars) (s : Server) (r : Request) (n : Numbers) (name : Bytes) (k : ℕ)
    → (gate o v s r n name).verdict ≡ inr k
    → Admitted o s r n name k
unfolding gate
gate-Admitted o v s r n name k e = gate_after-Admitted o v s r n name k _ refl e
