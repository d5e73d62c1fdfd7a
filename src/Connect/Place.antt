-- ===== src/Connect/Place.antt =====
-- Where `SV_DirectConnect` puts a client, and what it leaves alone.
use codextended.Prelude.{
  ℕ, zero, suc, ◌+◌, ◌-◌, ◌≤◌, ◌<◌, ◌≡◌, refl, sym, ap, ◌∙◌, subst, Bool, true, false, not, ◌&&◌,
  ◌⊎◌, inl, inr, Option, none, some, List, if◌then◌else◌, arith, Bool-cases, ◌==◌, ==_refl, ℤ,
  Bytes, codes, take, write, ok, then_some-some, ok-some-injective,
}
use codextended.Net.{bytes_eq}
use codextended.Strings.{atoi}
use codextended.Info.{info_value_for_key, info_set_value_for_key, max_info_string}
use codextended.Client.{Client, cs_connected, userinfo_changed}
use codextended.Connect.{
  Server, Cvars, Outside, Request, Numbers, Refusal, Sent, is_from, is_free, or_else, place_loop,
  choose_place, gate,
}
use codextended.Connect.Gate.{Admitted, gate-Admitted}
use codextended.Connect.Seat.{
  Connected, seat_after, seat, seat_at, place_client, vacate, after_gate, read_numbers,
  sv_direct_connect, fresh_client,
}

place_loop-some :
    (left i k : ℕ) (cs : ℕ → Client) (test : Client → Bool)
    → place_loop left i cs test ≡ some k
    → (i ≤ k) × (k < i + left) × (test (cs k) ≡ true)
unfolding place_loop
place_loop-some zero i k cs test e = absurd (ground arith)
place_loop-some (suc left) i k cs test e = ground (arith, place_loop-some left (suc i) k cs test)

-- A place that a client may have.
pub record IsPlace (o : Outside) (v : Cvars) (cs : ℕ → Client) (r : Request) (qport : ℤ)
    (password : Bytes) (i : ℕ) : Type 0 where
  pub below : i < v.max_clients
  pub vacant :
      (is_from o.compare_base r.from qport (cs i) ≡ true)
      ⊎ ((is_free (cs i) ≡ true)
          × ((bytes_eq password v.private_password ≡ true) ⊎ (v.private_clients ≤ i)))

or_else-some : (a b : Option ℕ) (i : ℕ) → or_else a b ≡ some i → (a ≡ some i) ⊎ (b ≡ some i)
or_else-some (some j) b i e = inl e
or_else-some none b i e = inr e

choose_place-IsPlace :
    (o : Outside) (v : Cvars) (s : Server) (r : Request) (qport : ℤ) (password : Bytes) (i : ℕ)
    → choose_place o v s r qport password ≡ some i
    → IsPlace o v s.clients r qport password i
unfolding choose_place
choose_place-IsPlace o v s r qport password i e = elim (or_else-some back new i e) [
  | inl b ↦
      let p = place_loop-some v.max_clients 0 i s.clients same b in
      record { below = omega (arith, p.1); vacant = inl (ground (arith, p.2)) }
  | inr n ↦
      let p = place_loop-some (v.max_clients - start) start i s.clients is_free n in
      record {
        below = omega (arith, p.0, p.1);
        vacant = inr (
          p.2,
          elim (Bool-cases (bytes_eq password v.private_password)) [
            | inl private ↦ inl private
            | inr public ↦ inr (rw public at p.0)
          ],
        );
      }
]
  where
    same : Client → Bool
    same cl = not (is_free cl) && is_from o.compare_base r.from qport cl

    start : ℕ
    start = if bytes_eq password v.private_password then 0 else v.private_clients

    back : Option ℕ
    back = place_loop v.max_clients 0 s.clients same

    new : Option ℕ
    new = place_loop (v.max_clients - start) start s.clients is_free

-- What a connection leaves in the server, for place `i` and the challenge at `k`.
pub record Seated (s : Server) (k i : ℕ) (c : Connected) : Type 0 where
  pub connected : (c.server.clients i).state ≡ cs_connected
  pub m_uid : c.server.m_uids i ≡ (s.tables.x_challenges k).m_uid
  pub others :
      (j : ℕ)
      → (j == i) ≡ false
      → (c.server.clients j ≡ s.clients j) × (c.server.m_uids j ≡ s.m_uids j)

place_or : ℕ → Refusal ⊎ ℕ → ℕ
place_or d (inl why) = d
place_or d (inr i) = i

seat_after-Seated :
    (o : Outside) (s : Server) (r : Request) (k i j : ℕ) (sent : List Sent)
    (a : Client × Option Bytes) (c : Connected)
    → seat_after o
        (record s { m_uids = write s.m_uids i (s.tables.x_challenges k).m_uid })
        r
        k
        i
        sent
        a
      ≡ ok (some c)
    → c.verdict ≡ inr j
    → (i ≡ j) × Seated s k i c
unfolding seat_after place_or
seat_after-Seated o s r k i j sent (cl, some why) c e h =
    absurd (ground (arith, ap (λ (d : Connected). d.verdict) (ok-some-injective _ _ e)))
seat_after-Seated o s r k i j sent (cl, none) c e h =
    let (changed, g, f) = then_some-some (userinfo_changed cl false) _ c e in
    let same = ok-some-injective _ _ f in
    (
      ap (place_or 0) (ap (λ (d : Connected). d.verdict) same ∙ h),
      subst (Seated s k i) same (record {
        connected = rw ==_refl refl;
        m_uid = rw ==_refl refl;
        others = λ l n. (rw n refl, rw n refl);
      }),
    )

-- The user info has this value for a key.
abbrev pub Has : Bytes → Bytes → Bytes → Type 0
Has userinfo key value = info_value_for_key userinfo key ≡ ok (some value)

-- The numbers are those that a user info has for its keys.
pub record NumbersOf (userinfo : Bytes) (n : Numbers) : Type 0 where
  pub protocol : Bytes
  pub challenge : Bytes
  pub qport : Bytes
  pub has_protocol : Has userinfo (codes "protocol") protocol
  pub has_challenge : Has userinfo (codes "challenge") challenge
  pub has_qport : Has userinfo (codes "qport") qport
  pub version_is : n.version ≡ atoi protocol
  pub challenge_is : n.challenge ≡ atoi challenge
  pub qport_is : n.qport ≡ atoi qport

-- The password is the one of the user info, which has the address set in it.
pub record PasswordOf (userinfo from_text password : Bytes) : Type 0 where
  pub info : Bytes
  pub has_ip :
      info_set_value_for_key max_info_string userinfo (codes "ip") from_text ≡ ok (some info)
  pub has_password : Has info (codes "password") password

read_numbers-NumbersOf :
    (userinfo : Bytes) (n : Numbers) → read_numbers userinfo ≡ ok (some n) → NumbersOf userinfo n
unfolding read_numbers
read_numbers-NumbersOf userinfo n e =
    let (version, e1, f) = then_some-some (info_value_for_key userinfo (codes "protocol")) _ n e in
    let (challenge, e2, g) =
      then_some-some (info_value_for_key userinfo (codes "challenge")) _ n f in
    let (qport, e3, h) = then_some-some (info_value_for_key userinfo (codes "qport")) _ n g in
    let same = ok-some-injective _ _ h in
    record {
      protocol = version;
      challenge = challenge;
      qport = qport;
      has_protocol = e1;
      has_challenge = e2;
      has_qport = e3;
      version_is = ap (λ (m : Numbers). m.version) (sym same);
      challenge_is = ap (λ (m : Numbers). m.challenge) (sym same);
      qport_is = ap (λ (m : Numbers). m.qport) (sym same);
    }

-- A connection: a packet that passed the tests, with a place of its own.
pub record Accepted (o : Outside) (v : Cvars) (s : Server) (r : Request) (i : ℕ) (c : Connected)
    : Type 0 where
  pub numbers : Numbers
  pub name : Bytes
  pub password : Bytes
  pub k : ℕ
  pub numbers_of : NumbersOf (take 1023 r.userinfo) numbers
  pub name_of : Has (take 1023 r.userinfo) (codes "name") name
  pub password_of : PasswordOf (take 1023 r.userinfo) r.from_text password
  pub admitted : Admitted o s r numbers name k
  pub place : IsPlace o v s.clients r numbers.qport password i
  pub connected : (c.server.clients i).state ≡ cs_connected
  pub others : (j : ℕ) → (j == i) ≡ false → c.server.clients j ≡ s.clients j

vacate-other :
    (o : Outside) (s : Server) (i j : ℕ) → (j == i) ≡ false → (vacate o s i).clients j ≡ s.clients j
vacate-other o s i j n = rw n refl

seat_at-Accepted :
    (o : Outside) (v : Cvars) (s t : Server) (r : Request) (n : Numbers)
    (name info password : Bytes) (k j : ℕ) (sent : List Sent) (m : Option ℕ) (c : Connected)
    → NumbersOf (take 1023 r.userinfo) n
    → Has (take 1023 r.userinfo) (codes "name") name
    → PasswordOf (take 1023 r.userinfo) r.from_text password
    → Admitted o s r n name k
    → t.clients ≡ s.clients
    → choose_place o v t r n.qport password ≡ m
    → seat_at o t r n info k sent m ≡ ok (some c)
    → c.verdict ≡ inr j
    → Accepted o v s r j c
unfolding seat_at seat
seat_at-Accepted o v s t r n name info password k j sent none c x y z a q p e h =
    absurd (ground (arith, ap (λ (d : Connected). d.verdict) (ok-some-injective _ _ e)))
seat_at-Accepted o v s t r n name info password k j sent (some i) c x y z a q p e h =
    let (at, d) =
      seat_after-Seated o (vacate o t i) r k i j sent (o.connect i (fresh_client r n info)) c e h in
    subst (λ l. Accepted o v s r l c) at
      (record {
        numbers = n;
        name = name;
        password = password;
        k = k;
        numbers_of = x;
        name_of = y;
        password_of = z;
        admitted = a;
        place =
            subst (λ cs. IsPlace o v cs r n.qport password i) q
              (choose_place-IsPlace o v t r n.qport password i p);
        connected = d.connected;
        others = λ l m. (d.others l m).0 ∙ vacate-other o t i l m ∙ ap (λ cs. cs l) q;
      })

place_client-Accepted :
    (o : Outside) (v : Cvars) (s t : Server) (r : Request) (n : Numbers) (name : Bytes) (k j : ℕ)
    (sent : List Sent) (c : Connected)
    → NumbersOf (take 1023 r.userinfo) n
    → Has (take 1023 r.userinfo) (codes "name") name
    → Admitted o s r n name k
    → t.clients ≡ s.clients
    → place_client o v t r n (take 1023 r.userinfo) k sent ≡ ok (some c)
    → c.verdict ≡ inr j
    → Accepted o v s r j c
unfolding place_client
place_client-Accepted o v s t r n name k j sent c x y a q e h =
    let (info, e1, f) =
      then_some-some
        (info_set_value_for_key max_info_string (take 1023 r.userinfo) (codes "ip") r.from_text) _ c
        e in
    let (password, e2, g) = then_some-some (info_value_for_key info (codes "password")) _ c f in
    seat_at-Accepted o v s t r n name info password k j sent (choose_place o v t r n.qport password)
      c x y (record { info = info; has_ip = e1; has_password = e2 }) a q refl g h

after_gate-Accepted :
    (o : Outside) (v : Cvars) (s t : Server) (r : Request) (n : Numbers) (name : Bytes) (j : ℕ)
    (sent : List Sent) (w : Refusal ⊎ ℕ) (c : Connected)
    → NumbersOf (take 1023 r.userinfo) n
    → Has (take 1023 r.userinfo) (codes "name") name
    → ((k : ℕ) → w ≡ inr k → Admitted o s r n name k)
    → t.clients ≡ s.clients
    → after_gate o v t r n (take 1023 r.userinfo) sent w ≡ ok (some c)
    → c.verdict ≡ inr j
    → Accepted o v s r j c
unfolding after_gate
after_gate-Accepted o v s t r n name j sent (inl why) c x y a q e h =
    absurd (ground (arith, ap (λ (d : Connected). d.verdict) (ok-some-injective _ _ e)))
after_gate-Accepted o v s t r n name j sent (inr k) c x y a q e h =
    place_client-Accepted o v s t r n name k j sent c x y (a k refl) q e h

-- Whenever `SV_DirectConnect` connects a client, with the protocol, challenge, port, name and
-- password that its user info has for these keys: the protocol is the server's, the challenge is one
-- given to its address, it is not denied, no ban that `list_each` meets is of its address or mUID, its
-- name is printable, its place is that of a client of its address or a free one, which is private
-- only with the password, and no other client changes.
pub sv_direct_connect-Accepted :
    (o : Outside) (v : Cvars) (s : Server) (r : Request) (j : ℕ) (c : Connected)
    → sv_direct_connect o v s r ≡ ok (some c)
    → c.verdict ≡ inr j
    → Accepted o v s r j c
unfolding sv_direct_connect
sv_direct_connect-Accepted o v s r j c e h =
    let (n, e1, f) = then_some-some (read_numbers (take 1023 r.userinfo)) _ c e in
    let (name, e2, g) =
      then_some-some (info_value_for_key (take 1023 r.userinfo) (codes "name")) _ c f in
    let t = gate o v s r n name in
    after_gate-Accepted o v s (record s { tables = t.tables }) r n name j t.sent t.verdict c
      (read_numbers-NumbersOf _ n e1) e2 (λ k w. gate-Admitted o v s r n name k w) refl g h
