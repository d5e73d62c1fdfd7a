-- ===== src/Connect/Seat.antt =====
-- The place of a client that has passed the tests, and `SV_DirectConnect` as a whole.
use codextended.Prelude.{
  ℤ, ℕ, Bool, true, false, if◌then◌else◌, Option, none, some, List, [], take, pos, negsuc, ◌⊎◌, inl,
  inr, Bytes, codes, write, Outcome, ok, then_some,
}
use codextended.Strings.{atoi}
use codextended.Info.{max_info_string, info_value_for_key, info_set_value_for_key}
use codextended.Client.{Client, ClientState, cs_free, cs_zombie, cs_connected, userinfo_changed}
use codextended.Connect.{
  Server, Cvars, Outside, Request, Numbers, Refusal, Sent, gate, choose_place, server_full, denied,
}

-- `memset`, and what `Netchan_Setup` and the copies of the user info and the challenge set.
abbrev pub fresh_client : Request → Numbers → Bytes → Client
fresh_client r n userinfo = record {
  state = cs_free;
  userinfo = take 1023 userinfo;
  name = [];
  challenge = n.challenge;
  remote_address = r.from;
  qport = n.qport;
  last_client_command = pos 0;
  last_client_command_string = [];
  next_reliable_time = pos 0;
  last_packet_time = pos 0;
  last_connect_time = pos 0;
  next_snapshot_time = pos 0;
  gamestate_message_num = pos 0;
  rate = 0;
  snapshot_msec = 0;
}

pub record Connected : Type 0 where
  pub server : Server
  pub sent : List Sent
  pub verdict : Refusal ⊎ ℕ

-- The client that the game has let in.
abbrev pub let_in : Client → ℤ → Client
let_in cl svs_time = record cl {
  state = cs_connected;
  next_snapshot_time = svs_time;
  last_packet_time = svs_time;
  last_connect_time = svs_time;
  gamestate_message_num = negsuc 0;
}

-- What follows the game's answer, for place `i` and the challenge at `k`.
unfoldable pub seat_after :
    Outside
    → Server
    → Request
    → ℕ
    → ℕ
    → List Sent
    → Client × Option Bytes
    → Outcome (Option Connected)
seat_after o s r k i sent (cl, some why) = ok (
    some (record {
      server = record s { clients = write s.clients i (o.free_client cl) };
      sent = sent;
      verdict = inl (denied why);
    }))
seat_after o s r k i sent (cl, none) = then_some (userinfo_changed cl false) λ changed. ok (
    some (record {
      server = record s {
        clients = write s.clients i (let_in changed r.svs_time);
        tables = record s.tables {
          challenges =
              write s.tables.challenges k (record (s.tables.challenges k) { first_ping = pos 0 });
        };
      };
      sent = sent;
      verdict = inr i;
    }))

-- From `gotnewcl` on.
unfoldable pub seat :
    Outside → Server → Request → Numbers → Bytes → ℕ → ℕ → List Sent → Outcome (Option Connected)
seat o s r n userinfo k i sent =
    let m_uids = write s.m_uids i (s.tables.x_challenges k).m_uid in
    seat_after o (record s { m_uids = m_uids }) r k i sent (o.connect i (fresh_client r n userinfo))

-- `cl->state > 1`.
abbrev pub is_above_zombie : ClientState → Bool
is_above_zombie cs_free = false
is_above_zombie cs_zombie = false
is_above_zombie _ = true

-- `SV_FreeClient` of a client that reconnects; a place that is free is left as it is.
abbrev pub vacate : Outside → Server → ℕ → Server
vacate o s i = record s {
  clients =
      write s.clients i
        (if is_above_zombie (s.clients i).state then o.free_client (s.clients i) else s.clients i);
}

-- What follows the search for a place.
unfoldable pub seat_at :
    Outside
    → Server
    → Request
    → Numbers
    → Bytes
    → ℕ
    → List Sent
    → Option ℕ
    → Outcome (Option Connected)
seat_at o s r n userinfo k sent none =
    ok (some (record { server = s; sent = sent; verdict = inl server_full }))
seat_at o s r n userinfo k sent (some i) = seat o (vacate o s i) r n userinfo k i sent

-- After the tests have been passed.
unfoldable pub place_client :
    Outside
    → Cvars
    → Server
    → Request
    → Numbers
    → Bytes
    → ℕ
    → List Sent
    → Outcome (Option Connected)
place_client o v s r n userinfo k sent =
    then_some (info_set_value_for_key max_info_string userinfo (codes "ip") r.from_text) λ info.
      then_some (info_value_for_key info (codes "password"))
        λ password. seat_at o s r n info k sent (choose_place o v s r n.qport password)

-- What follows the tests.
unfoldable pub after_gate :
    Outside
    → Cvars
    → Server
    → Request
    → Numbers
    → Bytes
    → List Sent
    → Refusal ⊎ ℕ
    → Outcome (Option Connected)
after_gate o v s r n userinfo sent (inl why) =
    ok (some (record { server = s; sent = sent; verdict = inl why }))
after_gate o v s r n userinfo sent (inr k) = place_client o v s r n userinfo k sent

-- The fields of the user info that the tests read.
unfoldable pub read_numbers : Bytes → Outcome (Option Numbers)
read_numbers userinfo = then_some (info_value_for_key userinfo (codes "protocol")) λ version.
    then_some (info_value_for_key userinfo (codes "challenge")) λ challenge.
      then_some (info_value_for_key userinfo (codes "qport")) λ qport.
        ok
          (some (record { version = atoi version; challenge = atoi challenge; qport = atoi qport }))

unfoldable pub sv_direct_connect : Outside → Cvars → Server → Request → Outcome (Option Connected)
sv_direct_connect o v s r =
    let userinfo = take 1023 r.userinfo in
    then_some (read_numbers userinfo) λ n.
      then_some (info_value_for_key userinfo (codes "name")) λ name.
        let g = gate o v s r n name in
        after_gate o v (record s { tables = g.tables }) r n userinfo g.sent g.verdict
