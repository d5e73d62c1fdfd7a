-- ===== src/Connect.antt =====
-- A client connects: `SV_DirectConnect` of src/sv_client.c, for packets. (A bot comes without a
-- packet, skips the tests, and leaves `challenge` and `qport` without a value.) The comparison of
-- base addresses and the game's answer are code of the binaries, and parameters.
pub mod Seat
pub mod Gate
pub mod Place
pub mod Kept
use codextended.Prelude.{
  ℕ, zero, suc, ◌+◌, ◌-◌, ◌*◌, Bool, true, false, not, ◌&&◌, ◌||◌, Option, none, some, List, [],
  ◌∷◌, ◌++◌, ◌==◌, ltb, if◌then◌else◌, take, ℤ, pos, negsuc, ◌-ℤ◌, ltb_ℤ, eqb_ℤ, ◌⊎◌, inl, inr,
  Bytes, codes, write, is_empty, Outcome, ok, err, then_some,
}
use codextended.Net.{Adr, bytes_eq, net_compare_adr}
use codextended.Strings.{atoi, is_good_string}
use codextended.Info.{max_info_string, info_value_for_key, info_set_value_for_key}
use codextended.Client.{Client, ClientState, cs_free, cs_zombie, cs_connected, userinfo_changed}
use codextended.Challenge.{Challenge, XChallenge, Tables, max_challenges}

-- `banInfo_t`.
pub data BanType : Type 0 where
  muid_ban ip_ban : BanType

pub record Ban : Type 0 where
  pub type : BanType
  pub m_uid : Bytes
  pub adr : Adr
  pub reason : Bytes

-- The clients, the tables of challenges, the bans, and the mUIDs of `xclients`.
pub record Server : Type 0 where
  pub clients : ℕ → Client
  pub tables : Tables
  pub bans : List Ban
  pub m_uids : ℕ → Bytes

pub record Cvars : Type 0 where
  pub max_clients : ℕ
  pub private_clients : ℕ
  pub private_password : Bytes
  pub reconnect_limit : ℤ
  pub banned_message : Bytes
  pub connect_message : Bytes

-- What the code outside decides: `NET_CompareBaseAdr`, and the game, which may change the client
-- and may deny it.
pub record Outside : Type 0 where
  pub compare_base : Adr → Adr → Bool
  pub connect : ℕ → Client → Client × Option Bytes
  pub free_client : Client → Client

-- The packet: its address, that address as text, and the user info; the two readings of `time`,
-- and `svs_time`.
pub record Request : Type 0 where
  pub from : Adr
  pub from_text : Bytes
  pub userinfo : Bytes
  pub now : ℤ
  pub msgtime : ℤ
  pub svs_time : ℤ

-- The numbers in the user info.
pub record Numbers : Type 0 where
  pub version : ℤ
  pub challenge : ℤ
  pub qport : ℤ

-- Why a packet is not answered by a connection.
pub data Refusal : Type 0 where
  different_version too_soon bad_challenge wait_for_master disconnected illegal_name server_full :
      Refusal
  banned please_wait denied : Bytes → Refusal

abbrev pub drop_last {ℓ} : {A : Type ℓ} → List A → List A
drop_last [] = []
drop_last (x ∷ []) = []
drop_last (x ∷ y ∷ ys) = x ∷ drop_last (y ∷ ys)

-- The elements that the body of `list_each` of src/util.h meets, in order: the macro moves on only
-- after it has read the element again, so the first one comes twice and the last one not at all.
unfoldable pub list_each {ℓ} : {A : Type ℓ} → List A → List A
list_each [] = []
list_each (x ∷ xs) = x ∷ drop_last (x ∷ xs)

-- Both loops over the bans: the reason of the first one that meets the test.
unfoldable pub ban_loop : (Ban → Bool) → Bytes → List Ban → Option Bytes
ban_loop test message [] = none
ban_loop test message (b ∷ bans) =
    let rest = ban_loop test message bans in
    if test b then some (if is_empty b.reason then message else b.reason) else rest

abbrev pub is_ip_ban : (Adr → Adr → Bool) → Adr → Ban → Bool
is_ip_ban compare_base from b = elim b.type [ ip_ban ↦ compare_base from b.adr | muid_ban ↦ false ]

abbrev pub is_muid_ban : Bytes → Ban → Bool
is_muid_ban m_uid b = elim b.type [ muid_ban ↦ bytes_eq m_uid b.m_uid | ip_ban ↦ false ]

-- Whether the packet comes from where a client's packets come from.
abbrev pub is_from : (Adr → Adr → Bool) → Adr → ℤ → Client → Bool
is_from compare_base from qport cl =
    compare_base from cl.remote_address
    && (eqb_ℤ cl.qport qport || from.port == cl.remote_address.port)

abbrev pub times : ℤ → ℕ → ℤ
times (pos n) d = pos (n * d)
times (negsuc n) d = pos 0 -ℤ pos (suc n * d)

-- The loop for the reconnect limit: `left` clients to go from place `i` on.
unfoldable pub too_soon_loop : ℕ → ℕ → (ℕ → Client) → (Client → Bool) → (Client → Bool) → Bool
too_soon_loop zero i clients same soon = false
too_soon_loop (suc left) i clients same soon =
    let rest = too_soon_loop left (suc i) clients same soon in
    if same (clients i) then soon (clients i) else rest

-- The loop over the challenges.
unfoldable pub challenge_loop : ℕ → ℕ → (ℕ → Challenge) → Adr → ℤ → Option ℕ
challenge_loop zero i challenges from number = none
challenge_loop (suc left) i challenges from number =
    let rest = challenge_loop left (suc i) challenges from number in
    if net_compare_adr from (challenges i).adr && eqb_ℤ (challenges i).challenge number
    then some i
    else rest

-- From the version to the reconnect limit.
unfoldable pub check_request : Outside → Cvars → Server → Request → Numbers → Option Refusal
check_request o v s r n =
    if not (eqb_ℤ n.version (pos 1))
    then some different_version
    else elim (ban_loop (is_ip_ban o.compare_base r.from) v.banned_message (list_each s.bans)) [
      | some reason ↦ some (banned reason)
      | none ↦
          if too_soon_loop v.max_clients 0 s.clients (is_from o.compare_base r.from n.qport)
            (λ cl. ltb_ℤ (r.svs_time -ℤ cl.last_connect_time) (times v.reconnect_limit 1000))
          then some too_soon
          else none
    ]

-- A message to the master, "getXAuthorize", with the number of the challenge, the address and the
-- `qport`.
pub data Sent : Type 0 where
  get_x_authorize : ℤ → Adr → ℤ → Sent

-- The request for authorization, and the start of the three seconds.
unfoldable pub prepare : Challenge → XChallenge → Request → ℤ → XChallenge × List Sent
prepare c x r qport =
    let asks = not x.auth_requested && is_empty x.m_uid in
    let asked = if asks then record x { auth_requested = true } else x in
    let timed =
      if eqb_ℤ asked.msgtime (pos 0) then record asked { msgtime = r.msgtime } else asked in
    (timed, if asks then get_x_authorize c.challenge r.from qport ∷ [] else [])

-- From the three seconds to the name: the slot after, and why to stop, if so.
unfoldable pub check_slot :
    Cvars → Server → Request → Challenge → XChallenge → Bytes → XChallenge × Option Refusal
check_slot v s r c x name =
    let x' = record x { auth_requested = false } in
    if ltb_ℤ (r.now -ℤ x.msgtime) (pos 3)
    then (x, some (please_wait v.connect_message))
    else if x.auth_requested && ltb_ℤ (r.svs_time -ℤ c.ping_time) (pos 2500)
    then (x, some wait_for_master)
    else if eqb_ℤ x.can_connect (negsuc 0)
    then (x', some disconnected)
    else elim (ban_loop (is_muid_ban x.m_uid) v.banned_message (list_each s.bans)) [
      | some reason ↦ (x', some (banned reason))
      | none ↦ if is_good_string name then (x', none) else (x', some illegal_name)
    ]

-- The challenge of a client that may connect.
unfoldable pub mark_connected : Challenge → ℤ → Challenge
mark_connected c svs_time = record c {
  first_ping = if eqb_ℤ c.first_ping (pos 0) then svs_time -ℤ c.ping_time else c.first_ping;
  connected = true;
}

pub record Tested : Type 0 where
  pub tables : Tables
  pub sent : List Sent
  pub verdict : Refusal ⊎ ℕ

-- What follows `check_slot` on slot `i`.
unfoldable pub gate_slot : Server → Request → ℕ → List Sent → XChallenge × Option Refusal → Tested
gate_slot s r i sent (x, some why) = record {
  tables = record s.tables { x_challenges = write s.tables.x_challenges i x };
  sent = sent;
  verdict = inl why;
}
gate_slot s r i sent (x, none) = record {
  tables = record {
    challenges = write s.tables.challenges i (mark_connected (s.tables.challenges i) r.svs_time);
    x_challenges = write s.tables.x_challenges i x;
  };
  sent = sent;
  verdict = inr i;
}

-- What follows the search for the challenge.
unfoldable pub gate_at : Cvars → Server → Request → ℤ → Bytes → Option ℕ → Tested
gate_at v s r qport name none = record { tables = s.tables; sent = []; verdict = inl bad_challenge }
gate_at v s r qport name (some i) =
    let c = s.tables.challenges i in
    let (prepared, sent) = prepare c (s.tables.x_challenges i) r qport in
    gate_slot s r i sent (check_slot v s r c prepared name)

-- What follows `check_request`.
unfoldable pub gate_after : Cvars → Server → Request → Numbers → Bytes → Option Refusal → Tested
gate_after v s r n name (some why) = record { tables = s.tables; sent = []; verdict = inl why }
gate_after v s r n name none =
    gate_at v s r n.qport name
      (challenge_loop max_challenges 0 s.tables.challenges r.from n.challenge)

-- All tests on a packet; the second part of the verdict is the place of its challenge.
unfoldable pub gate : Outside → Cvars → Server → Request → Numbers → Bytes → Tested
gate o v s r n name = gate_after v s r n name (check_request o v s r n)

abbrev pub is_free : Client → Bool
is_free cl = elim cl.state [ cs_free ↦ true | _ ↦ false ]

-- The loop for a client that reconnects, and the loop for a free place.
unfoldable pub place_loop : ℕ → ℕ → (ℕ → Client) → (Client → Bool) → Option ℕ
place_loop zero i clients test = none
place_loop (suc left) i clients test =
    let rest = place_loop left (suc i) clients test in if test (clients i) then some i else rest

abbrev pub or_else : Option ℕ → Option ℕ → Option ℕ
or_else (some i) other = some i
or_else none other = other

-- The place of the new client: that of a client that reconnects, or a free one. The private
-- password opens the private places. `SV_FreeClient`, which is called for a client that reconnects, is
-- in `vacate` of Connect.Seat.
unfoldable pub choose_place : Outside → Cvars → Server → Request → ℤ → Bytes → Option ℕ
choose_place o v s r qport password =
    let reconnecting =
      place_loop v.max_clients 0 s.clients
        (λ cl. not (is_free cl) && is_from o.compare_base r.from qport cl) in
    let start = if bytes_eq password v.private_password then 0 else v.private_clients in
    or_else reconnecting (place_loop (v.max_clients - start) start s.clients is_free)
