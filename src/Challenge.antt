-- ===== src/Challenge.antt =====
-- Challenges for addresses that want to connect: `SV_GetChallenge` and `SV_XAuthorize` of
-- src/sv_client.c over `challenges` and `x_challenges` of src/server.h. The numbers of `printf`
-- texts are fields of a packet.
pub mod Slots
pub mod Issue
pub mod Flood
pub mod Authorize
pub mod Kept
pub mod Guid
use codextended.Prelude.{
  ℕ, zero, suc, ◌+◌, Bool, true, false, not, ◌&&◌, Option, none, some, List, [], ◌∷◌, ◌==◌,
  if◌then◌else◌, take, ℤ, pos, negsuc, ltb_ℤ, eqb_ℤ, Bytes, write, is_empty,
}
use codextended.Net.{Adr, Ip, net_compare_adr}
use codextended.Strings.{atoi}
use codextended.RateLimit.{Limiter, svc_rate_limit_address, svc_rate_limit_outbound}

abbrev pub max_challenges : ℕ
max_challenges = 1024

-- `challenge_t`.
pub record Challenge : Type 0 where
  pub adr : Adr
  pub challenge : ℤ
  pub time : ℤ
  pub ping_time : ℤ
  pub first_time : ℤ
  pub first_ping : ℤ
  pub connected : Bool

-- `x_challenge`.
pub record XChallenge : Type 0 where
  pub guid : ℤ
  pub m_uid : Bytes
  pub can_connect : ℤ
  pub auth_requested : Bool
  pub msgtime : ℤ

pub record Tables : Type 0 where
  pub challenges : ℕ → Challenge
  pub x_challenges : ℕ → XChallenge

-- The end of the search: the address has a slot, or the slot with the oldest challenge is taken.
pub data Slot : Type 0 where
  known recycled : ℕ → Slot

-- Whether the search stops at a slot.
abbrev pub is_waiting : Adr → Challenge → Bool
is_waiting from c = not c.connected && net_compare_adr from c.adr

-- The search, with `left` slots to go from place `i` on.
unfoldable pub slot_loop : ℕ → ℕ → (ℕ → Challenge) → Adr → ℕ → ℤ → Slot
slot_loop zero i challenges from oldest oldest_time = recycled oldest
slot_loop (suc left) i challenges from oldest oldest_time =
    let older = ltb_ℤ (challenges i).time oldest_time in
    let rest =
      slot_loop left (suc i) challenges from (if older then i else oldest)
        (if older then (challenges i).time else oldest_time) in
    if is_waiting from (challenges i) then known i else rest

unfoldable pub find_slot : (ℕ → Challenge) → Adr → Slot
find_slot challenges from = slot_loop max_challenges 0 challenges from 0 (pos 0x7fffffff)

-- A slot that is taken; `number` is the value of `( ( rand() << 16 ) ^ rand() ) ^ svs_time`.
unfoldable pub recycle : Tables → ℕ → Adr → ℤ → ℤ → Tables
recycle s i from number now = record {
  challenges = write s.challenges i (record (s.challenges i) {
    adr = from;
    challenge = number;
    time = now;
    first_time = now;
    first_ping = pos 0;
    connected = false;
  });
  x_challenges =
      write s.x_challenges i (record (s.x_challenges i) {
        can_connect = pos 0;
        auth_requested = false;
        msgtime = pos 0;
      });
}

unfoldable pub touch : Tables → ℕ → ℤ → Tables
touch s i now = record s {
  challenges = write s.challenges i (record (s.challenges i) { ping_time = now });
}

-- What follows the search.
unfoldable pub give : Tables → Adr → ℤ → ℤ → Slot → Tables × ℕ
give s from number now (known i) = (touch s i now, i)
give s from number now (recycled i) = (touch (recycle s i from number now) i now, i)

-- The slot of the address, and the tables after.
unfoldable pub issue : Tables → Adr → ℤ → ℤ → Tables × ℕ
issue s from number now = give s from number now (find_slot s.challenges from)

-- "getIpAuthorize" to the authorize server, and "challengeResponse" to the address of the slot,
-- with `sv_onlyVisibleClients` unless that is 0.
pub data Packet : Type 0 where
  get_ip_authorize : ℤ → Ip → Bytes → ℤ → Packet
  challenge_response : Adr → ℤ → Option ℤ → Packet

-- The cvars: `fs_game`, `sv_allowAnonymous` and `sv_onlyVisibleClients`.
pub record Cvars : Type 0 where
  pub fs_game : Bytes
  pub allow_anonymous : ℤ
  pub only_visible_clients : ℤ

-- The readings of the clock: two for the address's bucket, one for the outbound bucket, and
-- `svs_time`.
pub record Clock : Type 0 where
  pub search : ℤ
  pub limit : ℤ
  pub outbound : ℤ
  pub svs_time : ℤ

abbrev pub visible : ℤ → Option ℤ
visible n = if eqb_ℤ n (pos 0) then none else some n

unfoldable pub respond : Tables → ℕ → Adr → Cvars → List Packet
respond s i from v =
    get_ip_authorize (s.challenges i).challenge from.ip v.fs_game v.allow_anonymous
    ∷ challenge_response (s.challenges i).adr (s.challenges i).challenge
        (visible v.only_visible_clients)
    ∷ []

unfoldable pub sv_get_challenge :
    Limiter → Tables → Adr → ℤ → Clock → Cvars → Limiter × Tables × List Packet
sv_get_challenge limiter s from number t v =
    let (limited, after) = svc_rate_limit_address limiter from t.search t.limit 10 1000 in
    let (full, last) = svc_rate_limit_outbound after t.outbound 10 100 in
    let (s', i) = issue s from number t.svs_time in
    if limited
    then (after, s, [])
    else if full
    then (last, s, [])
    else (last, s', respond s' i from v)

-- The loop of `SV_XAuthorize` over the numbers.
unfoldable pub number_loop : ℕ → ℕ → (ℕ → Challenge) → ℤ → Option ℕ
number_loop zero i challenges number = none
number_loop (suc left) i challenges number =
    let rest = number_loop left (suc i) challenges number in
    if eqb_ℤ (challenges i).challenge number then some i else rest

unfoldable pub authorize : XChallenge → ℤ → Bytes → XChallenge
authorize x allowed m_uid =
    let x' = record x { auth_requested = false } in
    if eqb_ℤ allowed (pos 0)
    then record x' { can_connect = negsuc 0 }
    else if is_empty m_uid
    then x'
    else record x' { m_uid = take 32 m_uid; can_connect = pos 1 }

-- What follows the loop.
unfoldable pub set_numbered : Tables → Option ℕ → ℤ → Bytes → Tables
set_numbered s none allowed m_uid = s
set_numbered s (some i) allowed m_uid = record s {
  x_challenges = write s.x_challenges i (authorize (s.x_challenges i) allowed m_uid);
}

-- `from_master` is `NET_CompareBaseAdr( from, x_master )`, code of the game binary; the arguments
-- are the words of the packet.
unfoldable pub sv_x_authorize : Tables → Bool → Bytes → Bytes → Bytes → Tables
sv_x_authorize s from_master arg1 arg2 arg3 =
    if not from_master
    then s
    else set_numbered s (number_loop max_challenges 0 s.challenges (atoi arg1)) (atoi arg2) arg3
