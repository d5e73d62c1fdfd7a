-- ===== src/Packets.antt =====
-- Packets from strangers: `SV_ConnectionlessPacket` of src/sv_main.c, which hands each to the
-- component that answers it, with `SVC_RemoteCommand`, `SVC_Chandelier` and `SVC_IsGood`. Reading
-- and decompressing a packet and splitting it into words is code of the game binary: the words are
-- an argument, and so are the readings of the clocks. The lines for patch level 1 are modelled.
pub mod Rcon
pub mod Guard
pub mod Idle
use codextended.Prelude.{
  ℕ, zero, suc, ◌+◌, Bool, true, false, not, ◌&&◌, ◌||◌, Option, none, some, List, [], ◌∷◌, ltb,
  ◌==◌, if◌then◌else◌, take, get_or, ℤ, pos, eqb_ℤ, Bytes, codes, is_empty, Outcome, ok, err,
  then_some, ◌⊎◌, inl, inr,
}
use codextended.Net.{Adr, bytes_eq}
use codextended.Strings.{q_stricmp, atoi}
use codextended.RateLimit.{Bucket, Limiter, svc_rate_limit, svc_rate_limit_address}
use codextended.Challenge.{Tables, sv_get_challenge, sv_x_authorize}
use codextended.Challenge
use codextended.Connect.{Server, Refusal}
use codextended.Connect
use codextended.Connect.Seat.{Connected, sv_direct_connect}
use codextended.Status.{Player, svc_info, svc_status}
use codextended.Status

-- `SVC_IsGood`, with its static variable; times are seconds, and 0 stands for none.
unfoldable pub svc_is_good : ℕ → ℕ → Bool × ℕ
svc_is_good lastgood now =
    if lastgood == 0
    then (true, now)
    else if ltb now (lastgood + 5)
    then (false, lastgood)
    else (true, now)

-- The static variables of `SVC_RemoteCommand`: `bucket`, and `lasttime` in seconds.
pub record Remote : Type 0 where
  pub bucket : Bucket
  pub lasttime : ℕ

-- The readings of the clock: two for the address's bucket, one for the other, in milliseconds, and
-- `time`, in seconds.
pub record RemoteClock : Type 0 where
  pub search : ℤ
  pub limit : ℤ
  pub global : ℤ
  pub time : ℕ

-- `callbackRemoteCommand`: `none` without one, and otherwise what `Scr_Continue` answers.
abbrev pub may_continue : Option Bool → Bool
may_continue none = true
may_continue (some b) = b

-- After the limits; the flag says whether the command goes on to the game's own function.
unfoldable pub try_password : Remote → ℕ → Bytes → Bytes → Option Bool → Bool × Remote
try_password r now word password callback =
    if is_empty password
    then (false, r)
    else if bytes_eq word password
    then (may_continue callback, r)
    else if ltb now (r.lasttime + 1)
    then (false, r)
    else (may_continue callback, record r { lasttime = now })

unfoldable pub after_limit :
    Remote → RemoteClock → Bytes → Bytes → Option Bool → Bool × Bucket → Bool × Remote
after_limit r t word password callback (limited, b) =
    if limited
    then (false, record r { bucket = b })
    else try_password (record r { bucket = b }) t.time word password callback

unfoldable pub remote_allowed : Remote → RemoteClock → Bytes → Bytes → Option Bool → Bool × Remote
remote_allowed r t word password callback =
    if is_empty password || not (bytes_eq word password)
    then after_limit r t word password callback (svc_rate_limit r.bucket t.global 10 1000)
    else try_password r t.time word password callback

unfoldable pub svc_remote_command :
    Limiter → Remote → Adr → RemoteClock → Bytes → Bytes → Option Bool → Bool × Limiter × Remote
svc_remote_command l r from t word password callback =
    let (limited, l') = svc_rate_limit_address l from t.search t.limit 10 1000 in
    let (runs, r') = remote_allowed r t word password callback in
    if limited then (false, l', r) else (runs, l', r')

-- `clientversion` and `x_print_connect_message`.
pub record News : Type 0 where
  pub clientversion : ℤ
  pub message : Bytes

-- The words 2 and 3 of the packet; `from_master` is `NET_CompareBaseAdr( *from, x_master )`. The
-- console message about a newer build is left out.
unfoldable pub svc_chandelier : Bool → List Bytes → News → News
svc_chandelier from_master args n =
    let txt = get_or args 2 [] in
    let n' = record n { clientversion = atoi (get_or args 3 []) } in
    if not from_master
    then n
    else if is_empty txt
    then n'
    else record n' { message = take 1023 txt }

-- What the packet asks for.
pub data Kind : Type 0 where
  get_status get_info get_challenge connect ip_authorize x_authorize rcon chandelier disconnect
        bad :
      Kind

abbrev pub is_word : Bytes → Bytes → Bool
is_word c word = eqb_ℤ (q_stricmp c word) (pos 0)

-- The chain of comparisons; `name` is `SVC_CHANDELIER`.
unfoldable pub kind_of : Bytes → Bytes → Kind
kind_of name c =
    if is_word c (codes "getstatus")
    then get_status
    else if is_word c (codes "getinfo")
    then get_info
    else if is_word c (codes "getchallenge")
    then get_challenge
    else if is_word c (codes "connect")
    then connect
    else if is_word c (codes "ipAuthorize")
    then ip_authorize
    else if is_word c (codes "xAuthorize")
    then x_authorize
    else if is_word c (codes "rcon")
    then rcon
    else if is_word c name
    then chandelier
    else if is_word c (codes "disconnect")
    then disconnect
    else bad

-- All that packets from strangers change.
pub record World : Type 0 where
  pub limiter : Limiter
  pub server : Server
  pub remote : Remote
  pub news : News

-- The cvars, and the code outside.
pub record Env : Type 0 where
  pub status_cvars : Status.Cvars
  pub challenge_cvars : Challenge.Cvars
  pub connect_cvars : Connect.Cvars
  pub connect_outside : Connect.Outside
  pub rcon_password : Bytes
  pub chandelier_name : Bytes

-- A packet: its address, its words, and what the code reads meanwhile: clocks, the random number
-- for a challenge, the clients for a status, `Cvar_InfoString( 4 )`, and the script's answer.
pub record Arrival : Type 0 where
  pub from : Adr
  pub from_text : Bytes
  pub from_master : Bool
  pub args : List Bytes
  pub status_clock : Status.Clock
  pub challenge_clock : Challenge.Clock
  pub remote_clock : RemoteClock
  pub number : ℤ
  pub now : ℤ
  pub msgtime : ℤ
  pub svs_time : ℤ
  pub players : List Player
  pub info : Bytes
  pub callback : Option Bool

-- What is sent or done in answer; a verdict is that of `SV_DirectConnect`.
pub data Answer : Type 0 where
  silence run_command : Answer
  status_response : Option (Outcome (Option Bytes) × Bytes) → Answer
  info_response : Option (Outcome (Option Bytes)) → Answer
  challenge_response : List Challenge.Packet → Answer
  connect_response : List Connect.Sent → Refusal ⊎ ℕ → Answer

abbrev pub word_at : Arrival → ℕ → Bytes
word_at p i = get_or p.args i []

abbrev pub set_tables : World → Tables → World
set_tables w t = record w { server = record w.server { tables = t } }

-- The request that `SV_DirectConnect` reads.
abbrev pub request_of : Arrival → Connect.Request
request_of p = record {
  from = p.from;
  from_text = p.from_text;
  userinfo = word_at p 1;
  now = p.now;
  msgtime = p.msgtime;
  svs_time = p.svs_time;
}

unfoldable pub handle : Env → Kind → Arrival → World → Outcome (Option (World × Answer))
handle e get_status p w =
    let (l, reply) =
      svc_status w.limiter p.from p.status_clock (word_at p 1) p.info p.players e.status_cvars in
    ok (some (record w { limiter = l }, status_response reply))
handle e get_info p w =
    let (l, reply) =
      svc_info w.limiter p.from p.status_clock (word_at p 1) p.players e.status_cvars in
    ok (some (record w { limiter = l }, info_response reply))
handle e get_challenge p w =
    let (l, t, sent) =
      sv_get_challenge w.limiter w.server.tables p.from p.number p.challenge_clock
        e.challenge_cvars in
    ok (some (set_tables (record w { limiter = l }) t, challenge_response sent))
handle e connect p w =
    then_some (sv_direct_connect e.connect_outside e.connect_cvars w.server (request_of p))
      λ c. ok (some (record w { server = c.server }, connect_response c.sent c.verdict))
handle e ip_authorize p w = ok (some (w, silence))
handle e x_authorize p w =
    let t =
      sv_x_authorize w.server.tables p.from_master (word_at p 1) (word_at p 2) (word_at p 3) in
    ok (some (set_tables w t, silence))
handle e rcon p w =
    let (runs, l, r) =
      svc_remote_command w.limiter w.remote p.from p.remote_clock (word_at p 1) e.rcon_password
        p.callback in
    ok (some (record w { limiter = l; remote = r }, if runs then run_command else silence))
handle e chandelier p w =
    ok (some (record w { news = svc_chandelier p.from_master p.args w.news }, silence))
handle e disconnect p w = ok (some (w, silence))
handle e bad p w = ok (some (w, silence))

unfoldable pub sv_connectionless_packet : Env → Arrival → World → Outcome (Option (World × Answer))
sv_connectionless_packet e p w = handle e (kind_of e.chandelier_name (word_at p 0)) p w
