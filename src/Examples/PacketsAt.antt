-- ===== src/Examples/PacketsAt.antt =====
-- Packets from strangers at concrete inputs.
use codextended.Prelude.{◌≡◌, refl, false, none, some, [], ◌∷◌, codes, ok, pos}
use codextended.Net.{bytes_eq}
use codextended.RateLimit.{Limiter, zero_bucket}
use codextended.Packets.{
  World, Env, Arrival, Remote, RemoteClock, sv_connectionless_packet, handle, kind_of,
}
use codextended.Packets.Guard.{Untouched, receive_all, receive_all-Untouched}
use codextended.Packets.Rcon.{Attempt, passed, IsLaterEach, passed-IsLaterEach}
use codextended.Strings.{q_stricmp, q_stricmpn, to_upper}
use codextended.Challenge.{sv_x_authorize}
use codextended.Examples.ConnectAt.{host, server, cvars, outside}

abbrev limiter : Limiter
limiter = record { buckets = λ i. zero_bucket; heads = λ h. none; outbound = zero_bucket }

abbrev remote : Remote
remote = record { bucket = zero_bucket; lasttime = 100 }

abbrev clock : RemoteClock
clock = record { search = pos 5000; limit = pos 5000; global = pos 5000; time = 101 }

abbrev attempt : Attempt
attempt = record { from = host; clock = clock; word = codes "guess"; callback = none }

passed-IsLaterEach_example :
    IsLaterEach 100 (passed (codes "secret") (attempt ∷ attempt ∷ []) limiter remote)
unfolding bytes_eq
passed-IsLaterEach_example =
    passed-IsLaterEach (codes "secret") (attempt ∷ attempt ∷ []) limiter remote (refl, (refl, tt))

abbrev world : World
world = record {
  limiter = limiter;
  server = server;
  remote = remote;
  news = record { clientversion = pos 1; message = [] };
}

abbrev env : Env
env = record {
  status_cvars = record {
    protocol = pos 1;
    hostname = codes "host";
    mapname = codes "mp_harbor";
    max_clients = pos 4;
    private_clients = pos 0;
    gametype = codes "sd";
    pure = pos 0;
    build = pos 20;
    min_ping = pos 0;
    max_ping = pos 0;
    fs_game = [];
    allow_anonymous = pos 0;
    password = [];
  };
  challenge_cvars = record { fs_game = []; allow_anonymous = pos 0; only_visible_clients = pos 0 };
  connect_cvars = cvars;
  connect_outside = outside;
  rcon_password = codes "secret";
  chandelier_name = codes "chandelier";
}

-- A stranger who plays the master.
abbrev arrival : Arrival
arrival = record {
  from = host;
  from_text = codes "10.0.0.7:28960";
  from_master = false;
  args = codes "XAUTHORIZE" ∷ codes "777" ∷ codes "1" ∷ codes "mine" ∷ [];
  status_clock = record { search = pos 5000; limit = pos 5000; outbound = pos 5000 };
  challenge_clock = record {
    search = pos 5000;
    limit = pos 5000;
    outbound = pos 5000;
    svs_time = pos 5000;
  };
  remote_clock = clock;
  number = pos 4;
  now = pos 100;
  msgtime = pos 100;
  svs_time = pos 5000;
  players = [];
  info = [];
  callback = none;
}

received : receive_all env (arrival ∷ []) world ≡ ok (some world)
unfolding receive_all sv_connectionless_packet handle kind_of q_stricmp q_stricmpn to_upper
    sv_x_authorize
received = refl

receive_all-Untouched_example : Untouched world world
receive_all-Untouched_example =
    receive_all-Untouched env (arrival ∷ []) world world (refl, tt) received
