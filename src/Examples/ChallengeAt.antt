-- ===== src/Examples/ChallengeAt.antt =====
-- Challenges at concrete inputs.
use codextended.Prelude.{
  ℕ, ◌+◌, ◌-◌, ◌*◌, ◌≤◌, ◌≡◌, refl, true, false, ◌⊎◌, [], ◌∷◌, arith, pos, codes, Option,
}
use codextended.Net.{Adr, na_bot, na_ip, net_compare_adr}
use codextended.Strings.{atoi}
use codextended.RateLimit.{Limiter, zero_bucket}
use codextended.Challenge.{
  Tables, recycled, find_slot, slot_loop, issue, number_loop, sv_x_authorize, set_numbered,
  authorize,
}
use codextended.Challenge.Slots.{Chosen, AreInts, find_slot-Chosen}
use codextended.Challenge.Issue.{issue-again}
use codextended.Challenge.Flood.{Asked, answers, answers_bound}
use codextended.Challenge.Authorize.{Allows, sv_x_authorize-Allows}

abbrev nobody : Adr
nobody = record {
  type = na_bot;
  ip = record { b0 = 0; b1 = 0; b2 = 0; b3 = 0 };
  ipx = [];
  port = 0;
}

abbrev host : Adr
host = record {
  type = na_ip;
  ip = record { b0 = 10; b1 = 0; b2 = 0; b3 = 7 };
  ipx = [];
  port = 28960;
}

-- Tables whose slots were used before, by clients of another mUID.
abbrev tables : Tables
tables = record {
  challenges = λ i. record {
    adr = nobody;
    challenge = pos i;
    time = pos 0;
    ping_time = pos 0;
    first_time = pos 0;
    first_ping = pos 0;
    connected = false;
  };
  x_challenges = λ i. record {
    guid = pos 0;
    m_uid = codes "someone";
    can_connect = pos 0;
    auth_requested = false;
    msgtime = pos 0;
  };
}

tables-AreInts : AreInts tables.challenges
tables-AreInts j b = omega arith

host_itself : net_compare_adr host host ≡ true
unfolding net_compare_adr
host_itself = refl

find_slot-Chosen_example : Chosen tables.challenges host (find_slot tables.challenges host)
find_slot-Chosen_example = find_slot-Chosen tables.challenges host tables-AreInts

issue-again_example :
    ((issue (issue tables host (pos 777) (pos 50)).0 host (pos 888) (pos 90)).1
      ≡ (issue tables host (pos 777) (pos 50)).1)
    × (((issue (issue tables host (pos 777) (pos 50)).0 host (pos 888) (pos 90)).0.challenges
          (issue tables host (pos 777) (pos 50)).1).challenge
        ≡ ((issue tables host (pos 777) (pos 50)).0.challenges
            (issue tables host (pos 777) (pos 50)).1).challenge)
issue-again_example =
    issue-again tables host (pos 777) (pos 888) (pos 50) (pos 90) host_itself tables-AreInts

none_waits : find_slot tables.challenges host ≡ recycled 0
unfolding find_slot slot_loop net_compare_adr
none_waits = refl

abbrev limiter : Limiter
limiter = record { buckets = λ i. zero_bucket; heads = λ h. Option.none; outbound = zero_bucket }

abbrev asked : ℕ → Asked
asked t = record {
  from = host;
  number = pos 777;
  search = pos t;
  limit = pos t;
  at = t;
  svs_time = pos t;
  cvars = record { fs_game = []; allow_anonymous = pos 0; only_visible_clients = pos 0 };
}

answers_bound_example : answers limiter tables (asked 10 ∷ asked 20 ∷ []) * 100 ≤ 1000 + (30 - 0)
answers_bound_example =
    answers_bound limiter tables 0 0 30 (asked 10 ∷ asked 20 ∷ [])
      (record { count = refl; time = refl }) (omega arith) (omega arith, (omega arith, omega arith))

allowed_three :
    ((sv_x_authorize tables true (codes "3") (codes "1") (codes "me")).x_challenges 3).can_connect
    ≡ pos 1
unfolding sv_x_authorize set_numbered authorize number_loop atoi
allowed_three = refl

sv_x_authorize-Allows_example :
    ((tables.x_challenges 3).can_connect ≡ pos 1)
    ⊎ Allows tables 3 true (codes "3") (codes "1") (codes "me")
sv_x_authorize-Allows_example =
    sv_x_authorize-Allows tables true (codes "3") (codes "1") (codes "me") 3 allowed_three
