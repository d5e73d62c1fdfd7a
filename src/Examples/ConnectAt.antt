-- ===== src/Examples/ConnectAt.antt =====
-- A connection at concrete inputs.
use codextended.Prelude.{
  ℕ, Bool, ◌∷◌, ◌++◌, ◌≡◌, refl, false, Option, none, some, [], inl, inr, pos, codes, Outcome, ok,
  err, ◌-ℤ◌,
}
use codextended.Net.{Adr, na_bot, na_ip, net_compare_adr, ip_eq, bytes_eq}
use codextended.Strings.{atoi, is_good_string, stricmp, q_stricmp, q_stricmpn, to_upper}
use codextended.Info.{
  info_value_for_key, value_loop, skip_slash, span_slash, info_set_value_for_key, info_remove_key,
  remove_loop, has_byte, append_pair,
}
use codextended.Client.{
  Client, cs_free, userinfo_changed, rename, set_name, clean_name, set_rates, rate_of,
  snapshot_msec_of,
}
use codextended.Challenge.{Tables}
use codextended.Connect.{
  Server, Cvars, Outside, Request, Numbers, Ban, ip_ban, ban_loop, list_each, too_soon_loop,
  challenge_loop, check_request, prepare, check_slot, gate_slot, gate_at, gate_after, gate,
  place_loop, choose_place, server_full,
}
use codextended.Connect.Gate.{Admitted, gate-Admitted, last_ban-ignored}
use codextended.Connect.Seat.{
  Connected, seat_after, seat, seat_at, place_client, after_gate, read_numbers, sv_direct_connect,
}
use codextended.Connect.Place.{Accepted, sv_direct_connect-Accepted}

abbrev pub host : Adr
host = record {
  type = na_ip;
  ip = record { b0 = 10; b1 = 0; b2 = 0; b3 = 7 };
  ipx = [];
  port = 28960;
}

abbrev pub nobody : Client
nobody = record {
  state = cs_free;
  userinfo = [];
  name = [];
  challenge = pos 0;
  remote_address = record host { type = na_bot };
  qport = pos 0;
  last_client_command = pos 0;
  last_client_command_string = [];
  next_reliable_time = pos 0;
  last_packet_time = pos 0;
  last_connect_time = pos 0;
  next_snapshot_time = pos 0;
  gamestate_message_num = pos 0;
  rate = 0;
  snapshot_msec = 0;
}

abbrev pub tables : Tables
tables = record {
  challenges = λ i. record {
    adr = host;
    challenge = pos 777;
    time = pos 0;
    ping_time = pos 10;
    first_time = pos 0;
    first_ping = pos 0;
    connected = false;
  };
  x_challenges = λ i. record {
    guid = pos 0;
    m_uid = codes "me";
    can_connect = pos 1;
    auth_requested = false;
    msgtime = pos 1;
  };
}

abbrev pub server : Server
server = record { clients = λ i. nobody; tables = tables; bans = []; m_uids = λ i. [] }

abbrev pub cvars : Cvars
cvars = record {
  max_clients = 4;
  private_clients = 1;
  private_password = codes "secret";
  reconnect_limit = pos 3;
  banned_message = codes "banned";
  connect_message = [];
}

abbrev pub outside : Outside
outside = record {
  compare_base = λ a b. ip_eq a.ip b.ip;
  connect = λ i cl. (cl, none);
  free_client = λ cl. cl;
}

abbrev pub packet : Request
packet = record {
  from = host;
  from_text = codes "10.0.0.7:28960";
  userinfo = codes "\\protocol\\1\\challenge\\777\\qport\\5\\name\\Al";
  now = pos 100;
  msgtime = pos 100;
  svs_time = pos 9000;
}

abbrev numbers : Numbers
numbers = record { version = pos 1; challenge = pos 777; qport = pos 5 }

passes : (gate outside cvars server packet numbers (codes "Al")).verdict ≡ inr 0
unfolding gate gate_after check_request ban_loop list_each too_soon_loop challenge_loop
    net_compare_adr ip_eq gate_at gate_slot prepare check_slot is_good_string ◌-ℤ◌
passes = refl

gate-Admitted_example : Admitted outside server packet numbers (codes "Al") 0
gate-Admitted_example = gate-Admitted outside cvars server packet numbers (codes "Al") 0 passes

-- The result, if there is one.
abbrev result : Outcome (Option Connected) → Connected
result (ok (some c)) = c
result (ok none) = record { server = server; sent = []; verdict = inl server_full }
result (err e) = record { server = server; sent = []; verdict = inl server_full }

abbrev after : Connected
after = result (sv_direct_connect outside cvars server packet)

connects : sv_direct_connect outside cvars server packet ≡ ok (some after)
unfolding sv_direct_connect read_numbers info_value_for_key value_loop skip_slash span_slash stricmp
    to_upper atoi gate gate_after check_request ban_loop list_each too_soon_loop challenge_loop
    net_compare_adr ip_eq gate_at gate_slot prepare check_slot is_good_string ◌-ℤ◌ after_gate
    place_client info_set_value_for_key info_remove_key remove_loop has_byte append_pair q_stricmp
    q_stricmpn choose_place place_loop bytes_eq seat_at seat seat_after userinfo_changed rename
    set_name clean_name set_rates rate_of snapshot_msec_of
connects = refl

second_place : after.verdict ≡ inr 1
unfolding sv_direct_connect read_numbers info_value_for_key value_loop skip_slash span_slash stricmp
    to_upper atoi gate gate_after check_request ban_loop list_each too_soon_loop challenge_loop
    net_compare_adr ip_eq gate_at gate_slot prepare check_slot is_good_string ◌-ℤ◌ after_gate
    place_client info_set_value_for_key info_remove_key remove_loop has_byte append_pair q_stricmp
    q_stricmpn choose_place place_loop bytes_eq seat_at seat seat_after userinfo_changed rename
    set_name clean_name set_rates rate_of snapshot_msec_of
second_place = refl

sv_direct_connect-Accepted_example : Accepted outside cvars server packet 1 after
sv_direct_connect-Accepted_example =
    sv_direct_connect-Accepted outside cvars server packet 1 after connects second_place

abbrev ban : ℕ → Ban
ban n = record {
  type = ip_ban;
  m_uid = [];
  adr = record host { ip = record { b0 = 10; b1 = 0; b2 = 0; b3 = n } };
  reason = [];
}

abbrev bans_host : Ban → Bool
bans_host b = ip_eq host.ip b.adr.ip

last_ban-ignored_example :
    ban_loop bans_host (codes "banned") (list_each (ban 5 ∷ (ban 6 ∷ []) ++ ban 7 ∷ []))
    ≡ ban_loop bans_host (codes "banned") (ban 5 ∷ ban 6 ∷ [])
last_ban-ignored_example = last_ban-ignored bans_host (codes "banned") (ban 5) (ban 7) (ban 6 ∷ [])

-- The ban of the address itself stands last, and the loop finds nothing.
host_not_found : ban_loop bans_host (codes "banned") (list_each (ban 5 ∷ ban 6 ∷ ban 7 ∷ [])) ≡ none
unfolding ban_loop list_each ip_eq
host_not_found = refl
