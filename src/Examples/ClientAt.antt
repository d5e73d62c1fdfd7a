-- ===== src/Examples/ClientAt.antt =====
-- Clients at concrete inputs.
use codextended.Prelude.{
  ◌≡◌, refl, true, false, some, List, [], ◌∷◌, arith, ℤ, pos, ◌+ℤ◌, codes, ok,
}
use codextended.Net.{na_ip, bytes_eq}
use codextended.Strings.{atoi, q_stricmp, q_stricmpn, to_upper}
use codextended.Strings.Search.{starts_with}
use codextended.Client.{Client, cs_connected, userinfo_changed}
use codextended.Client.Userinfo.{Changed, userinfo_changed-Changed}
use codextended.Command.{
  Handlers, Command, ran, to_game, command_loop, client_command, execute, flood_protect, passes_on,
}
use codextended.Command.Message.{Binary, Input}
use codextended.Command.Conversation.{conversation-consecutive}
use codextended.Command.Talk.{conversation, Conversed, KeepsNumber}
use codextended.Command.Order.{command_loop-Delivered}
use codextended.Command.Due.{Delivered}

abbrev pub client : Client
client = record {
  state = cs_connected;
  userinfo = codes "\\name\\Al\\rate\\25000\\snaps\\20";
  name = codes "Al";
  challenge = pos 77;
  remote_address = record {
    type = na_ip;
    ip = record { b0 = 10; b1 = 0; b2 = 0; b3 = 7 };
    ipx = [];
    port = 28960;
  };
  qport = pos 3;
  last_client_command = pos 4;
  last_client_command_string = [];
  next_reliable_time = pos 0;
  last_packet_time = pos 0;
  last_connect_time = pos 0;
  next_snapshot_time = pos 0;
  gamestate_message_num = pos 0;
  rate = 5000;
  snapshot_msec = 50;
}

atoi_word : atoi (codes " 42x") ≡ pos 42
unfolding atoi
atoi_word = refl

userinfo_changed-Changed_example :
    (c : Client) × (userinfo_changed client false ≡ ok (some c)) × Changed client c false
userinfo_changed-Changed_example = userinfo_changed-Changed client false (omega arith)

abbrev handlers : Handlers
handlers = record { ucmd = λ name cl. cl; game = λ cl. cl; drop = λ cl. cl }

abbrev say : ℤ → Command
say n = record {
  context = record { now = pos 900; elsewhere = pos 0; running = true; muted = false };
  seq = n;
  text = codes "say hi";
  word = codes "say";
}

abbrev message : List Command
message = say (pos 4) ∷ say (pos 5) ∷ say (pos 6) ∷ []

command_loop-Delivered_example :
    Delivered handlers 4 client message
      (command_loop handlers client message).0
      (command_loop handlers client message).1
      (command_loop handlers client message).2
command_loop-Delivered_example = command_loop-Delivered handlers client 4 message refl

abbrev binary : Binary
binary = record { user_move = λ delta cl. cl; send_gamestate = λ cl. cl; send_snapshot = λ cl. cl }

-- A message for this server that ends with a move.
abbrev input : Input
input = record {
  server_id = 0x21;
  sv_server_id = 0x21;
  download_name = [];
  message_acknowledge = pos 3;
  pure = true;
  pure_authentic = pos 1;
  last_bits = 0;
}

numbers_keep : KeepsNumber handlers binary
numbers_keep = record {
  drop = λ cl. refl;
  user_move = λ delta cl. refl;
  send_gamestate = λ cl. refl;
  send_snapshot = λ cl. refl;
}

-- Two messages, the second of which repeats a command of the first.
abbrev messages : List (Input × List Command)
messages = (input, message) ∷ (input, say (pos 6) ∷ say (pos 7) ∷ []) ∷ []

conversation-consecutive_example :
    Conversed handlers binary client 4 messages
      (conversation handlers binary client messages).0
      (conversation handlers binary client messages).1
conversation-consecutive_example =
    conversation-consecutive handlers binary client 4 messages numbers_keep refl

-- The repeated command is not given to the game again, and a command of the table is not given to it.
abbrev userinfo : ℤ → Command
userinfo n = record {
  context = record { now = pos 900; elsewhere = pos 0; running = true; muted = false };
  seq = n;
  text = codes "userinfo";
  word = codes "userinfo";
}

actions_done :
    (command_loop handlers client (say (pos 4) ∷ say (pos 5) ∷ userinfo (pos 6) ∷ [])).2
    ≡ to_game (pos 5) (codes "say") ∷ ran (pos 6) (codes "userinfo") ∷ []
unfolding command_loop client_command execute ◌+ℤ◌ bytes_eq passes_on q_stricmp q_stricmpn to_upper
    flood_protect starts_with
actions_done = refl
