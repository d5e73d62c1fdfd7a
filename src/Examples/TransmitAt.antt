-- ===== src/Examples/TransmitAt.antt =====
-- The pace of messages at concrete inputs.
use codextended.Prelude.{◌≡◌, refl, false, arith, pos, []}
use codextended.Net.{na_ip, type_eq}
use codextended.Client.{cs_active}
use codextended.Transmit.{
  Channel, Cvars, Outside, is_unlimited, send_message, sv_rate_msec, rate_of,
}
use codextended.Transmit.Pace.{Paced, send_message-Paced}

abbrev channel : Channel
channel = record {
  state = cs_active;
  has_drop_reason = false;
  remote_address = record {
    type = na_ip;
    ip = record { b0 = 10; b1 = 0; b2 = 0; b3 = 7 };
    ipx = [];
    port = 28960;
  };
  outgoing_sequence = 5;
  frames = λ i. record { message_size = 0; message_sent = pos 0; message_acked = pos 0 };
  rate = 25000;
  snapshot_msec = 50;
  rate_delayed = false;
  next_snapshot_time = pos 0;
  has_download = false;
  download_name = [];
}

abbrev cvars : Cvars
cvars = record { max_rate = pos 20000; max_rate_set = pos 1000; fast_download = false }

abbrev outside : Outside
outside = record { drop = λ cl. cl; is_lan_address = λ a. false }

-- (1200 + 48) * 1000 / 20000.
a_message : sv_rate_msec 25000 cvars 1200 ≡ 62
unfolding sv_rate_msec rate_of
a_message = refl

send_message-Paced_example :
    Paced cvars channel (send_message outside cvars channel 1200 (pos 500) 0).0 1200 (pos 500)
unfolding is_unlimited type_eq
send_message-Paced_example =
    send_message-Paced outside cvars channel 1200 (pos 500) 0 refl (omega arith) refl refl
