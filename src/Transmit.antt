-- ===== src/Transmit.antt =====
-- How fast a client is sent to: `SV_RateMsec` and `custom_SV_SendMessageToClient` of
-- src/sv_client.c. The compression, the network channel and `SV_DropClient` are code of the game
-- binary; the size after compression is an argument.
pub mod Pace
use codextended.Prelude.{
  ℕ, ◌+◌, ◌-◌, ◌*◌, ◌/◌, ◌%◌, Bool, true, false, not, ◌&&◌, ◌||◌, ltb, if◌then◌else◌, ℤ, pos,
  negsuc, ◌+ℤ◌, ◌-ℤ◌, ltb_ℤ, eqb_ℤ, pos_part, Bytes, is_empty, write,
}
use codextended.Net.{Adr, na_loopback, type_eq}
use codextended.Client.{ClientState, cs_active}

abbrev pub header_rate_bytes : ℕ
header_rate_bytes = 48

abbrev pub packet_backup : ℕ
packet_backup = 32

-- The part of `clientSnapshot_t` that is set here.
pub record Frame : Type 0 where
  pub message_size : ℕ
  pub message_sent : ℤ
  pub message_acked : ℤ

-- The fields of `client_t` that the code reads or sets.
pub record Channel : Type 0 where
  pub state : ClientState
  pub has_drop_reason : Bool
  pub remote_address : Adr
  pub outgoing_sequence : ℕ
  pub frames : ℕ → Frame
  pub rate : ℕ
  pub snapshot_msec : ℕ
  pub rate_delayed : Bool
  pub next_snapshot_time : ℤ
  pub has_download : Bool
  pub download_name : Bytes

-- `sv_maxRate`, its value after `Cvar_Set( "sv_MaxRate", "1000" )`, and `sv_fastDownload`.
pub record Cvars : Type 0 where
  pub max_rate : ℤ
  pub max_rate_set : ℤ
  pub fast_download : Bool

-- `SV_DropClient`, and `Sys_IsLANAddress`.
pub record Outside : Type 0 where
  pub drop : Channel → Channel
  pub is_lan_address : Adr → Bool

unfoldable pub rate_of : ℕ → Cvars → ℕ
rate_of rate v =
    let max = if ltb_ℤ v.max_rate (pos 1000) then v.max_rate_set else v.max_rate in
    if eqb_ℤ v.max_rate (pos 0) then rate else if ltb_ℤ max (pos rate) then pos_part max else rate

unfoldable pub sv_rate_msec : ℕ → Cvars → ℕ → ℕ
sv_rate_msec rate v message_size =
    let size = if ltb 1500 message_size then 1500 else message_size in
    (size + header_rate_bytes) * 1000 / rate_of rate v

abbrev pub is_active : ClientState → Bool
is_active cs_active = true
is_active _ = false

abbrev pub set_frame : Channel → ℕ → ℤ → Channel
set_frame cl size now = record cl {
  frames =
      write cl.frames (cl.outgoing_sequence % packet_backup)
        (record { message_size = size; message_sent = now; message_acked = negsuc 0 });
}

unfoldable pub is_unlimited : Outside → Cvars → Channel → Bool
is_unlimited o v cl =
    type_eq cl.remote_address.type na_loopback
    || o.is_lan_address cl.remote_address
    || (v.fast_download && cl.has_download)

-- The milliseconds to the next snapshot, from those that the rate asks for.
unfoldable pub wait_msec : Channel → ℕ → ℕ
wait_msec cl rate_msec =
    let msec = if ltb rate_msec cl.snapshot_msec then cl.snapshot_msec else rate_msec in
    if not (is_active cl.state) && is_empty cl.download_name && ltb msec 1000 then 1000 else msec

-- The time of the next snapshot of a client whose rate is limited.
unfoldable pub delay : Cvars → Channel → ℕ → ℤ → Channel
delay v cl size now =
    let rate_msec = sv_rate_msec cl.rate v size in
    record cl {
      rate_delayed = not (ltb rate_msec cl.snapshot_msec);
      next_snapshot_time = now +ℤ pos (wait_msec cl rate_msec);
    }

-- What follows the transmission.
unfoldable pub schedule : Outside → Cvars → Channel → ℕ → ℤ → ℕ → Channel × ℕ
schedule o v cl size now total =
    if is_unlimited o v cl
    then (record cl { next_snapshot_time = now -ℤ pos 1 }, total)
    else (delay v cl size now, total + size)

-- The client after, and `bpsTotalBytes` after.
unfoldable pub send_message : Outside → Cvars → Channel → ℕ → ℤ → ℕ → Channel × ℕ
send_message o v cl size now total =
    let kept = if cl.has_drop_reason then o.drop cl else cl in
    schedule o v (set_frame kept size now) size now total
