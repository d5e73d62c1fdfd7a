-- ===== src/Client.antt =====
-- What the server keeps of a client: the part of `client_t` of src/server.h that src/sv_client.c
-- sets, and `SV_UserinfoChanged`.
pub mod Userinfo
use codextended.Prelude.{
  ℕ, ◌+◌, ◌-◌, ◌*◌, ◌/◌, Bool, true, false, not, ◌&&◌, ◌||◌, Option, none, some, List, [], ◌∷◌,
  if◌then◌else◌, take, length, leb, ℤ, pos, negsuc, ◌-ℤ◌, ◌+ℤ◌, ltb_ℤ, pos_part, Bytes, codes,
  Outcome, ok, err, then_some, is_empty, ◌==◌,
}
use codextended.Net.{Adr}
use codextended.Strings.{is_good_byte, atoi}
use codextended.Info.{max_info_string, info_value_for_key, info_set_value_for_key}

-- `clientConnectState_t`, in the order of its numbers.
pub data ClientState : Type 0 where
  cs_free cs_zombie cs_connected cs_primed cs_active : ClientState

pub record Client : Type 0 where
  pub state : ClientState
  pub userinfo : Bytes
  pub name : Bytes
  pub challenge : ℤ
  pub remote_address : Adr
  pub qport : ℤ
  pub last_client_command : ℤ
  pub last_client_command_string : Bytes
  pub next_reliable_time : ℤ
  pub last_packet_time : ℤ
  pub last_connect_time : ℤ
  pub next_snapshot_time : ℤ
  pub gamestate_message_num : ℤ
  pub rate : ℕ
  pub snapshot_msec : ℕ

-- The loop over the first 31 bytes of the name that the client asks for.
unfoldable pub clean_name : Bytes → Bytes
clean_name [] = []
clean_name (c ∷ s) = let rest = clean_name s in if is_good_byte c then c ∷ rest else rest

-- `cl->name` has 32 bytes, so the copy is whole.
unfoldable pub set_name : Client → Bytes → Outcome (Option Client)
set_name cl newname =
    then_some (info_set_value_for_key max_info_string cl.userinfo (codes "name") newname)
      λ info. ok (some (record cl { name = take 31 newname; userinfo = info }))

unfoldable pub rename : Client → Bool → Outcome (Option Client)
rename cl namemuted = then_some (info_value_for_key cl.userinfo (codes "name")) λ request_name.
    if namemuted then ok (some cl) else set_name cl (clean_name (take 31 request_name))

-- The value, moved into the interval; both bounds are positive.
abbrev pub clamp : ℕ → ℕ → ℤ → ℕ
clamp low high i =
    if ltb_ℤ i (pos low) then low else if ltb_ℤ (pos high) i then high else pos_part i

unfoldable pub rate_of : Bytes → ℕ
rate_of val = if is_empty val then 5000 else clamp 1000 90000 (atoi val)

unfoldable pub snapshot_msec_of : Bytes → ℕ
snapshot_msec_of val = if is_empty val then 50 else 1000 / clamp 1 30 (atoi val)

unfoldable pub set_rates : Client → Outcome (Option Client)
set_rates cl = then_some (info_value_for_key cl.userinfo (codes "rate")) λ rate.
    then_some (info_value_for_key cl.userinfo (codes "snaps"))
      λ snaps. ok (some (record cl { rate = rate_of rate; snapshot_msec = snapshot_msec_of snaps }))

-- `namemuted` is read from `x_clients`, at the client's number.
unfoldable pub userinfo_changed : Client → Bool → Outcome (Option Client)
userinfo_changed cl namemuted = then_some (rename cl namemuted) set_rates
