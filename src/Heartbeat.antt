-- ===== src/Heartbeat.antt =====
-- Heartbeats to the master servers: `SV_MasterHeartBeat` of src/sv_main.c. `NET_StringToAdr` is code
-- of the game binary, and a parameter. The last heartbeat, to a fixed server, is modelled too.
pub mod Spacing
use codextended.Prelude.{
  ℕ, zero, suc, ◌+◌, Bool, true, false, not, ◌||◌, Option, none, some, List, [], ◌∷◌, ◌++◌, ltb,
  if◌then◌else◌, ◌==◌, Bytes, codes, is_empty, pos, negsuc, ℤ, ltb_ℤ,
}
use codextended.Net.{Adr}
use codextended.Net.Text.{big_short}
use codextended.Strings.Search.{strstr}
use codextended.Status.{show_int}

-- A cvar of `sv_master`, and the address that is kept for it.
pub record Master : Type 0 where
  pub string : Bytes
  pub modified : Bool
  pub adr : Adr

-- A packet: to whom, and its text.
pub record Packet : Type 0 where
  pub to : Adr
  pub text : Bytes

-- What the code reads: `x_heartbeattime`, `dedicated` and the build, and how a name resolves.
pub record Env : Type 0 where
  pub heartbeat_time : ℕ
  pub dedicated : ℕ
  pub build : ℕ
  pub string_to_adr : Bytes → Option Adr

unfoldable pub heartbeat_msec : Env → ℕ
heartbeat_msec e = if ltb e.heartbeat_time 18000 then 18000 else e.heartbeat_time

abbrev pub with_port : Adr → ℕ → Adr
with_port a port = record a { port = port }

-- A name that resolves. The arguments of `strstr` are in this order in the code.
unfoldable pub resolved : Master → Adr → Master
resolved m a = record m {
  modified = false;
  adr = if not (strstr (codes ":") m.string) then with_port a (big_short 20510) else a;
}

abbrev pub say : Bytes → Master → List Packet
say hbname m = record { to = m.adr; text = codes "heartbeat " ++ hbname ++ 10 ∷ [] } ∷ []

-- What follows `NET_StringToAdr`; a name that does not resolve is cleared.
abbrev pub resolve : Bytes → Master → Option Adr → Master × List Packet
resolve hbname m none = (record m { string = []; modified = false }, [])
resolve hbname m (some a) = (resolved m a, say hbname (resolved m a))

-- One round of the loop.
unfoldable pub beat_master : Env → Bytes → Master → Master × List Packet
beat_master e hbname m =
    if is_empty m.string
    then (m, [])
    else if m.modified
    then resolve hbname m (e.string_to_adr m.string)
    else (m, say hbname m)

unfoldable pub masters_loop : Env → Bytes → List Master → List Master × List Packet
masters_loop e hbname [] = ([], [])
masters_loop e hbname (m ∷ ms) =
    let (m', sent) = beat_master e hbname m in
    let (ms', rest) = masters_loop e hbname ms in (m' ∷ ms', sent ++ rest)

abbrev pub last_beat : Env → Bytes → Option Adr → List Packet
last_beat e hbname none = []
last_beat e hbname (some a) =
    record {
      to = with_port a (big_short 20510);
      text = codes "heartbeat " ++ hbname ++ b' ' ∷ show_int (pos e.build) ++ 10 ∷ [];
    }
    ∷ []

-- `nextHeartbeatTime`, which `SV_Heartbeat_f` sets to a negative number, and the masters.
pub record Beats : Type 0 where
  pub next : ℤ
  pub masters : List Master

unfoldable pub sv_heartbeat_f : Beats → Beats
sv_heartbeat_f b = record b { next = negsuc 9999998 }

-- The packets sent, or `none` when the call returns at once.
unfoldable pub sv_master_heart_beat : Env → Bytes → ℕ → Beats → Beats × Option (List Packet)
sv_master_heart_beat e hbname svs_time b =
    let (ms, sent) = masters_loop e hbname b.masters in
    if not (e.dedicated == 2)
    then (b, none)
    else if ltb_ℤ (pos svs_time) b.next
    then (b, none)
    else (
      record { next = pos (svs_time + heartbeat_msec e); masters = ms },
      some (sent ++ last_beat e hbname (e.string_to_adr (codes "cod1.eu"))),
    )
