-- ===== src/Command/Message.antt =====
-- A client's message as a whole: `custom_SV_ExecuteClientMessage` of src/sv_client.c. Reading the
-- message is code of the game binary: its commands, and the two bits that follow them, are
-- arguments. So are `SV_UserMove`, `SV_SendClientGameState` and `SV_SendClientSnapshot`.
use Prim.Native.Nat.{bit_and}
use codextended.Prelude.{
  ℕ, Bool, true, false, not, ◌&&◌, ◌||◌, ◌==◌, if◌then◌else◌, List, [], ◌∷◌, ◌++◌, ℤ, pos, negsuc,
  eqb_ℤ, ltb_ℤ, Bytes, is_empty,
}
use codextended.Client.{Client, ClientState, cs_active, cs_primed, cs_zombie}
use codextended.Command.{Handlers, Command, Action, command_loop}

pub record Binary : Type 0 where
  pub user_move : Bool → Client → Client
  pub send_gamestate : Client → Client
  pub send_snapshot : Client → Client

-- What the message does besides its commands: a move, with its `delta` argument, a gamestate, a
-- client that is dropped for its files, or a command byte that is none.
pub data Deed : Type 0 where
  move : Bool → Deed
  gamestate unpure : Deed
  bad_byte : ℕ → Deed

-- The fields of the client, and what is read elsewhere: its `serverId` and the server's, its
-- `downloadName`, its `messageAcknowledge`, `sv_pure`, its `pureAuthentic` after the commands, which
-- may set it, and the two bits after the commands.
pub record Input : Type 0 where
  pub server_id : ℕ
  pub sv_server_id : ℕ
  pub download_name : Bytes
  pub message_acknowledge : ℤ
  pub pure : Bool
  pub pure_authentic : ℤ
  pub last_bits : ℕ

-- The drop of a client whose files are not the server's.
unfoldable pub refuse : Handlers → Binary → Client → Client
refuse h b cl =
    let dropped = record (h.drop (record cl { next_snapshot_time = negsuc 0 })) {
      state = cs_active;
    } in
    record (b.send_snapshot dropped) { state = cs_zombie }

unfoldable pub check_pure : Handlers → Binary → Input → Client → Client × List Deed
check_pure h b x cl =
    if x.pure && eqb_ℤ x.pure_authentic (pos 2) then (refuse h b cl, unpure ∷ []) else (cl, [])

-- What the two bits ask for.
unfoldable pub last_command : Binary → ℕ → Client → Client × List Deed
last_command b c cl =
    if c == 0
    then (b.user_move true cl, move true ∷ [])
    else if c == 1
    then (b.user_move false cl, move false ∷ [])
    else if c == 3
    then (cl, [])
    else (cl, bad_byte c ∷ [])

-- After a loop that did not end the message.
unfoldable pub after_commands : Handlers → Binary → Input → Client → Client × List Deed
after_commands h b x cl =
    let (checked, deeds) = check_pure h b x cl in
    let (last, more) = last_command b x.last_bits checked in (last, deeds ++ more)

abbrev pub is_primed : ClientState → Bool
is_primed cs_primed = true
is_primed _ = false

-- `(x & 0xF0) == (y & 0xF0)`.
abbrev pub same_map : ℕ → ℕ → Bool
same_map x y = bit_and x 0xf0 == bit_and y 0xf0

-- Whether a client with a message for another server has not seen the gamestate it was sent.
abbrev pub is_behind : Input → Client → Bool
is_behind x cl =
    let newer = ltb_ℤ cl.gamestate_message_num x.message_acknowledge in
    if same_map x.server_id x.sv_server_id then newer && is_primed cl.state else newer

-- A message for another server.
unfoldable pub resend : Binary → Input → Client → Client × List Deed
resend b x cl = if is_behind x cl then (b.send_gamestate cl, gamestate ∷ []) else (cl, [])

abbrev pub is_current : Input → Bool
is_current x = x.server_id == x.sv_server_id || not (is_empty x.download_name)

-- What follows the loop, from its result.
abbrev pub finish :
    Handlers → Binary → Input → Bool × Client × List Action → Client × List Action × List Deed
finish h b x (done, cl, actions) =
    let (last, deeds) = after_commands h b x cl in
    if done then (last, actions, deeds) else (cl, actions, [])

-- The client after, what its commands have done, and what else was done.
unfoldable pub custom_sv_execute_client_message :
    Handlers → Binary → Input → Client → List Command → Client × List Action × List Deed
custom_sv_execute_client_message h b x cl commands =
    let (last, deeds) = resend b x cl in
    if is_current x then finish h b x (command_loop h cl commands) else (last, [], deeds)
