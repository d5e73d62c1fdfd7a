-- ===== src/Command.antt =====
-- Commands from a client: `SV_ClientCommand` of src/sv_client.c. The functions of the command table
-- and the game module are code of the binaries, and parameters.
pub mod Due
pub mod Order
pub mod Message
pub mod Say
pub mod Talk
pub mod Number
pub mod Conversation
use codextended.Prelude.{
  ℕ, ◌+◌, ◌-◌, Bool, true, false, not, ◌&&◌, ◌||◌, List, [], ◌∷◌, ◌++◌, ◌==◌, if◌then◌else◌, take,
  ℤ, pos, ◌+ℤ◌, ltb_ℤ, leb_ℤ, eqb_ℤ, Bytes, codes,
}
use codextended.Net.{bytes_eq}
use codextended.Strings.Search.{starts_with}
use codextended.Strings.{q_stricmp}
use codextended.Client.{Client, ClientState, cs_active}

-- What the functions outside do to the client: an entry of `ucmds`, the game's client command, and
-- `SV_DropClient`.
pub record Handlers : Type 0 where
  pub ucmd : Bytes → Client → Client
  pub game : Client → Client
  pub drop : Client → Client

-- What a call has done, besides the client's fields: the function of `ucmds` that it called or the
-- command that it gave to the game, with the number of the command, or the drop.
pub data Action : Type 0 where
  ran : ℤ → Bytes → Action
  to_game : ℤ → Bytes → Action
  dropped : Action

-- The names of `ucmds`, without those of debug builds.
abbrev pub ucmds : List Bytes
ucmds =
    codes "userinfo"
    ∷ codes "disconnect"
    ∷ codes "cp"
    ∷ codes "vdr"
    ∷ codes "download"
    ∷ codes "nextdl"
    ∷ codes "stopdl"
    ∷ codes "donedl"
    ∷ codes "retransdl"
    ∷ []

abbrev pub is_one_of : Bytes → List Bytes → Bool
is_one_of cmd [] = false
is_one_of cmd (name ∷ names) = bytes_eq cmd name || is_one_of cmd names

abbrev pub is_active : ClientState → Bool
is_active cs_active = true
is_active _ = false

abbrev pub same : Bytes → Bytes → Bool
same a b = eqb_ℤ (q_stricmp a b) (pos 0)

unfoldable pub flood_protect : Bytes → Bool
flood_protect s =
    not
      (starts_with (codes "team") s || starts_with (codes "score") s || starts_with (codes "mr") s)

-- Whether the game sees the command: it is no command of the server, and not one of those that the
-- code keeps from it. The code names "say_team" twice.
unfoldable pub passes_on : Bytes → Bool → Bool
passes_on cmd muted =
    not (same cmd (codes "follownext") || same cmd (codes "followprev") || same cmd (codes "gc"))
    && not ((same cmd (codes "say_team") || same cmd (codes "say_team")) && muted)

-- `elsewhere` is the value at `&cl->state + 68360`, where the pointer's scale makes the code read:
-- not the field that it writes. `cmd` is the first word of `s`; `running` is the test of the server's
-- state; `muted` is read from `x_clients`.
pub record Context : Type 0 where
  pub now : ℤ
  pub elsewhere : ℤ
  pub running : Bool
  pub muted : Bool

unfoldable pub execute : Handlers → Context → Client → ℤ → Bytes → Bytes → Client × List Action
execute h x cl seq s cmd =
    let flood = flood_protect s in
    let client_ok = not (is_active cl.state && ltb_ℤ x.now x.elsewhere && flood) in
    let timed = if flood then record cl { next_reliable_time = x.now +ℤ pos 800 } else cl in
    let known = is_one_of cmd ucmds in
    let run = if known then h.ucmd cmd timed else timed in
    let pass = client_ok && not known && x.running && passes_on cmd x.muted in
    let last = if pass then h.game run else run in
    (
      record last { last_client_command = seq; last_client_command_string = take 1023 s },
      (if known then ran seq cmd ∷ [] else []) ++ (if pass then to_game seq cmd ∷ [] else []),
    )

-- The result, the client after, and what was done.
unfoldable pub client_command :
    Handlers → Context → Client → ℤ → Bytes → Bytes → Bool × Client × List Action
client_command h x cl seq s cmd =
    if leb_ℤ seq cl.last_client_command
    then (true, cl, [])
    else if ltb_ℤ (cl.last_client_command +ℤ pos 1) seq
    then (false, h.drop cl, dropped ∷ [])
    else (true, (execute h x cl seq s cmd).0, (execute h x cl seq s cmd).1)

-- A command as it stands in a message, with its first word and the context at its time.
pub record Command : Type 0 where
  pub context : Context
  pub seq : ℤ
  pub text : Bytes
  pub word : Bytes

abbrev pub is_zombie : ClientState → Bool
is_zombie ClientState.cs_zombie = true
is_zombie _ = false

-- The loop of `custom_SV_ExecuteClientMessage` over the commands of a message: it ends the message
-- when a command fails or leaves the client a zombie. The list is that of all that was done.
unfoldable pub command_loop : Handlers → Client → List Command → Bool × Client × List Action
command_loop h cl [] = (true, cl, [])
command_loop h cl (c ∷ cs) =
    let (ok, cl', actions) = client_command h c.context cl c.seq c.text c.word in
    let (done, last, more) = command_loop h cl' cs in
    if not ok
    then (false, cl', actions)
    else if is_zombie cl'.state
    then (false, cl', actions)
    else (done, last, actions ++ more)
