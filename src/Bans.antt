-- ===== src/Bans.antt =====
-- The list of bans and its two files: `X_ReadBannedList` of src/sv_init.c with `utrim` of
-- src/shared.h, and the commands of src/sv_commands.c that ban and unban. A file is its text, and
-- one that is there can be read; whether files can be written is a field. `NET_StringToAdr` and
-- `NET_CompareBaseAdr` are code of the game binary, and parameters; so is what `malloc` leaves in a
-- new entry. `SV_DropClient`, of the binary too, is only reported.
pub mod Lines
pub mod Muid
pub mod Ip
pub mod InStep
use codextended.Prelude.{
  ℕ, zero, suc, ◌+◌, Bool, true, false, not, ◌&&◌, ◌||◌, Option, none, some, List, [], ◌∷◌, ◌++◌,
  ◌==◌, ltb, if◌then◌else◌, length, take, get_or, pos, eqb_ℤ, Bytes, codes, is_empty,
}
use codextended.Net.{Adr, bytes_eq}
use codextended.Net.Text.{ip_text, net_base_adr_to_string}
use codextended.Strings.{is_blank, atoi}
use codextended.Client.{Client}
use codextended.Connect.{Ban, BanType, muid_ban, ip_ban, Server, list_each, is_free}

-- "ipbans.txt" and "muidbans.txt"; `none` is a file that is not there.
pub record Disk : Type 0 where
  pub ip_bans : Option Bytes
  pub muid_bans : Option Bytes
  pub writable : Bool

pub record Admin : Type 0 where
  pub server : Server
  pub disk : Disk

-- `string_to_adr` takes what the address held before; `fresh` is a new entry.
pub record Outside : Type 0 where
  pub compare_base : Adr → Adr → Bool
  pub string_to_adr : Bytes → Adr → Adr
  pub fresh : Ban

-- A call of `SV_DropClient`: the client's number and the reason.
pub record Drop : Type 0 where
  pub client : ℕ
  pub reason : Bytes

-- `fgets` with room for `n` bytes and the closing zero: what it reads, and the rest of the file.
unfoldable pub fgets : ℕ → Bytes → Bytes × Bytes
fgets zero s = ([], s)
fgets (suc n) [] = ([], [])
fgets (suc n) (c ∷ s) =
    let (line, rest) = fgets n s in if c == b'\n' then (c ∷ [], s) else (c ∷ line, rest)

abbrev pub max_line : ℕ
max_line = 255

-- The lines that a loop of `fgets` reads.
unfoldable pub read_lines : ℕ → Bytes → List Bytes
read_lines zero s = []
read_lines (suc fuel) [] = []
read_lines (suc fuel) (c ∷ s) =
    let (line, rest) = fgets max_line (c ∷ s) in line ∷ read_lines fuel rest

unfoldable pub skip_blanks : Bytes → Bytes
skip_blanks [] = []
skip_blanks (c ∷ s) = if is_blank c then skip_blanks s else c ∷ s

-- The loop from the end of the string.
unfoldable pub trim_end : Bytes → Bytes
trim_end [] = []
trim_end (c ∷ s) = let rest = trim_end s in if is_empty rest && is_blank c then [] else c ∷ rest

unfoldable pub utrim : Bytes → Bytes
utrim s = trim_end (skip_blanks s)

-- The line up to the first colon, and what follows it.
unfoldable pub split_colon : Bytes → Bytes × Option Bytes
split_colon [] = ([], none)
split_colon (c ∷ s) =
    let (front, reason) = split_colon s in if c == b':' then ([], some s) else (c ∷ front, reason)

-- `strncpy` into 128 bytes; with 128 bytes or more there is no closing zero.
abbrev pub reason_of : Option Bytes → Bytes
reason_of none = []
reason_of (some reason) = take 128 reason

-- The loop over the lines of "ipbans.txt"; `adr` is kept from line to line.
unfoldable pub ip_loop : Outside → Adr → List Bytes → List Ban
ip_loop o adr [] = []
ip_loop o adr (line ∷ lines) =
    let (front, reason) = split_colon line in
    let next = o.string_to_adr (utrim front) adr in
    let skipped = ip_loop o adr lines in
    let rest = ip_loop o next lines in
    if is_empty (utrim front)
    then skipped
    else record o.fresh { type = ip_ban; adr = next; reason = reason_of reason } ∷ rest

-- Whether a trimmed line of "muidbans.txt" is taken for a ban.
abbrev pub is_kept : Bytes → Bool
is_kept s = not (is_empty s) && not (eqb_ℤ (atoi s) (pos 0))

-- The loop over the lines of "muidbans.txt".
unfoldable pub muid_loop : Outside → List Bytes → List Ban
muid_loop o [] = []
muid_loop o (line ∷ lines) =
    let rest = muid_loop o lines in
    if is_kept (utrim line)
    then record o.fresh { type = muid_ban; m_uid = take 32 (utrim line); reason = [] } ∷ rest
    else rest

unfoldable pub lines_of : Option Bytes → List Bytes
lines_of none = []
lines_of (some text) = read_lines (length text) text

-- `start` is what the local variable `adr` holds at first.
unfoldable pub x_read_banned_list : Outside → Adr → Admin → Admin
x_read_banned_list o start a = record a {
  server = record a.server {
    bans = ip_loop o start (lines_of a.disk.ip_bans) ++ muid_loop o (lines_of a.disk.muid_bans);
  };
}

abbrev pub text_of : Option Bytes → Bytes
text_of none = []
text_of (some text) = text

-- `fprintf( f, "%s:%s\n", … )`.
abbrev pub entry : Bytes → Bytes → Bytes
entry name reason = name ++ b':' ∷ reason ++ b'\n' ∷ []

-- `fopen` with mode "a", `fprintf`, `fclose`; without a text nothing is printed.
unfoldable pub append_to : BanType → Bytes → Disk → Disk
append_to ip_ban text d = record d { ip_bans = some (text_of d.ip_bans ++ text) }
append_to muid_ban text d = record d { muid_bans = some (text_of d.muid_bans ++ text) }

-- The test for a ban that is there already.
abbrev pub is_banned : Outside → Bytes → Adr → Ban → Bool
is_banned o m_uid from b = elim b.type [
  | muid_ban ↦ bytes_eq b.m_uid m_uid
  | ip_ban ↦ o.compare_base from b.adr
]

unfoldable pub any : (Ban → Bool) → List Ban → Bool
any test [] = false
any test (b ∷ bs) = let rest = any test bs in if test b then true else rest

-- The entry that is added, and the line for the file.
unfoldable pub new_ban : Outside → Client → Bytes → BanType → Ban
new_ban o cl m_uid ip_ban = record o.fresh { type = ip_ban; adr = cl.remote_address }
new_ban o cl m_uid muid_ban = record o.fresh { type = muid_ban; m_uid = take 32 m_uid }

unfoldable pub new_line : Client → Bytes → BanType → Bytes → Bytes
new_line cl m_uid ip_ban reason = entry (ip_text cl.remote_address.ip) reason
new_line cl m_uid muid_ban reason = entry m_uid reason

unfoldable pub sv_ban_process : Outside → Admin → ℕ → BanType → Bytes → Admin × Option Drop
sv_ban_process o a i type reason =
    let cl = a.server.clients i in
    let m_uid = a.server.m_uids i in
    let touched = record a { disk = append_to type [] a.disk } in
    if not a.disk.writable
    then (a, none)
    else if any (is_banned o m_uid cl.remote_address) (list_each a.server.bans)
    then (touched, none)
    else if is_empty m_uid || ltb 32 (length m_uid)
    then (touched, none)
    else (
      record {
        server = record a.server { bans = a.server.bans ++ new_ban o cl m_uid type ∷ [] };
        disk = append_to type (new_line cl m_uid type reason) a.disk;
      },
      some (record { client = i; reason = codes "Banned: [Reason " ++ reason ++ b']' ∷ [] }),
    )

-- The loops of the unban commands: the text of the bans that stay.
unfoldable pub muid_text : Bytes → List Ban → Bytes
muid_text m_uid [] = []
muid_text m_uid (b ∷ bs) =
    let rest = muid_text m_uid bs in
    elim b.type [
      | muid_ban ↦ if bytes_eq b.m_uid m_uid then rest else entry b.m_uid b.reason ++ rest
      | ip_ban ↦ rest
    ]

unfoldable pub ip_bans_text : Outside → Adr → List Ban → Bytes
ip_bans_text o adr [] = []
ip_bans_text o adr (b ∷ bs) =
    let rest = ip_bans_text o adr bs in
    elim b.type [
      | ip_ban ↦
          if o.compare_base b.adr adr
          then rest
          else entry (net_base_adr_to_string b.adr) b.reason ++ rest
      | muid_ban ↦ rest
    ]

-- `Cmd_Argv( i )` of the words of a command; a word that is not there is "".
abbrev pub argv : List Bytes → ℕ → Bytes
argv args i = get_or args i []

unfoldable pub sv_unban_muid : Outside → Adr → List Bytes → Admin → Admin
sv_unban_muid o start args a =
    let text = muid_text (argv args 1) a.server.bans in
    let disk = if a.disk.writable then record a.disk { muid_bans = some text } else a.disk in
    if not (length args == 2) then a else x_read_banned_list o start (record a { disk = disk })

-- `start` is also what `ipadr` holds at first.
unfoldable pub sv_unban_ip : Outside → Adr → List Bytes → Admin → Admin
sv_unban_ip o start args a =
    let text = ip_bans_text o (o.string_to_adr (argv args 1) start) a.server.bans in
    let disk = if a.disk.writable then record a.disk { ip_bans = some text } else a.disk in
    if not (length args == 2) then a else x_read_banned_list o start (record a { disk = disk })

-- The loop over the clients for the first one that is there and meets the test: `left` places to go
-- from place `i` on.
unfoldable pub client_loop : ℕ → ℕ → (ℕ → Client) → (ℕ → Bool) → Option ℕ
client_loop zero i clients test = none
client_loop (suc left) i clients test =
    let rest = client_loop left (suc i) clients test in
    if is_free (clients i) then rest else if test i then some i else rest

abbrev pub drop_of : Bytes → Option ℕ → Option Drop
drop_of reason none = none
drop_of reason (some i) = some (record { client = i; reason = reason })

-- `sv_running` and `sv_maxclients`.
pub record Running : Type 0 where
  pub running : Bool
  pub max_clients : ℕ

abbrev pub find_client : Running → Admin → (ℕ → Bool) → Option ℕ
find_client v a test = if v.running then client_loop v.max_clients 0 a.server.clients test else none

abbrev pub append_if : BanType → Bytes → Disk → Disk
append_if type text d = if d.writable then append_to type text d else d

unfoldable pub sv_ban_ip : Outside → Adr → Running → List Bytes → Admin → Admin × Option Drop
sv_ban_ip o start v args a =
    let adr = o.string_to_adr (argv args 1) start in
    let hit = find_client v a λ i. o.compare_base adr (a.server.clients i).remote_address in
    let disk = append_if ip_ban (entry (argv args 1) (argv args 2)) a.disk in
    if not (length args == 2)
    then (a, none)
    else (x_read_banned_list o start (record a { disk = disk }), drop_of (codes "banned") hit)

unfoldable pub sv_ban_muid : Outside → Adr → Running → List Bytes → Admin → Admin × Option Drop
sv_ban_muid o start v args a =
    let m_uid = argv args 1 in
    let hit = find_client v a λ i. bytes_eq (a.server.m_uids i) m_uid in
    let disk = append_if muid_ban (entry m_uid (argv args 2)) a.disk in
    if not (length args == 2)
    then (a, none)
    else if is_empty m_uid || ltb 32 (length m_uid)
    then (a, none)
    else (x_read_banned_list o start (record a { disk = disk }), drop_of (argv args 2) hit)
