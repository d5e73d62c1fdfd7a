-- ===== src/Admin.antt =====
-- Commands of administrators: src/sv_commands.c. `Cmd_Argv` gives the words, with the name of the
-- command first. Usage lines and other output are left out, as is the refusal of a server that does
-- not run where nothing else depends on it. `SV_DropClient` and `SV_SendServerCommand` are code of
-- the game binary, and only reported.
pub mod Search
use codextended.Prelude.{
  ℕ, zero, suc, ◌+◌, ◌-◌, Bool, true, false, not, ◌&&◌, ◌||◌, Option, none, some, List, [], ◌∷◌,
  ◌++◌, ◌==◌, ltb, leb, if◌then◌else◌, length, take, ℤ, pos, negsuc, eqb_ℤ, Bytes, codes, write,
  is_empty, map, pos_part,
}
use codextended.Net.{bytes_eq}
use codextended.Strings.{q_clean_str, q_stricmp, atoi, to_lower}
use codextended.Strings.Search.{strstr}
use codextended.Client.{Client}
use codextended.Connect.{BanType, muid_ban, ip_ban, is_free}
use codextended.Bans.{Admin, Outside, Drop, Running, argv, sv_ban_process}

abbrev pub max_found : ℕ
max_found = 64

-- Whether a name, or the name without its colours, has the text in it.
abbrev pub name_has : Bytes → Bytes → Bool
name_has name s = strstr name s || strstr (q_clean_str (take 63 name)) s

-- `search_players`, as a test of places; the loop over the clients, with `left` places to go.
unfoldable pub search_loop : ℕ → ℕ → (ℕ → Client) → Bytes → (ℕ → Bool) → ℕ → Bool
search_loop zero i clients s found = found
search_loop (suc left) i clients s found = search_loop left (suc i) clients s (
    if is_free (clients i)
    then found
    else if name_has (clients i).name s
    then write found i true
    else found)

-- The loop that clears `search_players` starts at `p`, a variable without a value.
unfoldable pub clear_from : ℕ → (ℕ → Bool) → ℕ → Bool
clear_from p found i = if leb p i && ltb i max_found then false else found i

unfoldable pub x_get_players_by_name :
    ℕ → Running → (ℕ → Client) → List Bytes → (ℕ → Bool) → ℕ → Bool
x_get_players_by_name p v clients args found =
    if not v.running || ltb (length args) 2
    then clear_from p found
    else search_loop v.max_clients 0 clients (argv args 1) (clear_from p found)

-- The loop that counts: how many were found, and the last one.
unfoldable pub count_found : ℕ → ℕ → (ℕ → Bool) → ℕ × ℕ → ℕ × ℕ
count_found zero i found acc = acc
count_found (suc left) i found acc =
    count_found left (suc i) found (if found i then (suc acc.0, i) else acc)

-- The loop over those that were found.
unfoldable pub all_found : ℕ → ℕ → (ℕ → Bool) → List ℕ
all_found zero i found = []
all_found (suc left) i found =
    let rest = all_found left (suc i) found in if found i then i ∷ rest else rest

-- The clients that the command affects; `multiple` asks for more than one.
unfoldable pub affected : Bool → (ℕ → Bool) → List ℕ
affected multiple found =
    let (count, oneplayer) = count_found max_found 0 found (0, 0) in
    if ltb 1 count
    then if not multiple then [] else all_found max_found 0 found
    else if count == 0
    then []
    else oneplayer ∷ []

unfoldable pub kicks : List ℕ → List Drop
kicks [] = []
kicks (i ∷ is) = record { client = i; reason = codes "EXE_PLAYERKICKED" } ∷ kicks is

-- The clients that are kicked, and `search_players` after.
unfoldable pub sv_kick_f :
    ℕ → Running → (ℕ → Client) → List Bytes → (ℕ → Bool) → (ℕ → Bool) × List Drop
sv_kick_f p v clients args found =
    let after = x_get_players_by_name p v clients args found in
    if not v.running
    then (found, [])
    else if not (length args == 2)
    then (found, [])
    else (after, kicks (affected (ltb 2 (length args)) after))

-- `SV_BanProcess` for one client after the other.
unfoldable pub ban_each : Outside → BanType → Bytes → List ℕ → Admin → Admin × List Drop
ban_each o type reason [] a = (a, [])
ban_each o type reason (i ∷ is) a =
    let (a', said) = sv_ban_process o a i type reason in
    let (last, drops) = ban_each o type reason is a' in
    (last, elim said [ none ↦ drops | some d ↦ d ∷ drops ])

abbrev pub reason_or : Bytes → Bytes
reason_or reason = if is_empty reason then codes "No reason." else reason

abbrev pub ban_type : Bytes → BanType
ban_type word = if eqb_ℤ (q_stricmp word (codes "muid")) (pos 0) then muid_ban else ip_ban

unfoldable pub sv_ban_f :
    Outside → ℕ → Running → List Bytes → (ℕ → Bool) → Admin → Admin × List Drop × (ℕ → Bool)
sv_ban_f o p v args found a =
    let after = x_get_players_by_name p v a.server.clients args found in
    let (a', drops) =
      ban_each o (ban_type (argv args 3)) (reason_or (argv args 2))
        (affected (ltb 4 (length args)) after) a in
    if not v.running
    then (a, [], found)
    else if not (length args == 4)
    then (a, [], found)
    else (a', drops, after)

-- `getclient` computes an address from any number; the places from 0 on are modelled, and a negative
-- number is `none`.
abbrev pub place : ℤ → Option ℕ
place (pos n) = some n
place (negsuc n) = none

abbrev pub ban_num_at : Outside → Option ℕ → BanType → Bytes → Admin → Admin × Option Drop
ban_num_at o none type reason a = (a, none)
ban_num_at o (some i) type reason a =
    if is_free (a.server.clients i) then (a, none) else sv_ban_process o a i type reason

unfoldable pub sv_ban_num_f : Outside → Running → List Bytes → Admin → Admin × Option Drop
sv_ban_num_f o v args a =
    if not v.running
    then (a, none)
    else if not (length args == 4)
    then (a, none)
    else ban_num_at o (place (atoi (argv args 1))) (ban_type (argv args 3))
        (reason_or (argv args 2)) a

-- `x_clients` has 64 elements: `outside` is an access past them.
pub data Toggle : Type 0 where
  unchanged outside : Toggle
  toggled : (ℕ → Bool) → Toggle

-- The number that a command names, if it passes the test of `SV_Mute`, `SV_MuteName` and `SV_Tell_f`.
abbrev pub named : ℤ → Option ℕ
named (negsuc n) = none
named (pos n) = if ltb 64 n then none else some n

abbrev pub toggle_at : (ℕ → Bool) → Option ℕ → Toggle
toggle_at flags none = unchanged
toggle_at flags (some id) = if ltb id 64 then toggled (write flags id (not (flags id))) else outside

-- The flag of all clients before and after: `muted`, and `namemuted`.
unfoldable pub sv_mute : List Bytes → (ℕ → Bool) → Toggle
sv_mute args flags =
    if not (length args == 2) then unchanged else toggle_at flags (named (atoi (argv args 1)))

unfoldable pub sv_mute_name : List Bytes → (ℕ → Bool) → Toggle
sv_mute_name args flags =
    if not (length args == 2) then unchanged else toggle_at flags (named (atoi (argv args 1)))

-- A server command: to one client or to all, and its text, `i "…"`.
pub record ServerCommand : Type 0 where
  pub to : Option ℕ
  pub text : Bytes

abbrev pub quoted : Bytes → Bytes
quoted msg = codes "i " ++ b'"' ∷ msg ++ b'"' ∷ []

-- `msg == ""` compares two pointers, which are different.
unfoldable pub sv_say2_f : List Bytes → Option ServerCommand
sv_say2_f args =
    if not (length args == 2)
    then none
    else some (record { to = none; text = quoted (argv args 1) })

abbrev pub tell_at : Bytes → Option ℕ → Option ServerCommand
tell_at msg none = none
tell_at msg (some id) = some (record { to = some id; text = quoted msg })

unfoldable pub sv_tell_f : List Bytes → Option ServerCommand
sv_tell_f args =
    if not (length args == 3) then none else tell_at (argv args 2) (named (atoi (argv args 1)))

-- The loop of `Cmd_FindConfigstringIndex`: the first index from 1 on, below `max`, whose string is
-- the same text in any case. `min` is read and not used.
unfoldable pub find_loop : ℕ → ℕ → (ℕ → Bytes) → (Bytes → Bool) → Option ℕ
find_loop zero i configstrings same = none
find_loop (suc left) i configstrings same =
    let rest = find_loop left (suc i) configstrings same in
    if same (configstrings i) then some i else rest

-- `strcasecmp` of two texts, as a test for 0.
abbrev pub same_text : Bytes → Bytes → Bool
same_text a b = bytes_eq (map to_lower a) (map to_lower b)

-- `configstrings` is what `SV_GetConfigstring` gives.
unfoldable pub cmd_find_configstring_index : List Bytes → (ℕ → Bytes) → Option ℕ
cmd_find_configstring_index args configstrings =
    if not (length args == 4)
    then none
    else find_loop (pos_part (atoi (argv args 3)) - 1) 1 configstrings (same_text (argv args 1))

-- The configstrings after, if `SV_SetConfigstring` sets the one that is named.
abbrev pub set_at : (ℕ → Bytes) → Bytes → Option ℕ → ℕ → Bytes
set_at configstrings str none = configstrings
set_at configstrings str (some index) = write configstrings index str

unfoldable pub cmd_set_configstring : List Bytes → (ℕ → Bytes) → ℕ → Bytes
cmd_set_configstring args configstrings =
    if not (length args == 3)
    then configstrings
    else set_at configstrings (argv args 2) (place (atoi (argv args 1)))
