-- ===== src/Lib.antt =====
-- A model of CoDExtended, the server extension of src/.
--
-- The extension is loaded into a game server and replaces the functions that handle packets from
-- strangers, the strings that clients send, and the clients' state. A packet without a connection
-- comes to src/sv_main.c, whose answers are limited by a pool of leaky buckets; the info strings of
-- src/shared.c carry what a client says of itself; addresses are compared by src/net_chan.c.
--
-- Which file models which part:
-- - Prelude: shared helpers on native numbers, lists, integers and results.
-- - Strings: the string routines of src/shared.c, and `SanitizeString`, `is_good_string` and
--   `SV_VerifyChallenge` of src/sv_client.c and src/sv_main.c.
-- - Info: `Info_ValueForKey`, `Info_RemoveKey` and `Info_SetValueForKey` of src/shared.c, and the
--   `_Big` versions of src/sv_client.c; Info.Pairs is the abstract view, a list of pairs.
-- - Net: `netadr_t` of src/server.h and the comparisons of src/net_chan.c.
-- - RateLimit: `SVC_HashForAddress`, `SVC_BucketForAddress`, `SVC_RateLimit` and
--   `SVC_RateLimitAddress` of src/sv_main.c.
-- - Client: the fields of `client_t` and `SV_UserinfoChanged` of src/sv_client.c.
-- - Command: `SV_ClientCommand` and the command loop of `custom_SV_ExecuteClientMessage`; the whole
--   message is Command.Message, all messages of a client are Command.Talk, and Command.Say is `hG_Say` and `G_SayTo` of src/x_clientcmds.c.
-- - Challenge: `SV_GetChallenge` and `SV_XAuthorize`.
-- - Connect: `SV_DirectConnect`: the tests, the place of the client, and the connection. The game's
--   answer and the comparison of base addresses are parameters.
-- - Download: `custom_SV_WriteDownloadToClient` and `SV_BeginDownload`; the file system of the game
--   is a parameter. A client's acknowledgements are handled by the game binary: they are steps of
--   the relation in Download.Reach, any acknowledgement of the block that is due.
-- - Transmit: `SV_RateMsec` and `custom_SV_SendMessageToClient`.
-- - Status: `SVC_Info` and `SVC_Status` of src/sv_main.c.
-- - Net.Text: `NET_AdrToString` and `NET_BaseAdrToString` of src/net_chan.c.
-- - Bits: `COM_BitCheck`, `COM_BitSet` and `COM_BitClear` of src/shared.c.
-- - Strings.Search: `str_replace` and `startsWith` of src/util.c.
-- - ScriptStrings: the string functions of scripts, src/scr_string.c.
-- - Format: `va` of src/shared.c; the text that `vsprintf` makes is an argument.
-- - Files: the lists of paks of src/files.c.
-- - Bans: `X_ReadBannedList` of src/sv_init.c with `utrim` of src/shared.h, and the commands of
--   src/sv_commands.c that ban and unban; the files are the record `Disk`.
-- - Admin: the other commands of administrators: search, kick, mute, say, tell, configstrings.
-- - Packets: `SV_ConnectionlessPacket`, `SVC_RemoteCommand`, `SVC_Chandelier` of src/sv_main.c.
-- - Heartbeat: `SV_MasterHeartBeat` of src/sv_main.c and `SV_Heartbeat_f` of src/sv_commands.c.
-- - Bots: the script functions of src/gsc_bots.c and `custom_SV_BotUserMove` of src/sv_main.c;
--   Bots.Bodies describes the keys without bits.
-- - Player: key tests, perks, pings and speed of src/scr_method_player.c.
-- - Cvars: reading of variables, src/cvar.c, and `SV_IsLegacyMap` of src/sv_client.c.
-- - Spawns: `G_CallSpawnEntity` of src/g_spawn.c.
-- - ByteOrder: `BigLong` of src/msg.c.
-- - Info.Print is `Info_Print` of src/shared.c, Packets.Idle `SV_NocPacket` of src/sv_main.c,
--   Challenge.Guid `CL_GetGuid` and Download.Done `SV_SendDownloadDone` of src/sv_client.c.
-- - Localized: the localized strings and models of scripts, and Scripts: the tables of functions,
--   names of types, and the buffer of errors, all of src/script.c.
-- - Examples: tests, and each theorem at an input where its hypotheses hold.
--
-- A string is the list of its bytes, without the closing zero; a pointer into a string is the rest
-- of it. A pointer into an array is a place. `char` is signed, as on the target. `Com_Error`, which
-- does not return, is an error value. Output to the console is left out.
--
-- How the parts meet: `SV_ConnectionlessPacket` (Packets) reads the first word of a packet and hands
-- it to the component that answers: `SV_GetChallenge` (Challenge), which asks RateLimit twice before
-- it gives a number; `SV_XAuthorize` (Challenge), for the master's packets; `SV_DirectConnect`
-- (Connect), which reads the user info with Info, looks the number up in the tables of Challenge and
-- the address in the list of Bans, and calls `SV_UserinfoChanged` (Client) for the client that it
-- lets in; the answers of Status; and the remote console, with a bucket of RateLimit of its own. A
-- client's messages are executed by Command and paced by Transmit, and its downloads run in
-- Download, which takes the files of the server from Files. Admin finds clients by name and hands
-- bans to Bans, which writes the files that it reads again when a ban is lifted.
--
-- Bounds and fuel: the loops on strings take the string's length as fuel, and the walk along a
-- chain of buckets takes the size of the pool; the theorems about these functions show that they
-- return. The loops over tables count the places left: 16384 buckets, 1024 challenges, and the
-- clients of `sv_maxclients`. The reading loop of a download runs as often as the window of 8 blocks
-- has room, and ends with the window full or the file at its end. The loops of `fgets`, `strtok`
-- and `strstr` take the length of the text, since each round takes at least one byte. Times are
-- integers without a bound: a millisecond clock of 32 bits does not wrap in the first 24 days.
--
-- Not modelled: code of the game binary and of libraries that the source reaches by address, and
-- the calls of it; sockets, and files but for the two lists of bans; floating-point mathematics and
-- movement (src/q_math.c, src/bg_pmove.c); the other bindings of the script machine (src/script.c and
-- the scr_*.c files); the installation of hooks (src/codextended.c, src/librarymodule.c); the
-- commands of src/sv_commands.c that only print.
pub mod Prelude
pub mod Strings
pub mod Bits
pub mod Info
pub mod Net
pub mod RateLimit
pub mod Admin
pub mod Bans
pub mod Bots
pub mod ByteOrder
pub mod Challenge
pub mod Client
pub mod Command
pub mod Connect
pub mod Cvars
pub mod Download
pub mod Files
pub mod Format
pub mod Heartbeat
pub mod Localized
pub mod Packets
pub mod Player
pub mod ScriptStrings
pub mod Scripts
pub mod Spawns
pub mod Status
pub mod Transmit
pub mod Examples
