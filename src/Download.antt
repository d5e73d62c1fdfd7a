-- ===== src/Download.antt =====
-- Sending a pak file to a client: `custom_SV_WriteDownloadToClient` of src/sv_client.c over the
-- download fields of `client_t` of src/server.h. The file system of the game binary is a parameter.
-- A slot of the window holds the bytes of its block, of which there are `downloadBlockSize`. The
-- reply is what the call writes to the message; console output is left out.
pub mod Window
pub mod Send
pub mod Whole
pub mod Reach
pub mod Begin
pub mod Done
use codextended.Prelude.{
  ℕ, zero, suc, ◌+◌, ◌-◌, ◌%◌, Bool, true, false, not, ◌&&◌, Option, none, some, List, [], ◌∷◌,
  ◌++◌, ◌==◌, ltb, if◌then◌else◌, length, ℤ, pos, ◌-ℤ◌, ltb_ℤ, leb_ℤ, Bytes, codes, Outcome, ok,
  err, err_fatal, is_empty, write, pos_part,
}
use codextended.Client.{ClientState, cs_connected}
use codextended.Strings.{q_strncpyz}

abbrev pub max_download_window : ℕ
max_download_window = 8

abbrev pub max_download_blksize : ℕ
max_download_blksize = 2048

abbrev pub max_download_blksize_fast : ℕ
max_download_blksize_fast = 8192

-- `FS_SV_FOpenFileRead`, with the length and the handle (`none` is 0); `FS_Read`, where `none` is
-- a negative result; and `FS_iwPak` for "main".
pub record Files (H : Type 0) : Type 0 where
  pub open_read : Bytes → ℤ × Option H
  pub read : H → ℕ → Option Bytes × H
  pub iw_pak : Bytes → Bool

-- The cvars that the code reads.
pub record Config : Type 0 where
  pub allow_download : Bool
  pub pure : Bool
  pub fast : Bool
  pub notifications : Bool

pub record Transfer (H : Type 0) : Type 0 where
  pub client_name : Bytes
  pub state : ClientState
  pub rate : ℕ
  pub snapshot_msec : ℕ
  pub download_name : Bytes
  pub download : Option H
  pub size : ℕ
  pub count : ℕ
  pub client_block : ℕ
  pub current_block : ℕ
  pub xmit_block : ℕ
  pub blocks : ℕ → Bytes
  pub eof : Bool
  pub send_time : ℤ

pub data Reply : Type 0 where
  nothing : Reply
  refused : Bytes → Reply
  block : ℕ → Option ℕ → Bytes → Reply

-- The command sent to all clients when a download starts, if any, and the reply.
pub record Sent : Type 0 where
  pub notice : Option Bytes
  pub reply : Reply

-- `\x15` stands between the message and the file's name.
unfoldable pub refusal : Bytes → Bytes → Reply
refusal message name = refused (message ++ (0x15 ∷ name))

module _ {H : Type 0} where
  -- One round of the reading loop without its tests: reads the next block into its slot. After a
  -- failed read `downloadCount` is the size, which ends the loop, and the slot is written again.
  unfoldable pub load_block : Files H → Bool → H → Transfer H → Transfer H
  load_block files fast h t =
      let blksize = if fast then max_download_blksize_fast else max_download_blksize in
      let curindex = t.current_block % max_download_window in
      let (r, h') = files.read h blksize in
      elim r [
        | none ↦ record t {
          download = some h';
          blocks = write t.blocks curindex [];
          count = t.size;
        }
        | some bytes ↦ record t {
          download = some h';
          blocks = write t.blocks curindex bytes;
          count = t.count + length bytes;
          current_block = suc t.current_block;
        }
      ]

  -- Whether the reading loop goes on.
  unfoldable pub can_load : Transfer H → Bool
  can_load t = ltb t.current_block (t.client_block + max_download_window) && not (t.size == t.count)

  -- The loop, at most `left` rounds.
  unfoldable pub load_loop : ℕ → Files H → Bool → Transfer H → Transfer H
  load_loop zero files fast t = t
  load_loop (suc left) files fast t = elim t.download [
    | none ↦ t
    | some h ↦
        let rest = load_loop left files fast (load_block files fast h t) in
        if can_load t then rest else t
  ]

  unfoldable pub load_blocks : Files H → Bool → Transfer H → Transfer H
  load_blocks files fast t =
      load_loop (t.client_block + max_download_window - t.current_block) files fast t

  -- The empty block that ends the file.
  unfoldable pub add_eof : Transfer H → Transfer H
  add_eof t =
      if t.count == t.size
        && not t.eof
        && ltb t.current_block (t.client_block + max_download_window)
      then record t {
        blocks = write t.blocks (t.current_block % max_download_window) [];
        current_block = suc t.current_block;
        eof = true;
      }
      else t

  -- Writes block `xmit_block` to the message; block 0 carries the file's size.
  -- `MSG_WriteShort` writes the lowest 16 bits of the number.
  unfoldable pub send_block : Transfer H → ℤ → Transfer H × Reply
  send_block t now = (
    record t { xmit_block = suc t.xmit_block; send_time = now },
    block (t.xmit_block % 65536) (if t.xmit_block == 0 then some t.size else none)
        (t.blocks (t.xmit_block % max_download_window)),
  )

  -- What follows the end-of-file test. When all is sent and a second has gone by without an
  -- acknowledgement, the window is sent again.
  unfoldable pub transmit : Transfer H → ℤ → Transfer H × Reply
  transmit t now =
      if t.client_block == t.current_block
      then (t, nothing)
      else if not (t.xmit_block == t.current_block)
      then send_block t now
      else if ltb_ℤ (pos 1000) (now -ℤ t.send_time)
      then send_block (record t { xmit_block = t.client_block }) now
      else (t, nothing)

  -- `Com_sprintf` of "f \"%s^7 downloads %s\"".
  abbrev pub start_notice : Transfer H → Bytes
  start_notice t =
      codes "f \"" ++ t.client_name ++ codes "^7 downloads " ++ t.download_name ++ codes "\""

  -- "Init download".
  abbrev pub begin : Transfer H → ℕ → Transfer H
  begin t size = record t {
    size = size;
    count = 0;
    client_block = 0;
    current_block = 0;
    xmit_block = 0;
    eof = false;
  }

  -- The block under `if (!cl->download)`: what is refused, or the transfer as it starts. A name of
  -- fewer than four bytes is a fatal error of `Q_strncpyz`.
  unfoldable pub open_download : Files H → Config → Transfer H → Outcome (Transfer H × Option Reply)
  open_download files c t =
      if not c.allow_download
      then ok (
        t,
        some (
            refusal
              (if c.pure
                then codes "EXE_AUTODL_SERVERDISABLED_PURE"
                else codes "EXE_AUTODL_SERVERDISABLED")
              t.download_name),
      )
      else elim (q_strncpyz t.download_name (length t.download_name - 3)) [
        | err e ↦ err e
        | ok no_ext ↦
            if files.iw_pak no_ext
            then ok (t, some (refusal (codes "EXE_CANTAUTODLGAMEPAK") t.download_name))
            else let (size, h) = files.open_read t.download_name in
              if leb_ℤ size (pos 0)
              then ok (
                record t { download = h },
                some (refusal (codes "EXE_AUTODL_FILENOTONSERVER") t.download_name),
              )
              else ok (begin (record t { download = h }) (pos_part size), none)
      ]

  -- From the reading loop to the end.
  unfoldable pub continue_download : Files H → Config → Transfer H → ℤ → Transfer H × Reply
  continue_download files c t now = transmit (add_eof (load_blocks files c.fast t)) now

  -- What follows `open_download`.
  unfoldable pub start_download :
      Files H → Config → ℤ → Outcome (Transfer H × Option Reply) → Outcome (Transfer H × Sent)
  start_download files c now (err e) = err e
  start_download files c now (ok (u, some r)) = ok (u, record { notice = none; reply = r })
  start_download files c now (ok (u, none)) =
      let (v, r) = continue_download files c u now in
      ok (v, record { notice = if c.notifications then some (start_notice u) else none; reply = r })

  unfoldable pub write_download : Files H → Config → Transfer H → ℤ → Outcome (Transfer H × Sent)
  write_download files c t now =
      if is_empty t.download_name
      then ok (t, record { notice = none; reply = nothing })
      else let t' = record t { state = cs_connected; rate = 25000; snapshot_msec = 50 } in
        elim t'.download [
          | some h ↦
              let (u, r) = continue_download files c t' now in
              ok (u, record { notice = none; reply = r })
          | none ↦ start_download files c now (open_download files c t')
        ]
