-- ===== src/Examples/DownloadAt.antt =====
-- The download at concrete inputs: a file of eleven bytes, whose handle is the place in it.
use codextended.Prelude.{
  ℕ, suc, ◌+◌, ◌≡◌, refl, ap, true, false, none, some, [], pos, length, take, drop, Bytes, codes,
  ok,
}
use codextended.Strings.{q_strncpyz}
use codextended.Download.{
  Files, Config, Transfer, block, begin, write_download, start_download, continue_download,
  open_download, load_blocks, load_loop, load_block, can_load, add_eof, transmit, send_block,
}
use codextended.Client.{cs_connected, cs_active}
use codextended.Files.{fs_is_server_file}
use codextended.Strings.Search.{starts_with, strstr}
use codextended.Download.Begin.{
  IsPart, begun, fs_is_pak_file, sv_begin_download, sv_begin_download-begun,
}
use codextended.Download.Window.{IsFile, Window}
use codextended.Download.Whole.{
  Returns, Permits, write_download-Returns, write_download-Permits, begin-Window,
}
use codextended.Download.Reach.{start, called, acknowledged, Whole, Reached-Whole}

abbrev pak : Bytes
pak = codes "hello world"

abbrev disk : Files ℕ
disk = record {
  open_read = λ name. (pos 11, some 0);
  read = λ h n. (some (take n (drop h pak)), h + length (take n (drop h pak)));
  iw_pak = λ name. false;
}

StandsAt : ℕ → ℕ → Type 0
StandsAt h k = h ≡ k

disk-IsFile : IsFile disk pak StandsAt
unfolding StandsAt
disk-IsFile = record {
  bytes = λ h k n e b. ap (λ (i : ℕ). some (take n (drop i pak))) e;
  moved = λ h k n e b. ap (λ (i : ℕ). i + length (take n (drop i pak))) e;
}

abbrev config : Config
config = record { allow_download = true; pure = false; fast = false; notifications = false }

abbrev asked : Transfer ℕ
asked = record {
  client_name = codes "Al";
  state = cs_active;
  rate = 5000;
  snapshot_msec = 50;
  download_name = codes "main/maps.pk3";
  download = none;
  size = 0;
  count = 0;
  client_block = 0;
  current_block = 0;
  xmit_block = 0;
  blocks = λ i. [];
  eof = false;
  send_time = pos 0;
}

abbrev opened : Transfer ℕ
opened = begin (record asked { download = some 0 }) 11

opened-Window : Window disk pak StandsAt opened []
unfolding StandsAt
opened-Window =
    begin-Window disk pak StandsAt disk-IsFile (record asked { download = some 0 }) 0 refl refl

write_download-Returns_example :
    Returns disk pak StandsAt disk-IsFile config opened opened (pos 100)
write_download-Returns_example =
    write_download-Returns disk pak StandsAt disk-IsFile config opened [] (pos 100) opened-Window
      refl

-- The first call on the open file sends block 0 with the size, and the window then holds the end.
first_sent : (continue_download disk config opened (pos 100)).1 ≡ block 0 (some 11) pak
unfolding continue_download load_blocks load_loop load_block can_load add_eof transmit send_block
first_sent = refl

first_complete : (continue_download disk config opened (pos 100)).0.eof ≡ true
unfolding continue_download load_blocks load_loop load_block can_load add_eof transmit send_block
first_complete = refl

abbrev started : Transfer ℕ
started =
    begin
      (record asked { state = cs_connected; rate = 25000; snapshot_msec = 50; download = some 0 })
      11

abbrev first : Transfer ℕ
first = (continue_download disk config started (pos 100)).0

first_returned :
    write_download disk config asked (pos 100)
    ≡ ok (first, record { notice = none; reply = block 0 (some 11) pak })
unfolding write_download start_download open_download q_strncpyz continue_download load_blocks
    load_loop load_block can_load add_eof transmit send_block
first_returned = refl

write_download-Permits_example : Permits disk config asked.download_name
write_download-Permits_example =
    write_download-Permits disk config asked first (pos 100) _ 0 (some 11) pak refl first_returned
      refl

second_returned :
    write_download disk config opened (pos 100)
    ≡ ok (first, record { notice = none; reply = block 0 (some 11) pak })
unfolding write_download continue_download load_blocks load_loop load_block can_load add_eof
    transmit send_block
second_returned = refl

Reached-Whole_example :
    Whole disk pak StandsAt disk-IsFile
      (record first { client_block = suc first.client_block; send_time = pos 150 })
Reached-Whole_example =
    Reached-Whole disk pak StandsAt disk-IsFile opened _ [] opened-Window
      (acknowledged first (pos 150) (called opened first config (pos 100) _ start second_returned))

abbrev map_file : Bytes
map_file = codes "maps.pk3"

map_begun : sv_begin_download (some map_file) ≡ begun
unfolding sv_begin_download fs_is_pak_file fs_is_server_file strstr starts_with
map_begun = refl

sv_begin_download-begun_example :
    IsPart (codes ".pk3") map_file
    × (¬ IsPart (codes "..") map_file)
    × (¬ IsPart (codes "pak") map_file)
    × (¬ IsPart (codes "localized") map_file)
    × (¬ IsPart (codes "srv") map_file)
    × (¬ IsPart (codes "svr") map_file)
    × (¬ IsPart (codes "server") map_file)
sv_begin_download-begun_example = sv_begin_download-begun map_file map_begun
