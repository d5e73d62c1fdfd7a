-- ===== src/Files.antt =====
-- The pak files that clients must have: src/files.c. The search path is a list of its paks, without
-- the directories. The strings are built in a buffer of BIG_INFO_STRING bytes by `sprintf` from and
-- to that buffer, without a test of its size; the model takes the texts as joined.
pub mod Joined
use codextended.Prelude.{
  Bool, not, ◌||◌, List, [], ◌∷◌, ◌++◌, if◌then◌else◌, ℤ, Bytes, codes, is_empty,
}
use codextended.Strings.Search.{strstr}
use codextended.Status.{show_int}

-- `pack_t`, as far as it is read here.
pub record Pack : Type 0 where
  pub pak_basename : Bytes
  pub pak_gamename : Bytes
  pub checksum : ℤ

unfoldable pub fs_is_server_file : Bytes → Bool
fs_is_server_file basename =
    strstr basename (codes "srv")
    || strstr basename (codes "svr")
    || strstr basename (codes "server")

-- The space between two entries: only when something stands there already.
abbrev pub space_after : Bytes → Bytes
space_after info = if is_empty info then info else info ++ b' ' ∷ []

-- Both loops over the search path.
unfoldable pub checksums_loop : Bytes → List Pack → Bytes
checksums_loop info [] = info
checksums_loop info (pak ∷ paks) =
    checksums_loop
      (if fs_is_server_file pak.pak_basename
        then info
        else space_after info ++ show_int pak.checksum)
      paks

abbrev pub full_name : Pack → Bytes
full_name pak = pak.pak_gamename ++ b'/' ∷ pak.pak_basename

unfoldable pub names_loop : Bytes → List Pack → Bytes
names_loop info [] = info
names_loop info (pak ∷ paks) =
    names_loop
      (if fs_is_server_file pak.pak_basename then info else space_after info ++ full_name pak) paks

unfoldable pub fs_referenced_pak_checksums : List Pack → Bytes
fs_referenced_pak_checksums paks = checksums_loop [] paks

unfoldable pub fs_referenced_pak_names : List Pack → Bytes
fs_referenced_pak_names paks = names_loop [] paks
