-- ===== src/Download/Done.antt =====
-- `SV_SendDownloadDone` of src/sv_client.c: the system info that a client gets when its downloads
-- are done, with the first pak only.
use codextended.Prelude.{
  ℕ, leb, length, Option, List, [], ◌∷◌, if◌then◌else◌, ◌==◌, Bytes, codes, Outcome, ok, then_some,
  some, none, ℤ,
}
use codextended.Info.{max_info_string, info_value_for_key, info_set_value_for_key}

-- The loop that looks for the first space.
unfoldable pub first_word : Bytes → Bytes
first_word [] = []
first_word (c ∷ s) = let rest = first_word s in if c == b' ' then [] else c ∷ rest

-- One of the two lists cut to its first word. `tmp` has 1024 bytes: `ok none` is a write behind it.
abbrev pub keep_first : Bytes → Bytes → Outcome (Option Bytes)
keep_first key s = then_some (info_value_for_key s key) λ value.
    if leb 1024 (length value)
    then ok none
    else info_set_value_for_key max_info_string s key (first_word value)

-- What the message holds: the number of the last command, the configstring 1, and the end.
pub data Part : Type 0 where
  command_number : ℤ → Part
  configstring : ℕ → Bytes → Part
  end : Part

-- `systeminfo` is the configstring 1.
unfoldable pub sv_send_download_done : ℤ → Bytes → Outcome (Option (List Part))
sv_send_download_done last systeminfo = then_some (keep_first (codes "sv_paks") systeminfo) λ s.
    then_some (keep_first (codes "sv_pakNames") s)
      λ info. ok (some (command_number last ∷ configstring 1 info ∷ end ∷ []))
