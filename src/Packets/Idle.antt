-- ===== src/Packets/Idle.antt =====
-- Packets while no server runs: `SV_NocPacket` of src/sv_main.c, without the Steam library.
use codextended.Prelude.{
  ℕ, Bool, not, List, if◌then◌else◌, leb, get_or, [], ℤ, pos, negsuc, eqb_ℤ, Bytes, codes,
}
use codextended.Strings.{atoi, q_stricmp}

-- `clientversion` after. The packet is its size, its first four bytes as a number, and its words;
-- `from_master` is the answer of `NET_CompareBaseAdr( from, x_master )`. A packet that begins with -1
-- is for Steam.
unfoldable pub sv_noc_packet : ℕ → ℤ → List Bytes → Bool → ℤ → ℤ
sv_noc_packet size head args from_master clientversion =
    let c = get_or args 0 [] in
    let version = atoi (get_or args 1 []) in
    if not (leb 4 size)
    then clientversion
    else if eqb_ℤ head (negsuc 0)
    then clientversion
    else if not (eqb_ℤ head (negsuc 1))
    then clientversion
    else if eqb_ℤ (q_stricmp c (codes "serverversionresponse")) (pos 0)
    then clientversion
    else if eqb_ℤ (q_stricmp c (codes "clientversionresponse")) (pos 0)
    then if from_master then version else clientversion
    else clientversion
