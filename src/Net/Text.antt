-- ===== src/Net/Text.antt =====
-- Addresses as text: `NET_AdrToString` and `NET_BaseAdrToString` of src/net_chan.c, with `BigShort`
-- of src/msg.c, which swaps the two bytes of a port.
use codextended.Prelude.{
  ℕ, ◌+◌, ◌-◌, ◌*◌, ◌/◌, ◌%◌, ltb, if◌then◌else◌, [], ◌∷◌, ◌++◌, pos, Bytes, codes, take,
}
use codextended.Net.{Adr, Ip, na_bot, na_loopback, na_ip, type_eq}
use codextended.Status.{show_int}

unfoldable pub big_short : ℕ → ℕ
big_short l = l % 256 * 256 + l / 256 % 256

abbrev pub hex_digit : ℕ → ℕ
hex_digit n = if ltb n 10 then b'0' + n else b'a' + (n - 10)

-- "%02x".
abbrev pub hex : ℕ → Bytes
hex n = hex_digit (n / 16 % 16) ∷ hex_digit (n % 16) ∷ []

abbrev pub ip_text : Ip → Bytes
ip_text ip =
    show_int (pos ip.b0)
    ++ b'.' ∷ show_int (pos ip.b1)
    ++ b'.' ∷ show_int (pos ip.b2)
    ++ b'.' ∷ show_int (pos ip.b3)

abbrev hex_all : Bytes → Bytes
hex_all [] = []
hex_all (c ∷ s) = hex c ++ hex_all s

abbrev from_fifth : Bytes → Bytes
from_fifth (a ∷ b ∷ c ∷ d ∷ s) = s
from_fifth s = []

abbrev pub ipx_text : Bytes → Bytes
ipx_text ipx = hex_all (take 4 ipx) ++ b'.' ∷ hex_all (from_fifth ipx)

unfoldable pub net_base_adr_to_string : Adr → Bytes
net_base_adr_to_string a =
    if type_eq a.type na_loopback
    then codes "loopback"
    else if type_eq a.type na_bot
    then codes "bot"
    else if type_eq a.type na_ip
    then ip_text a.ip
    else ipx_text a.ipx

unfoldable pub net_adr_to_string : Adr → Bytes
net_adr_to_string a =
    let port = b':' ∷ show_int (pos (big_short a.port)) in
    if type_eq a.type na_loopback
    then codes "loopback"
    else if type_eq a.type na_bot
    then codes "bot"
    else if type_eq a.type na_ip
    then ip_text a.ip ++ port
    else ipx_text a.ipx ++ port
