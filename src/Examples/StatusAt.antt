-- ===== src/Examples/StatusAt.antt =====
-- The answers to strangers at concrete inputs.
use codextended.Prelude.{◌≡◌, refl, List, [], ◌∷◌, none, pos, negsuc, Bytes, codes}
use codextended.Client.{cs_active}
use codextended.Status.{show_int, Player, player_line}

abbrev player : Player
player = record {
  state = cs_active;
  score = negsuc 2;
  ping = pos 48;
  status_ping = none;
  name = codes "Al";
}

a_line : player_line player ≡ codes "-3 48 \"Al\"\n"
unfolding player_line show_int
a_line = refl

abbrev pairs : List (Bytes × Bytes)
pairs = (codes "challenge", codes "abc") ∷ (codes "pswrd", codes "0") ∷ []
