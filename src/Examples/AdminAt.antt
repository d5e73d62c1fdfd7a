-- ===== src/Examples/AdminAt.antt =====
-- Commands of administrators at concrete inputs.
use codextended.Prelude.{
  ℕ, ◌≡◌, refl, true, false, List, [], ◌∷◌, codes, Bytes, arith, if◌then◌else◌, ◌==◌,
}
use codextended.Client.{Client, cs_active}
use codextended.Strings.{q_clean_str, atoi, signed_digits, digits}
use codextended.Strings.Search.{strstr, starts_with}
use codextended.Bans.{Running}
use codextended.Admin.{
  outside, sv_kick_f, sv_mute, x_get_players_by_name, search_loop, clear_from, affected,
  count_found, kicks,
}
use codextended.Admin.Search.{Kicked, is_match, sv_kick_f-Kicked}
use codextended.Examples.ConnectAt.{nobody}

abbrev named : Bytes → Client
named name = record nobody { state = cs_active; name = name }

-- Two clients: one with a coloured name.
abbrev clients : ℕ → Client
clients i =
    if i == 0 then named (codes "Al^1ice") else if i == 1 then named (codes "Bob") else nobody

abbrev running : Running
running = record { running = true; max_clients = 4 }

abbrev words : List Bytes
words = codes "kick" ∷ codes "lice" ∷ []

sv_kick_f-Kicked_example :
    Kicked (is_match clients (codes "lice")) 4 (sv_kick_f 0 running clients words (λ i. false)).1
sv_kick_f-Kicked_example =
    sv_kick_f-Kicked running clients words (λ i. false) refl refl (omega arith)

kicks_alice :
    (sv_kick_f 0 running clients words (λ i. false)).1
    ≡ record { client = 0; reason = codes "EXE_PLAYERKICKED" } ∷ []
unfolding sv_kick_f x_get_players_by_name search_loop clear_from affected count_found kicks strstr
    q_clean_str starts_with
kicks_alice = refl

-- The number 64 passes the test of `SV_Mute`, and is past the 64 elements.
mutes_outside : sv_mute (codes "mute" ∷ codes "64" ∷ []) (λ i. false) ≡ outside
unfolding sv_mute atoi signed_digits digits
mutes_outside = refl
