-- ===== src/Examples/BansAt.antt =====
-- Bans at concrete inputs: the list holds an mUID and two addresses.
use codextended.Prelude.{
  ℕ, ◌≡◌, refl, Bool, true, false, none, some, List, [], ◌∷◌, ◌++◌, codes, Bytes, arith, keep, All,
  not, ◌&&◌, if◌then◌else◌,
}
use codextended.Net.{Ip, na_ip, ip_eq, bytes_eq, type_eq}
use codextended.Status.{show_int, show_loop}
use codextended.Strings.{is_blank, atoi, signed_digits, digits}
use codextended.Connect.{Ban, muid_ban, ip_ban}
use codextended.Bans.{
  Admin, Outside, sv_ban_process, sv_ban_muid, sv_unban_muid, sv_unban_ip, x_read_banned_list,
  append_to, muid_loop, lines_of, read_lines, fgets, utrim, skip_blanks, trim_end, ip_loop,
}
use codextended.Bans.Lines.{IsLine, unlines, word_in_line}
use codextended.Bans.Muid.{
  IsMuid, AllMuids, m_uids_of, is_numbered, sv_unban_muid-keep, sv_ban_muid-adds,
}
use codextended.Bans.Ip.{AllIps, ips_of, sv_unban_ip-keep}
use codextended.Bans.InStep.{InStep, sv_ban_process-InStep}
use codextended.Examples.ConnectAt.{host, server}

abbrev first_muid : Bytes
first_muid = codes "0123456789abcdef0123456789abcdef"

abbrev second_muid : Bytes
second_muid = codes "77aa0000000000000000000000000000"

abbrev eight : Ip
eight = record { b0 = 10; b1 = 0; b2 = 0; b3 = 8 }

-- Reads the two addresses of the list.
abbrev reader : Outside
reader = record {
  compare_base = λ a b. ip_eq a.ip b.ip;
  string_to_adr = λ s old. record old {
    ip = if bytes_eq s (codes "10.0.0.8") then eight else host.ip;
    type = na_ip;
  };
  fresh = record { type = ip_ban; m_uid = []; adr = host; reason = [] };
}

abbrev bans : List Ban
bans =
    record { type = muid_ban; m_uid = first_muid; adr = host; reason = codes "spam" }
    ∷ record { type = ip_ban; m_uid = []; adr = host; reason = codes "flood\n" }
    ∷ record { type = ip_ban; m_uid = []; adr = record host { ip = eight }; reason = [] }
    ∷ []

abbrev admin : Admin
admin = record {
  server = record server { bans = bans; m_uids = λ i. second_muid };
  disk = record { ip_bans = none; muid_bans = some (unlines (first_muid ∷ [])); writable = true };
}

solid : Bytes → Bool
solid [] = true
solid (c ∷ s) = not (is_blank c) && solid s

solid-All : (s : Bytes) → solid s ≡ true → All (λ (c : ℕ). is_blank c ≡ false) s
unfolding solid
solid-All [] e = tt
solid-All (c ∷ s) e = ground (arith, solid-All s)

first_muid-IsMuid : IsMuid first_muid
unfolding solid
first_muid-IsMuid = record { size = refl; solid = solid-All first_muid refl }

second_muid-IsMuid : IsMuid second_muid
unfolding solid
second_muid-IsMuid = record { size = refl; solid = solid-All second_muid refl }

bans-AllMuids : AllMuids bans
bans-AllMuids = ((first_muid-IsMuid, omega arith), (tt, (tt, tt)))

first_muid-IsLine : All IsLine (first_muid ∷ [])
first_muid-IsLine =
    (record { one = word_in_line first_muid first_muid-IsMuid.solid; fits = omega arith }, tt)

bans-AllIps : AllIps reader bans
unfolding bytes_eq show_int show_loop type_eq
bans-AllIps = (
  tt,
  (
    (refl, record { whole = refl; fits = omega arith }, λ old. refl),
    ((refl, record { whole = refl; fits = omega arith }, λ old. refl), tt),
  ),
)

sv_unban_muid-keep_example :
    m_uids_of (sv_unban_muid reader host (codes "unbanmuid" ∷ second_muid ∷ []) admin).server.bans
    ≡ keep (λ u. not (bytes_eq u second_muid) && is_numbered u) (m_uids_of bans)
sv_unban_muid-keep_example =
    sv_unban_muid-keep reader host (codes "unbanmuid" ∷ second_muid ∷ []) admin refl refl
      bans-AllMuids

sv_ban_muid-adds_example :
    m_uids_of
      (sv_ban_muid reader host
        (record { running = false; max_clients = 0 })
        (codes "banmuid" ∷ second_muid ∷ [])
        admin).0.server.bans
    ≡ m_uids_of (x_read_banned_list reader host admin).server.bans
      ++ (if is_numbered second_muid then second_muid ∷ [] else [])
sv_ban_muid-adds_example =
    sv_ban_muid-adds reader host (record { running = false; max_clients = 0 })
      (codes "banmuid" ∷ second_muid ∷ []) admin (first_muid ∷ []) refl refl second_muid-IsMuid refl
      first_muid-IsLine

sv_unban_ip-keep_example :
    ips_of (sv_unban_ip reader host (codes "unbanip" ∷ codes "10.0.0.8" ∷ []) admin).server.bans
    ≡ ips_of (keep (λ b. not (ip_eq b.adr.ip eight)) bans)
unfolding bytes_eq
sv_unban_ip-keep_example =
    sv_unban_ip-keep reader host (codes "unbanip" ∷ codes "10.0.0.8" ∷ []) admin refl refl
      bans-AllIps

-- A client whose mUID is not in the list yet is banned.
in_step : InStep reader host admin
unfolding x_read_banned_list muid_loop lines_of read_lines fgets utrim skip_blanks trim_end atoi
    signed_digits digits ip_loop
in_step = refl

second_muid-is_numbered : is_numbered second_muid ≡ true
unfolding atoi signed_digits digits
second_muid-is_numbered = refl

sv_ban_process-InStep_example :
    InStep reader host (sv_ban_process reader admin 3 muid_ban (codes "cheating")).0
sv_ban_process-InStep_example =
    sv_ban_process-InStep reader host admin 3 (codes "cheating") (first_muid ∷ []) refl
      first_muid-IsLine second_muid-IsMuid second_muid-is_numbered (omega arith) in_step

-- An mUID that begins with a letter is banned, and not in the list that is read.
abbrev letter_muid : Bytes
letter_muid = codes "a123456789abcdef0123456789abcdef"

letter_muid_lost :
    m_uids_of
      (sv_ban_muid reader host
        (record { running = false; max_clients = 0 })
        (codes "banmuid" ∷ letter_muid ∷ [])
        admin).0.server.bans
    ≡ first_muid ∷ []
unfolding sv_ban_muid append_to x_read_banned_list muid_loop lines_of read_lines fgets utrim
    skip_blanks trim_end atoi signed_digits digits ip_loop
letter_muid_lost = refl
