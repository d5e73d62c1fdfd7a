-- ===== src/Bans/Ip.antt =====
-- The addresses that stay banned when `SV_UnbanIP_f` has written the file and `X_ReadBannedList` has
-- read it again.
use mathlib.Core.List.{append_assoc, append-nil, map-append}
use codextended.Prelude.{
  ℕ, ◌≤◌, ◌<◌, ◌≡◌, ◌≢◌, refl, ap, ◌∙◌, sym, Bool, true, false, not, some, List, [], ◌∷◌, ◌++◌, map,
  All, All-append, length, keep, take_all, arith, Bytes, ◌==◌, ==_iff, if◌then◌else◌, Bool-cases,
  inl, inr, length-append, is_empty,
}
use codextended.Net.{Adr, Ip, na_ip, type_eq}
use codextended.Net.Text.{ip_text, net_base_adr_to_string}
use codextended.Net.Dotted.{IsDotted, ip_text-IsDotted, length-ip_text}
use codextended.Connect.{Ban, muid_ban, ip_ban}
use codextended.Bans.{
  Admin, Outside, argv, entry, split_colon, ip_loop, muid_loop, ip_bans_text, lines_of, utrim,
  trim_end, skip_blanks, x_read_banned_list, sv_unban_ip,
}
use codextended.Bans.Lines.{IsLine, ended, unlines, lines_of-unlines, unlines-append}

-- A reason up to its first newline, and whether there is one.
abbrev pub chomp : Bytes → Bytes
chomp [] = []
chomp (c ∷ s) = if c == b'\n' then [] else c ∷ chomp s

abbrev pub has_newline : Bytes → Bool
has_newline [] = false
has_newline (c ∷ s) = if c == b'\n' then true else has_newline s

-- A reason that fits its array and has no newline, or one at its end, as a line that was read has.
pub record IsOneLine (r : Bytes) : Type 0 where
  pub whole : r ≡ (if has_newline r then ended (chomp r) else chomp r)
  pub fits : length r < 127

-- `NET_StringToAdr` reads the address from its dotted text, whatever was in the place before.
abbrev pub ReadsDotted : Outside → Ip → Type 0
ReadsDotted o ip = (old : Adr) → (o.string_to_adr (ip_text ip) old).ip ≡ ip

-- The bans of addresses among `bans` are such, with addresses of the type that has a dotted text.
abbrev pub AllIps : Outside → List Ban → Type 0
AllIps o [] = Unit
AllIps o (b ∷ bs) =
    (elim b.type [
      | ip_ban ↦ (type_eq b.adr.type na_ip ≡ true) × IsOneLine b.reason × ReadsDotted o b.adr.ip
      | muid_ban ↦ Unit
    ])
    × AllIps o bs

-- The addresses that are banned, with the first lines of their reasons.
abbrev pub ips_of : List Ban → List (Ip × Bytes)
ips_of [] = []
ips_of (b ∷ bs) =
    let rest = ips_of bs in
    elim b.type [ ip_ban ↦ (b.adr.ip, chomp b.reason) ∷ rest | muid_ban ↦ rest ]

trim_end-dotted : (w : Bytes) → All IsDotted w → trim_end w ≡ w
unfolding trim_end
trim_end-dotted [] h = refl
trim_end-dotted (c ∷ w) h = ground (arith, trim_end-dotted w)

utrim-dotted : (w : Bytes) → All IsDotted w → utrim w ≡ w
unfolding utrim skip_blanks
utrim-dotted [] h = trim_end-dotted [] h
utrim-dotted (c ∷ w) h = ground (arith, trim_end-dotted (c ∷ w))

split_colon-dotted : (w t : Bytes) → All IsDotted w → split_colon (w ++ b':' ∷ t) ≡ (w, some t)
unfolding split_colon
split_colon-dotted [] t h = refl
split_colon-dotted (c ∷ w) t h = ground (arith, split_colon-dotted w t)

dotted_in_line : (w : Bytes) → All IsDotted w → All (λ (c : ℕ). c ≢ b'\n') w
dotted_in_line [] h = tt
dotted_in_line (c ∷ w) h = (λ e. omega arith, dotted_in_line w h.1)

chomp_one : (r : Bytes) → All (λ (c : ℕ). c ≢ b'\n') (chomp r)
chomp_one [] = tt
chomp_one (c ∷ r) = ground (arith, chomp_one r, ==_iff c b'\n')

length-chomp : (r : Bytes) → length (chomp r) ≤ length r
length-chomp [] = omega arith
length-chomp (c ∷ r) = ground (arith, length-chomp r)

chomp-ended : (r : Bytes) → All (λ (c : ℕ). c ≢ b'\n') r → chomp (ended r) ≡ r
chomp-ended [] h = refl
chomp-ended (c ∷ r) h = ground (arith, chomp-ended r, ==_iff c b'\n')

-- A written ban, as lines.
abbrev line : Ip → Bytes → Bytes
line ip r = ip_text ip ++ b':' ∷ chomp r

abbrev blank : Bytes → List Bytes
blank r = if has_newline r then [] ∷ [] else []

abbrev lines : Ip → Bytes → List Bytes
lines ip r = line ip r ∷ blank r

entry-lines : (ip : Ip) (r : Bytes) → IsOneLine r → entry (ip_text ip) r ≡ unlines (lines ip r)
entry-lines ip r h = elim (Bool-cases (has_newline r)) [
  | inl n ↦
      let e : r ≡ ended (chomp r) = ground (arith, h.whole) in
      rw n (
        ap (entry (ip_text ip)) e
        ∙ ap ended (sym (append_assoc (ip_text ip) (b':' ∷ chomp r) (b'\n' ∷ [])))
        ∙ append_assoc (line ip r) (b'\n' ∷ []) (b'\n' ∷ []))
  | inr n ↦ let e : r ≡ chomp r = ground (arith, h.whole) in rw n (ap (entry (ip_text ip)) e)
]

ip_loop-blank :
    (o : Outside) (old : Adr) (ls : List Bytes) (n : Bool)
    → ip_loop o old (map ended (if n then [] ∷ [] else []) ++ ls) ≡ ip_loop o old ls
unfolding ip_loop split_colon utrim trim_end skip_blanks
ip_loop-blank o old ls true = refl
ip_loop-blank o old ls false = refl

not_empty : (w : Bytes) → 0 < length w → is_empty w ≡ false
not_empty [] h = absurd (omega arith)
not_empty (c ∷ w) h = refl

ip_loop-line :
    (o : Outside) (old : Adr) (ip : Ip) (r : Bytes) (ls : List Bytes)
    → ReadsDotted o ip
    → IsOneLine r
    → ips_of (ip_loop o old (map ended (lines ip r) ++ ls))
      ≡ (ip, chomp r) ∷ ips_of (ip_loop o (o.string_to_adr (ip_text ip) old) ls)
unfolding ip_loop
ip_loop-line o old ip r ls reads h =
    let dotted = ip_text-IsDotted ip in
    let reason = ended (chomp r) in
    let split : split_colon (ended (line ip r)) ≡ (ip_text ip, some reason) =
      ap split_colon (append_assoc (ip_text ip) (b':' ∷ chomp r) (b'\n' ∷ []))
      ∙ split_colon-dotted (ip_text ip) reason dotted in
    let fits : length reason ≤ 128 =
      omega (arith, length-append {0} (chomp r) (b'\n' ∷ []), length-chomp r, h.fits) in
    let next = o.string_to_adr (ip_text ip) old in
    rw
      (
        split,
        utrim-dotted (ip_text ip) dotted,
        not_empty (ip_text ip) (length-ip_text ip).0,
        take_all 128 reason fits,
        chomp-ended (chomp r) (chomp_one r),
      )
      (ap (λ (x : Ip). (x, chomp r) ∷ ips_of (ip_loop o next (map ended (blank r) ++ ls)))
          (reads old)
        ∙ ap (λ (bs : List Ban). (ip, chomp r) ∷ ips_of bs)
            (ip_loop-blank o next ls (has_newline r)))

-- The lines that the unban command writes.
abbrev stays : Outside → Adr → List Ban → List Bytes
stays o adr [] = []
stays o adr (b ∷ bs) =
    let rest = stays o adr bs in
    elim b.type [
      | ip_ban ↦ if o.compare_base b.adr adr then rest else lines b.adr.ip b.reason ++ rest
      | muid_ban ↦ rest
    ]

blank-IsLine : (n : Bool) → All IsLine (if n then [] ∷ [] else [])
blank-IsLine true = (record { one = tt; fits = omega arith }, tt)
blank-IsLine false = tt

lines-IsLine : (ip : Ip) (r : Bytes) → IsOneLine r → All IsLine (lines ip r)
lines-IsLine ip r h =
    let first : IsLine (line ip r) = record {
      one =
          All-append _ (ip_text ip) (b':' ∷ chomp r)
            (dotted_in_line (ip_text ip) (ip_text-IsDotted ip)) (omega arith, chomp_one r);
      fits = omega (
        arith,
        length-append {0} (ip_text ip) (b':' ∷ chomp r),
        length-chomp r,
        length-ip_text ip,
        h.fits,
      );
    } in
    (first, blank-IsLine (has_newline r))

ips_of-append : (bs cs : List Ban) → ips_of (bs ++ cs) ≡ ips_of bs ++ ips_of cs
ips_of-append [] cs = refl
ips_of-append (b ∷ bs) cs = ground (arith, ips_of-append bs cs)

ips_of-muid_loop : (o : Outside) (ls : List Bytes) → ips_of (muid_loop o ls) ≡ []
unfolding muid_loop
ips_of-muid_loop o [] = refl
ips_of-muid_loop o (l ∷ ls) = ground (arith, ips_of-muid_loop o ls)

ips_of-read :
    (o : Outside) (start : Adr) (a : Admin)
    → ips_of (x_read_banned_list o start a).server.bans
      ≡ ips_of (ip_loop o start (lines_of a.disk.ip_bans))
unfolding x_read_banned_list
ips_of-read o start a =
    let ls = lines_of a.disk.muid_bans in
    ips_of-append (ip_loop o start (lines_of a.disk.ip_bans)) (muid_loop o ls)
    ∙ rw (ips_of-muid_loop o ls) (append-nil _)

stays-IsLine : (o : Outside) (adr : Adr) (bs : List Ban) → AllIps o bs → All IsLine (stays o adr bs)
stays-IsLine o adr [] h = tt
stays-IsLine o adr (b ∷ bs) h = ground (
  arith,
  lines-IsLine b.adr.ip b.reason,
  stays-IsLine o adr bs,
  All-append IsLine (lines b.adr.ip b.reason) (stays o adr bs),
)

text_lines :
    (adr : Adr) → type_eq adr.type na_ip ≡ true → net_base_adr_to_string adr ≡ ip_text adr.ip
unfolding net_base_adr_to_string type_eq
text_lines adr h = ground arith

ip_bans_text-stays :
    (o : Outside) (adr : Adr) (bs : List Ban)
    → AllIps o bs
    → ip_bans_text o adr bs ≡ unlines (stays o adr bs)
unfolding ip_bans_text
ip_bans_text-stays o adr [] h = refl
ip_bans_text-stays o adr (b ∷ bs) h = ground (
  arith,
  text_lines b.adr,
  entry-lines b.adr.ip b.reason,
  ip_bans_text-stays o adr bs,
  unlines-append (lines b.adr.ip b.reason) (stays o adr bs),
)

read-stays :
    (o : Outside) (old adr : Adr) (bs : List Ban)
    → AllIps o bs
    → ips_of (ip_loop o old (map ended (stays o adr bs)))
      ≡ ips_of (keep (λ b. not (o.compare_base b.adr adr)) bs)
read-stays o old adr [] h = unfold ip_loop in refl
read-stays o old adr (b ∷ bs) h =
    let ls = map ended (stays o adr bs) in
    ground (
      arith,
      map-append ended (lines b.adr.ip b.reason) (stays o adr bs),
      ip_loop-line o old b.adr.ip b.reason ls,
      read-stays o old adr bs,
      read-stays o (o.string_to_adr (ip_text b.adr.ip) old) adr bs,
    )

unbanned :
    (o : Outside) (start : Adr) (args : List Bytes) (a : Admin)
    → length args ≡ 2
    → a.disk.writable ≡ true
    → sv_unban_ip o start args a
      ≡ x_read_banned_list o start (record a {
        disk = record a.disk {
          ip_bans = some (ip_bans_text o (o.string_to_adr (argv args 1) start) a.server.bans);
        };
      })
unfolding sv_unban_ip
unbanned o start args a two w = ground arith

-- When `NET_StringToAdr` reads the dotted addresses of the bans: after `SV_UnbanIP_f` the banned addresses are those
-- that were banned, in their order and with the first lines of their reasons, without those that
-- compare equal to the one named, whatever the two files held before.
pub sv_unban_ip-keep :
    (o : Outside) (start : Adr) (args : List Bytes) (a : Admin)
    → length args ≡ 2
    → a.disk.writable ≡ true
    → AllIps o a.server.bans
    → ips_of (sv_unban_ip o start args a).server.bans
      ≡ ips_of (
          keep
            (λ b. not (o.compare_base b.adr (o.string_to_adr (argv args 1) start)))
            a.server.bans)
sv_unban_ip-keep o start args a two w h =
    let adr = o.string_to_adr (argv args 1) start in
    let bs = a.server.bans in
    ap (λ (x : Admin). ips_of x.server.bans) (unbanned o start args a two w)
    ∙ ips_of-read o start _
    ∙ ap (λ ls. ips_of (ip_loop o start ls))
        (lines_of-unlines _ (stays o adr bs) (ip_bans_text-stays o adr bs h)
          (stays-IsLine o adr bs h))
    ∙ read-stays o start adr bs h
