-- ===== src/Bans/Muid.antt =====
-- The mUIDs that stay banned when `SV_UnbanMUID_f` and `SV_BanMUID_f` have written the file and
-- `X_ReadBannedList` has read it again.
use mathlib.Core.List.{append_assoc, map-append}
use codextended.Prelude.{
  ℕ, ◌<◌, ◌≡◌, ◌≢◌, refl, ap, ◌∙◌, sym, Bool, true, false, not, ◌&&◌, some, List, [], ◌∷◌, ◌++◌,
  map, All, All-append, length, keep, take-append_left, arith, Bytes, if◌then◌else◌, Bool-cases,
  inl, inr, length-append, is_empty, pos, eqb_ℤ,
}
use codextended.Net.{Adr, bytes_eq}
use codextended.Strings.{is_blank, atoi}
use codextended.Connect.{Ban, muid_ban, ip_ban}
use codextended.Bans.{
  Admin, Outside, Running, argv, entry, text_of, ip_loop, muid_loop, muid_text, lines_of, utrim,
  split_colon, append_to, x_read_banned_list, sv_unban_muid, sv_ban_muid,
}
use codextended.Bans.Lines.{
  IsLine, IsWord, ended, unlines, lines_of-unlines, unlines-append, word_in_line, utrim-colon,
  atoi-colon,
}

-- An mUID of the length that the master gives out, without blanks.
pub record IsMuid (m : Bytes) : Type 0 where
  pub size : length m ≡ 32
  pub solid : All (λ (c : ℕ). is_blank c ≡ false) m

-- A reason that is one line and fits its array.
pub record IsReason (r : Bytes) : Type 0 where
  pub one : All (λ (c : ℕ). c ≢ b'\n') r
  pub fits : length r < 128

-- The bans of mUIDs among `bans` are such.
abbrev pub AllMuids : List Ban → Type 0
AllMuids [] = Unit
AllMuids (b ∷ bs) =
    (elim b.type [ muid_ban ↦ IsMuid b.m_uid × IsReason b.reason | ip_ban ↦ Unit ]) × AllMuids bs

abbrev pub m_uids_of : List Ban → List Bytes
m_uids_of [] = []
m_uids_of (b ∷ bs) =
    let rest = m_uids_of bs in elim b.type [ muid_ban ↦ b.m_uid ∷ rest | ip_ban ↦ rest ]

-- Whether `X_ReadBannedList` takes the mUID for one: `atoi` gives it a number.
abbrev pub is_numbered : Bytes → Bool
is_numbered m = not (eqb_ℤ (atoi m) (pos 0))

pub m_uids_of-append : (bs cs : List Ban) → m_uids_of (bs ++ cs) ≡ m_uids_of bs ++ m_uids_of cs
m_uids_of-append [] cs = refl
m_uids_of-append (b ∷ bs) cs = ground (arith, m_uids_of-append bs cs)

m_uids_of-ip_loop : (o : Outside) (adr : Adr) (ls : List Bytes) → m_uids_of (ip_loop o adr ls) ≡ []
unfolding ip_loop
m_uids_of-ip_loop o adr [] = refl
m_uids_of-ip_loop o adr (l ∷ ls) =
    let next = o.string_to_adr (utrim (split_colon l).0) adr in
    ground (arith, m_uids_of-ip_loop o adr ls, m_uids_of-ip_loop o next ls)

pub m_uids_of-read :
    (o : Outside) (start : Adr) (a : Admin)
    → m_uids_of (x_read_banned_list o start a).server.bans
      ≡ m_uids_of (muid_loop o (lines_of a.disk.muid_bans))
unfolding x_read_banned_list
m_uids_of-read o start a =
    m_uids_of-append (ip_loop o start (lines_of a.disk.ip_bans)) _
    ∙ rw (m_uids_of-ip_loop o start (lines_of a.disk.ip_bans)) refl

word : (m : Bytes) → IsMuid m → IsWord m
word m h = record { solid = h.solid; some_byte = omega (arith, h.size) }

abbrev line : Bytes → Bytes → Bytes
line m r = m ++ b':' ∷ r

line-IsLine : (m r : Bytes) → IsMuid m → IsReason r → IsLine (line m r)
line-IsLine m r h k = record {
  one = All-append _ m (b':' ∷ r) (word_in_line m h.solid) (omega arith, k.one);
  fits = omega (arith, length-append {0} m (b':' ∷ r), h.size, k.fits);
}

utrim-line : (m r : Bytes) → IsMuid m → (t : Bytes) × (utrim (ended (line m r)) ≡ m ++ b':' ∷ t)
utrim-line m r h =
    (_, ap utrim (append_assoc m (b':' ∷ r) _) ∙ utrim-colon m (r ++ b'\n' ∷ []) (word m h))

is_empty-line : (m t : Bytes) → is_empty (m ++ b':' ∷ t) ≡ false
is_empty-line [] t = refl
is_empty-line (c ∷ m) t = refl

muid_loop-line :
    (o : Outside) (m r : Bytes) (ls : List Bytes)
    → IsMuid m
    → m_uids_of (muid_loop o (ended (line m r) ∷ ls))
      ≡ (if is_numbered m then m ∷ m_uids_of (muid_loop o ls) else m_uids_of (muid_loop o ls))
unfolding muid_loop
muid_loop-line o m r ls h =
    let (t, e) = utrim-line m r h in
    rw (e, is_empty-line m t, atoi-colon m t (word m h))
      (elim (Bool-cases (eqb_ℤ (atoi m) (pos 0))) [
        | inl z ↦ rw z refl
        | inr n ↦ rw (n, take-append_left 32 m (b':' ∷ t) h.size) refl
      ])

-- The lines that the unban command writes.
abbrev stays : Bytes → List Ban → List Bytes
stays m [] = []
stays m (b ∷ bs) =
    let rest = stays m bs in
    elim b.type [
      | muid_ban ↦ if bytes_eq b.m_uid m then rest else line b.m_uid b.reason ∷ rest
      | ip_ban ↦ rest
    ]

abbrev may_stay : Bytes → Bytes → Bool
may_stay m u = not (bytes_eq u m) && is_numbered u

muid_text-stays : (m : Bytes) (bs : List Ban) → muid_text m bs ≡ unlines (stays m bs)
unfolding muid_text
muid_text-stays m [] = refl
muid_text-stays m (b ∷ bs) = ground (
  arith,
  muid_text-stays m bs,
  append_assoc (line b.m_uid b.reason) (b'\n' ∷ []) (muid_text m bs),
)

stays-IsLine : (m : Bytes) (bs : List Ban) → AllMuids bs → All IsLine (stays m bs)
stays-IsLine m [] h = tt
stays-IsLine m (b ∷ bs) h = ground (arith, line-IsLine b.m_uid b.reason, stays-IsLine m bs)

read-stays :
    (o : Outside) (m : Bytes) (bs : List Ban)
    → AllMuids bs
    → m_uids_of (muid_loop o (map ended (stays m bs))) ≡ keep (may_stay m) (m_uids_of bs)
unfolding muid_loop
read-stays o m [] h = refl
read-stays o m (b ∷ bs) h =
    ground (arith, muid_loop-line o b.m_uid b.reason (map ended (stays m bs)), read-stays o m bs)

unbanned :
    (o : Outside) (start : Adr) (args : List Bytes) (a : Admin)
    → length args ≡ 2
    → a.disk.writable ≡ true
    → sv_unban_muid o start args a
      ≡ x_read_banned_list o start (record a {
        disk = record a.disk { muid_bans = some (muid_text (argv args 1) a.server.bans) };
      })
unfolding sv_unban_muid
unbanned o start args a two w = ground arith

-- When each banned mUID has exactly 32 bytes, none of them blank, and its reason is one line that fits
-- its array: after `SV_UnbanMUID_f` with one name, the file being writable, the banned mUIDs are
-- those that were banned, in their order, without the one named, and without those that `atoi` reads
-- as 0. What the two files held before does not matter. (A shorter mUID is read back with a colon and
-- its reason behind it.)
pub sv_unban_muid-keep :
    (o : Outside) (start : Adr) (args : List Bytes) (a : Admin)
    → length args ≡ 2
    → a.disk.writable ≡ true
    → AllMuids a.server.bans
    → m_uids_of (sv_unban_muid o start args a).server.bans
      ≡ keep (λ u. not (bytes_eq u (argv args 1)) && is_numbered u) (m_uids_of a.server.bans)
sv_unban_muid-keep o start args a two w h =
    let m = argv args 1 in
    let bs = a.server.bans in
    ap (λ (x : Admin). m_uids_of x.server.bans) (unbanned o start args a two w)
    ∙ m_uids_of-read o start _
    ∙ ap (λ ls. m_uids_of (muid_loop o ls))
        (lines_of-unlines _ (stays m bs) (muid_text-stays m bs) (stays-IsLine m bs h))
    ∙ read-stays o m bs h

no_third : (args : List Bytes) → length args ≡ 2 → argv args 2 ≡ []
no_third [] e = refl
no_third (x ∷ []) e = refl
no_third (x ∷ y ∷ []) e = refl
no_third (x ∷ y ∷ z ∷ args) e = absurd (omega arith)

appended :
    (o : Outside) (start : Adr) (v : Running) (args : List Bytes) (a : Admin)
    → length args ≡ 2
    → a.disk.writable ≡ true
    → IsMuid (argv args 1)
    → (sv_ban_muid o start v args a).0
      ≡ x_read_banned_list o start (record a {
        disk = record a.disk {
          muid_bans = some (text_of a.disk.muid_bans ++ ended (line (argv args 1) []));
        };
      })
unfolding sv_ban_muid append_to
appended o start v args a two w h = ground (arith, no_third args two, h.size)

muid_loop-append :
    (o : Outside) (ls ms : List Bytes)
    → m_uids_of (muid_loop o (ls ++ ms)) ≡ m_uids_of (muid_loop o ls) ++ m_uids_of (muid_loop o ms)
unfolding muid_loop
muid_loop-append o [] ms = refl
muid_loop-append o (l ∷ ls) ms = ground (arith, muid_loop-append o ls ms)

muid_loop_nil : (o : Outside) → muid_loop o [] ≡ []
unfolding muid_loop
muid_loop_nil o = refl

-- A line more in the file is one mUID more in the list, if `atoi` gives it a number.
pub read-appended :
    (o : Outside) (start : Adr) (a a' : Admin) (ls : List Bytes) (m r : Bytes)
    → text_of a.disk.muid_bans ≡ unlines ls
    → All IsLine ls
    → text_of a'.disk.muid_bans ≡ text_of a.disk.muid_bans ++ entry m r
    → IsMuid m
    → IsReason r
    → m_uids_of (x_read_banned_list o start a').server.bans
      ≡ m_uids_of (x_read_banned_list o start a).server.bans
        ++ (if is_numbered m then m ∷ [] else [])
read-appended o start a a' ls m r e lines e' h k =
    let l = line m r in
    let whole = All-append IsLine ls (l ∷ []) lines (line-IsLine m r h k, tt) in
    let text = e' ∙ ap (λ t. t ++ ended l) e ∙ sym (unlines-append ls (l ∷ [])) in
    let read =
      m_uids_of-read o start a
      ∙ ap (λ xs. m_uids_of (muid_loop o xs)) (lines_of-unlines _ ls e lines) in
    m_uids_of-read o start a'
    ∙ ap (λ xs. m_uids_of (muid_loop o xs))
        (lines_of-unlines _ (ls ++ l ∷ []) text whole ∙ map-append ended ls (l ∷ []))
    ∙ muid_loop-append o (map ended ls) (ended l ∷ [])
    ∙ rw (read, muid_loop-line o m r [] h, muid_loop_nil o) refl

-- When "muidbans.txt" is writable and holds whole lines that fit the buffer: after `SV_BanMUID_f` with
-- an mUID of exactly 32 bytes, none of them blank, the banned mUIDs are those in the file, and that
-- one, unless `atoi` reads it as 0: then it is in the file and not in the list. (The command takes
-- shorter mUIDs, which are read back with a colon behind them.)
pub sv_ban_muid-adds :
    (o : Outside) (start : Adr) (v : Running) (args : List Bytes) (a : Admin) (ls : List Bytes)
    → length args ≡ 2
    → a.disk.writable ≡ true
    → IsMuid (argv args 1)
    → text_of a.disk.muid_bans ≡ unlines ls
    → All IsLine ls
    → m_uids_of (sv_ban_muid o start v args a).0.server.bans
      ≡ m_uids_of (x_read_banned_list o start a).server.bans
        ++ (if is_numbered (argv args 1) then argv args 1 ∷ [] else [])
sv_ban_muid-adds o start v args a ls two w h e lines =
    let empty_reason : IsReason [] = record { one = tt; fits = omega arith } in
    ap (λ (x : Admin). m_uids_of x.server.bans) (appended o start v args a two w h)
    ∙ read-appended o start a _ ls (argv args 1) [] e lines refl h empty_reason
