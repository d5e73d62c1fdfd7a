-- ===== src/Bans/InStep.antt =====
-- The list of bans and "muidbans.txt" after `SV_BanProcess`.
use mathlib.Core.List.{append-nil}
use codextended.Prelude.{
  ◌≡◌, refl, ap, subst, if◌then◌else◌, ◌∙◌, sym, ◌⊎◌, inl, inr, Bool, true, false, not, ◌||◌,
  is_empty, ltb, codes, Option, none, some, List, [], ◌∷◌, ◌++◌, All, arith, Bytes, ℕ, length, take,
  take_all,
}
use codextended.Net.{Adr}
use codextended.Connect.{muid_ban, list_each}
use codextended.Bans.{
  Admin, Drop, any, is_banned, Outside, text_of, append_to, entry, muid_loop, new_ban, new_line,
  x_read_banned_list, sv_ban_process,
}
use codextended.Bans.Lines.{IsLine, unlines, lines_of-unlines}
use codextended.Bans.Muid.{
  IsMuid, IsReason, m_uids_of, m_uids_of-append, m_uids_of-read, is_numbered, read-appended,
}

-- The list has the mUIDs that the file gives.
abbrev pub InStep : Outside → Adr → Admin → Type 0
InStep o start a = m_uids_of a.server.bans ≡ m_uids_of (x_read_banned_list o start a).server.bans

one_of_three :
    (p q r : Bool) (x y z : Admin × Option Drop)
    → let w = (if p then x else if q then y else if r then y else z).0 in
      (w ≡ x.0) ⊎ (w ≡ y.0) ⊎ (w ≡ z.0)
one_of_three true q r x y z = inl refl
one_of_three false true r x y z = inr (inl refl)
one_of_three false false true x y z = inr (inl refl)
one_of_three false false false x y z = inr (inr refl)

abbrev touched : Admin → Admin
touched a = record a { disk = append_to muid_ban [] a.disk }

abbrev banned : Outside → Admin → ℕ → Bytes → Admin
banned o a i reason = record {
  server = record a.server {
    bans = a.server.bans ++ new_ban o (a.server.clients i) (a.server.m_uids i) muid_ban ∷ [];
  };
  disk = append_to muid_ban (entry (a.server.m_uids i) reason) a.disk;
}

process_cases :
    (o : Outside) (a : Admin) (i : ℕ) (reason : Bytes)
    → let r = (sv_ban_process o a i muid_ban reason).0 in
      (r ≡ a) ⊎ (r ≡ touched a) ⊎ (r ≡ banned o a i reason)
unfolding sv_ban_process new_line
process_cases o a i reason =
    let u = a.server.m_uids i in
    let said = codes "Banned: [Reason " ++ reason ++ b']' ∷ [] in
    one_of_three (not a.disk.writable)
      (any (is_banned o u (a.server.clients i).remote_address) (list_each a.server.bans))
      (is_empty u || ltb 32 (length u)) (a, none) (touched a, none)
      (banned o a i reason, some (record { client = i; reason = said }))

touched-InStep :
    (o : Outside) (start : Adr) (a : Admin) (ls : List Bytes)
    → text_of a.disk.muid_bans ≡ unlines ls
    → All IsLine ls
    → InStep o start a
    → InStep o start (touched a)
unfolding append_to
touched-InStep o start a ls e lines h =
    let text = append-nil (text_of a.disk.muid_bans) ∙ e in
    let same =
      lines_of-unlines a.disk.muid_bans ls e lines ∙ sym (lines_of-unlines _ ls text lines) in
    h
    ∙ m_uids_of-read o start a
    ∙ ap (λ xs. m_uids_of (muid_loop o xs)) same
    ∙ sym (m_uids_of-read o start (touched a))

banned-InStep :
    (o : Outside) (start : Adr) (a : Admin) (i : ℕ) (reason : Bytes) (ls : List Bytes)
    → text_of a.disk.muid_bans ≡ unlines ls
    → All IsLine ls
    → IsMuid (a.server.m_uids i)
    → is_numbered (a.server.m_uids i) ≡ true
    → IsReason reason
    → InStep o start a
    → InStep o start (banned o a i reason)
unfolding append_to new_ban
banned-InStep o start a i reason ls e lines m numbered k h =
    let u = a.server.m_uids i in
    m_uids_of-append a.server.bans (new_ban o (a.server.clients i) u muid_ban ∷ [])
    ∙ ap (λ us. us ++ take 32 u ∷ []) h
    ∙ ap (λ v. m_uids_of (x_read_banned_list o start a).server.bans ++ v ∷ [])
        (take_all 32 u (omega (arith, m.size)))
    ∙ sym (
        read-appended o start a (banned o a i reason) ls u reason e lines refl m k
        ∙ rw numbered refl)

-- Whatever `SV_BanProcess` does with a client whose mUID has 32 bytes, no blank, and a number for
-- `atoi`, for a reason of one line below 128 bytes: the mUIDs in the list and those that the file
-- gives when it is read again stay the same, as long as the file has whole lines.
pub sv_ban_process-InStep :
    (o : Outside) (start : Adr) (a : Admin) (i : ℕ) (reason : Bytes) (ls : List Bytes)
    → text_of a.disk.muid_bans ≡ unlines ls
    → All IsLine ls
    → IsMuid (a.server.m_uids i)
    → is_numbered (a.server.m_uids i) ≡ true
    → IsReason reason
    → InStep o start a
    → InStep o start (sv_ban_process o a i muid_ban reason).0
sv_ban_process-InStep o start a i reason ls e lines m numbered k h =
    elim (process_cases o a i reason) [
      | inl same ↦ subst (InStep o start) (sym same) h
      | inr (inl opened) ↦
          subst (InStep o start) (sym opened) (touched-InStep o start a ls e lines h)
      | inr (inr added) ↦
          subst (InStep o start) (sym added)
            (banned-InStep o start a i reason ls e lines m numbered k h)
    ]
