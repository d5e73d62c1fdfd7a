-- ===== src/Download/Begin.antt =====
-- Asking for a download: `SV_BeginDownload` and `FS_IsPakFile` of src/sv_client.c. The functions
-- that stop and begin a download are code of the game binary.
use codextended.Prelude.{
  ℕ, ◌≡◌, refl, sym, ap, ◌∙◌, Bool, true, false, not, ◌||◌, Option, none, some, [], ◌∷◌, ◌++◌,
  ==_refl, if◌then◌else◌, arith, Bool-cases, inl, inr, Bytes, codes,
}
use codextended.Strings.Search.{starts_with, strstr}
use codextended.Files.{fs_is_server_file}

unfoldable pub fs_is_pak_file : Bytes → Bool
fs_is_pak_file name = strstr name (codes "pak") || strstr name (codes "localized")

-- What becomes of the request; a download that runs is stopped first when a name is given.
pub data Decision : Type 0 where
  ignored dropped begun : Decision

-- `arg1` is the name, if there is one.
unfoldable pub sv_begin_download : Option Bytes → Decision
sv_begin_download none = begun
sv_begin_download (some arg1) =
    if strstr arg1 (codes "..")
    then ignored
    else if not (strstr arg1 (codes ".pk3"))
        || fs_is_pak_file arg1
        || fs_is_server_file arg1
        || strstr arg1 (codes "pak")
    then dropped
    else begun

-- A string that stands in another one.
pub record IsPart (sub s : Bytes) : Type 0 where
  pub before : Bytes
  pub after : Bytes
  pub whole : s ≡ before ++ (sub ++ after)

starts_with-append : (sub after : Bytes) → starts_with sub (sub ++ after) ≡ true
unfolding starts_with
starts_with-append [] after = refl
starts_with-append (x ∷ sub) after = ground (arith, ==_refl x, starts_with-append sub after)

starts_with-split :
    (sub s : Bytes) → starts_with sub s ≡ true → (after : Bytes) × (s ≡ sub ++ after)
unfolding starts_with
starts_with-split [] s e = (s, refl)
starts_with-split (x ∷ sub) [] e = absurd (ground arith)
starts_with-split (x ∷ sub) (c ∷ s) e =
    let same : x ≡ c = ground arith in
    let (after, q) = starts_with-split sub s (ground arith) in
    (after, ap (λ d. d ∷ s) (sym same) ∙ ap (λ t. x ∷ t) q)

strstr-starts : (s sub : Bytes) → starts_with sub s ≡ true → strstr s sub ≡ true
unfolding strstr
strstr-starts [] sub e = e
strstr-starts (c ∷ s) sub e = ground arith

strstr-later : (c : ℕ) (s sub : Bytes) → strstr s sub ≡ true → strstr (c ∷ s) sub ≡ true
unfolding strstr
strstr-later c s sub e = ground arith

strstr-found : (sub before after : Bytes) → strstr (before ++ (sub ++ after)) sub ≡ true
strstr-found sub [] after = strstr-starts (sub ++ after) sub (starts_with-append sub after)
strstr-found sub (c ∷ before) after =
    strstr-later c (before ++ (sub ++ after)) sub (strstr-found sub before after)

not-IsPart : (s sub : Bytes) → strstr s sub ≡ false → ¬ IsPart sub s
not-IsPart s sub e p =
    ground (arith, ap (λ t. strstr t sub) p.whole, strstr-found sub p.before p.after)

strstr-IsPart : (s sub : Bytes) → strstr s sub ≡ true → IsPart sub s
unfolding strstr
strstr-IsPart [] sub e =
    let (after, q) = starts_with-split sub [] e in record { before = []; after = after; whole = q }
strstr-IsPart (c ∷ s) sub e = elim (Bool-cases (starts_with sub (c ∷ s))) [
  | inl here ↦
      let (after, q) = starts_with-split sub (c ∷ s) here in
      record { before = []; after = after; whole = q }
  | inr later ↦
      let p = strstr-IsPart s sub (ground arith) in
      record { before = c ∷ p.before; after = p.after; whole = ap (λ t. c ∷ t) p.whole }
]

-- A named download begins only if the name has ".pk3" in it, and none of "..", "pak", "localized",
-- "srv", "svr" and "server".
pub sv_begin_download-begun :
    (name : Bytes)
    → sv_begin_download (some name) ≡ begun
    → IsPart (codes ".pk3") name
      × (¬ IsPart (codes "..") name)
      × (¬ IsPart (codes "pak") name)
      × (¬ IsPart (codes "localized") name)
      × (¬ IsPart (codes "srv") name)
      × (¬ IsPart (codes "svr") name)
      × (¬ IsPart (codes "server") name)
unfolding sv_begin_download fs_is_pak_file fs_is_server_file
sv_begin_download-begun name e = (
  strstr-IsPart name (codes ".pk3") (ground arith),
  not-IsPart name (codes "..") (ground arith),
  not-IsPart name (codes "pak") (ground arith),
  not-IsPart name (codes "localized") (ground arith),
  not-IsPart name (codes "srv") (ground arith),
  not-IsPart name (codes "svr") (ground arith),
  not-IsPart name (codes "server") (ground arith),
)
