-- ===== src/Files/Joined.antt =====
-- The two lists of pak files side by side.
use mathlib.Core.List.{append_assoc, append-nil}
use codextended.Prelude.{
  ℕ, zero, suc, ◌+◌, ◌/◌, ◌%◌, ◌≡◌, refl, sym, ◌∙◌, Bool, false, not, List, [], ◌∷◌, ◌++◌, map,
  keep, if◌then◌else◌, ℤ, pos, negsuc, Bytes, is_empty, arith, Bool-cases, inl, inr,
}
use codextended.Status.{show_int, show_loop}
use codextended.Files.{
  Pack, fs_is_server_file, space_after, checksums_loop, full_name, names_loop,
  fs_referenced_pak_checksums, fs_referenced_pak_names,
}

-- Texts, each with a space in front, and texts with a space between any two.
abbrev led : List Bytes → Bytes
led [] = []
led (t ∷ ts) = (b' ' ∷ t) ++ led ts

abbrev pub spaced : List Bytes → Bytes
spaced [] = []
spaced (t ∷ ts) = t ++ led ts

abbrev pub is_public : Pack → Bool
is_public pak = not (fs_is_server_file pak.pak_basename)

abbrev with_pak : (Pack → Bytes) → Bytes → Pack → Bytes
with_pak f info pak = if fs_is_server_file pak.pak_basename then info else space_after info ++ f pak

-- What both loops do, for the text of a pak.
joined_loop : (Pack → Bytes) → Bytes → List Pack → Bytes
joined_loop f info [] = info
joined_loop f info (pak ∷ paks) = joined_loop f (with_pak f info pak) paks

checksums_loop-joined :
    (info : Bytes) (paks : List Pack)
    → checksums_loop info paks ≡ joined_loop (λ p. show_int p.checksum) info paks
unfolding checksums_loop joined_loop
checksums_loop-joined info [] = refl
checksums_loop-joined info (pak ∷ paks) =
    checksums_loop-joined (with_pak (λ p. show_int p.checksum) info pak) paks

names_loop-joined :
    (info : Bytes) (paks : List Pack) → names_loop info paks ≡ joined_loop full_name info paks
unfolding names_loop joined_loop
names_loop-joined info [] = refl
names_loop-joined info (pak ∷ paks) = names_loop-joined (with_pak full_name info pak) paks

is_empty-append_right : (s t : Bytes) → is_empty t ≡ false → is_empty (s ++ t) ≡ false
is_empty-append_right [] t h = h
is_empty-append_right (c ∷ s) t h = refl

abbrev texts : (Pack → Bytes) → List Pack → List Bytes
texts f paks = map f (keep is_public paks)

joined_loop-led :
    (f : Pack → Bytes) (info : Bytes) (paks : List Pack)
    → ((p : Pack) → is_empty (f p) ≡ false)
    → is_empty info ≡ false
    → joined_loop f info paks ≡ info ++ led (texts f paks)
unfolding joined_loop
joined_loop-led f info [] some_text h = sym (append-nil info)
joined_loop-led f info (pak ∷ paks) some_text h =
    elim (Bool-cases (fs_is_server_file pak.pak_basename)) [
      | inl server ↦ rw server (joined_loop-led f info paks some_text h)
      | inr other ↦
          let next = info ++ b' ' ∷ [] ++ f pak in
          rw (other, h)
            (joined_loop-led f next paks some_text
                (is_empty-append_right (info ++ b' ' ∷ []) (f pak) (some_text pak))
              ∙ append_assoc (info ++ b' ' ∷ []) (f pak) (led (texts f paks))
              ∙ append_assoc info (b' ' ∷ []) (f pak ++ led (texts f paks)))
    ]

joined_loop-spaced :
    (f : Pack → Bytes) (paks : List Pack)
    → ((p : Pack) → is_empty (f p) ≡ false)
    → joined_loop f [] paks ≡ spaced (texts f paks)
unfolding joined_loop
joined_loop-spaced f [] some_text = refl
joined_loop-spaced f (pak ∷ paks) some_text =
    elim (Bool-cases (fs_is_server_file pak.pak_basename)) [
      | inl server ↦ rw server (joined_loop-spaced f paks some_text)
      | inr other ↦ rw other (joined_loop-led f (f pak) paks some_text (some_text pak))
    ]

show_loop-is_empty :
    (left n : ℕ) (acc : Bytes) → is_empty acc ≡ false → is_empty (show_loop left n acc) ≡ false
unfolding show_loop
show_loop-is_empty zero n acc h = h
show_loop-is_empty (suc left) n acc h =
    ground (arith, show_loop-is_empty left (n / 10) ((b'0' + n % 10) ∷ acc))

show_int-is_empty : (n : ℤ) → is_empty (show_int n) ≡ false
unfolding show_int show_loop
show_int-is_empty (pos n) = ground (arith, show_loop-is_empty 9 (n / 10) ((b'0' + n % 10) ∷ []))
show_int-is_empty (negsuc n) = refl

-- `FS_ReferencedPakNames` and `FS_ReferencedPakChecksums` list the same paks in the same order, one
-- name for each checksum, with a space between any two: all paks but those of the server.
pub fs_referenced_paks-spaced :
    (paks : List Pack)
    → (fs_referenced_pak_names paks ≡ spaced (map full_name (keep is_public paks)))
      × (fs_referenced_pak_checksums paks
          ≡ spaced (map (λ p. show_int p.checksum) (keep is_public paks)))
unfolding fs_referenced_pak_names fs_referenced_pak_checksums
fs_referenced_paks-spaced paks = (
  names_loop-joined [] paks
      ∙ joined_loop-spaced full_name paks (λ p. is_empty-append_right p.pak_gamename _ refl),
  checksums_loop-joined [] paks
      ∙ joined_loop-spaced (λ p. show_int p.checksum) paks (λ p. show_int-is_empty p.checksum),
)
