-- ===== src/Examples/TextAt.antt =====
-- Texts, bits, files and heartbeats at concrete inputs.
use codextended.Localized.{Indices, x_localized_string_index, localized_loop, add_found}
use codextended.Localized.Again.{x_localized_string_index-again}
use codextended.Net.{bytes_eq}
use codextended.Prelude.{
  ℕ, ◌+◌, ◌*◌, ◌≡◌, refl, ◌⊎◌, true, false, not, ◌||◌, none, List, [], ◌∷◌, codes, arith, ok, pos,
  keep, length, is_empty, map,
}
use codextended.Strings.Search.{
  strstr, str_replace, null, text, count_of, place_of, count_loop, replace_loop, starts_with,
}
use codextended.Strings.Search.Replace.{scanned, str_replace-scanned}
use codextended.ScriptStrings.{is_delim, scr_str_tok, tokens_loop, skip_delims, token, scr_trim}
use codextended.ScriptStrings.Tokens.{solid, pieces, scr_str_tok-pieces}
use codextended.Files.{Pack, full_name, fs_referenced_pak_names, fs_referenced_pak_checksums}
use codextended.Files.Joined.{spaced, is_public, fs_referenced_paks-spaced}
use codextended.Status.{show_int}
use codextended.Heartbeat.{Env, Beats, heartbeat_msec, sv_master_heart_beat, masters_loop}
use codextended.Heartbeat.Spacing.{beats}
use codextended.Format.{Va, va, va_all, read_at}
use codextended.Format.Intact.{va-intact}

str_replace-scanned_example :
    ((is_empty (codes "an") || not (strstr (codes "banana") (codes "an")) ≡ true)
      × (str_replace (codes "banana") (codes "an") (codes "o") ≡ null))
    ⊎ ((is_empty (codes "an") || not (strstr (codes "banana") (codes "an")) ≡ false)
        × (str_replace (codes "banana") (codes "an") (codes "o")
            ≡ text (scanned 0 (codes "banana") (codes "an") (codes "o")))
        × (length (scanned 0 (codes "banana") (codes "an") (codes "o"))
              + count_of (codes "banana") (codes "an") * 2
            ≡ 6 + count_of (codes "banana") (codes "an") * 1))
str_replace-scanned_example = str_replace-scanned (codes "banana") (codes "an") (codes "o")

replaces : str_replace (codes "banana") (codes "an") (codes "o") ≡ text (codes "booa")
unfolding str_replace strstr count_of place_of count_loop replace_loop starts_with
replaces = refl

scr_str_tok-pieces_example :
    scr_str_tok (codes ";a;;bc") (codes ";") ≡ solid (pieces (codes ";") (codes ";a;;bc"))
scr_str_tok-pieces_example = scr_str_tok-pieces (codes ";a;;bc") (codes ";")

tokenizes : scr_str_tok (codes ";a;;bc") (codes ";") ≡ codes "a" ∷ codes "bc" ∷ []
unfolding scr_str_tok tokens_loop skip_delims token is_delim
tokenizes = refl

-- "trim" takes out the blank between the words too.
trims : scr_trim (codes " two words ") ≡ codes "twowords"
unfolding scr_trim is_delim
trims = refl

abbrev paks : List Pack
paks =
    record { pak_basename = codes "maps"; pak_gamename = codes "main"; checksum = pos 17 }
    ∷ record { pak_basename = codes "svr_mod"; pak_gamename = codes "main"; checksum = pos 5 }
    ∷ []

fs_referenced_paks-spaced_example :
    (fs_referenced_pak_names paks ≡ spaced (map full_name (keep is_public paks)))
    × (fs_referenced_pak_checksums paks
        ≡ spaced (map (λ p. show_int p.checksum) (keep is_public paks)))
fs_referenced_paks-spaced_example = fs_referenced_paks-spaced paks

abbrev env : Env
env = record { heartbeat_time = 1000; dedicated = 2; build = 20; string_to_adr = λ s. none }

abbrev at_start : Beats
at_start = record { next = pos 0; masters = [] }

-- The call at 17000 is too early.
two_beats : beats env (codes "COD-2") (5 ∷ 17000 ∷ 18005 ∷ []) at_start ≡ 5 ∷ 18005 ∷ []
unfolding beats sv_master_heart_beat heartbeat_msec masters_loop
two_beats = refl

abbrev blank : Va
blank = record { string = λ i. 0; index = 31990 }

va-intact_example :
    (buf : ℕ) × (st' : Va) × (last : Va) × (va (codes "first") blank ≡ ok (buf, st'))
    × (va_all (codes "second one" ∷ codes "third" ∷ []) st' ≡ ok last)
    × (read_at 5 buf last.string ≡ codes "first")
va-intact_example =
    va-intact (codes "first") (codes "second one" ∷ codes "third" ∷ []) blank (omega arith)

-- The server's strings at the start.
abbrev no_strings : Indices
no_strings = record { configstrings = λ i. []; localized = 128; model = 1 }

x_localized_string_index-again_example :
    (x_localized_string_index (codes "hi") (x_localized_string_index (codes "hi") no_strings).1).0
    ≡ (x_localized_string_index (codes "hi") no_strings).0
x_localized_string_index-again_example =
    x_localized_string_index-again (codes "hi") no_strings (omega arith) (omega arith) (omega arith)

-- With the counter at 0 and all places taken, the string comes to stand where it is not found.
the_zeroth :
    (x_localized_string_index
      (codes "hi")
      (record { configstrings = λ i. codes "x"; localized = 0; model = 1 })).0
    ≡ 0
unfolding x_localized_string_index localized_loop add_found bytes_eq
the_zeroth = refl
