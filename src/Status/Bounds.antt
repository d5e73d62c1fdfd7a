-- ===== src/Status/Bounds.antt =====
-- The sizes of the answers to strangers.
use codextended.Prelude.{
  ◌+◌, ◌≤◌, ◌<◌, ◌≡◌, refl, ◌⊎◌, inl, inr, some, List, [], ◌∷◌, ◌++◌, arith, Bool-cases, leb,
  length, length-append, Bytes, ok, err, err_drop,
}
use codextended.Info.{max_info_string}
use codextended.Info.Limit.{info_set_value_for_key_total}
use codextended.Status.{max_msglen, set_all, Player, is_connected, player_line, status_loop}

-- However many pairs are set and whatever they hold, `Info_SetValueForKey` called again and again on
-- an info string of at most MAX_INFO_STRING bytes leaves such a string, or raises a drop error.
pub set_all-bounded :
    (pairs : List (Bytes × Bytes)) (s : Bytes)
    → length s ≤ max_info_string
    → ((t : Bytes) × (set_all s pairs ≡ ok (some t)) × (length t ≤ max_info_string))
      ⊎ (set_all s pairs ≡ err err_drop)
unfolding set_all
set_all-bounded [] s h = inl (s, refl, h)
set_all-bounded ((key, value) ∷ pairs) s h = elim (Bool-cases (leb max_info_string (length s))) [
  | inl full ↦
      inr (rw ((info_set_value_for_key_total max_info_string s key value).0 (ground arith)) refl)
  | inr room ↦
      let (t, e, b) = (info_set_value_for_key_total max_info_string s key value).1 (ground arith) in
      rw e (set_all-bounded pairs t b)
]

-- The list of players never outgrows its buffer of MAX_MSGLEN bytes with the closing zero.
pub status_loop-bounded :
    (players : List Player) (status : Bytes)
    → length status < max_msglen
    → length (status_loop status players) < max_msglen
unfolding status_loop
status_loop-bounded [] status h = h
status_loop-bounded (p ∷ ps) status h = elim (Bool-cases (is_connected p)) [
  | inr out ↦ rw out (status_loop-bounded ps status h)
  | inl here ↦
      rw here (elim (Bool-cases (leb max_msglen (length status + length (player_line p)))) [
        | inl full ↦ rw full h
        | inr fits ↦ rw fits (
            status_loop-bounded ps (status ++ player_line p)
              (ground (arith, length-append status (player_line p))))
      ])
]
