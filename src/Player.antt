-- ===== src/Player.antt =====
-- What scripts ask and set of a player, in src/scr_method_player.c: the keys that the last command
-- presses, perks, and the pings that others are told, with `SV_GetClientPing` of src/sv_main.c. A
-- client that `getclient` does not find is `none`; arguments of the script are arguments here.
pub mod Perks
use Prim.Native.Nat.{bit_and}
use codextended.Prelude.{
  ℕ, zero, suc, Bool, true, false, ◌==◌, ltb, leb, not, if◌then◌else◌, Option, none, some, List, [],
  ◌∷◌, ℤ, pos, negsuc, eqb_ℤ, ltb_ℤ, write, Bytes, codes,
}
use codextended.Net.{AdrType, na_bot, type_eq}
use codextended.Bots.{
  with_mask, without_mask, Usercmd, Answer, yes, undefined, script_error, byte_of, max_clients,
}

-- `x & m` of a byte or a `signed char`; the masks are below 256.
abbrev pub masked : ℤ → ℕ → ℕ
masked x m = bit_and (byte_of x) m

-- A test on the last command of a client; without a client it is false.
abbrev pub pressed : (Usercmd → Bool) → Option Usercmd → Bool
pressed test none = false
pressed test (some u) = test u

abbrev pub is_set : ℕ → Bool
is_set x = not (x == 0)

unfoldable pub forward_button_pressed : Option Usercmd → Bool
forward_button_pressed = pressed λ u. masked u.forwardmove 0x7f == 0x7f

unfoldable pub back_button_pressed : Option Usercmd → Bool
back_button_pressed = pressed λ u. masked u.forwardmove 0x81 == 0x81

unfoldable pub left_button_pressed : Option Usercmd → Bool
left_button_pressed = pressed λ u. masked u.rightmove 0x81 == 0x81

unfoldable pub right_button_pressed : Option Usercmd → Bool
right_button_pressed = pressed λ u. masked u.rightmove 0x7f == 0x7f

unfoldable pub moveup_button_pressed : Option Usercmd → Bool
moveup_button_pressed = pressed λ u. masked u.upmove 0x7f == 0x7f

unfoldable pub movedown_button_pressed : Option Usercmd → Bool
movedown_button_pressed = pressed λ u. masked u.upmove 0x81 == 0x81

unfoldable pub lean_left_button_pressed : Option Usercmd → Bool
lean_left_button_pressed = pressed λ u. is_set (bit_and u.wbuttons 0x10)

unfoldable pub lean_right_button_pressed : Option Usercmd → Bool
lean_right_button_pressed = pressed λ u. is_set (bit_and u.wbuttons 0x20)

unfoldable pub aim_button_pressed : Option Usercmd → Bool
aim_button_pressed = pressed λ u. is_set (bit_and u.buttons 0x10)

unfoldable pub reload_button_pressed : Option Usercmd → Bool
reload_button_pressed = pressed λ u. is_set (bit_and u.wbuttons 0x8)

abbrev pub max_perks : ℕ
max_perks = 16

-- The loop over `xscr_const.perks`, the numbers of the perks' names: `left` places to go from place
-- `i` on.
unfoldable pub perk_loop : ℕ → ℕ → (ℕ → ℕ) → ℕ → Option ℕ
perk_loop zero i names perk = none
perk_loop (suc left) i names perk =
    let rest = perk_loop left (suc i) names perk in if names i == perk then some i else rest

abbrev pub set_perk_to : Bool → Option ℕ → (ℕ → Bool) → ℕ → Bool
set_perk_to on none perks = perks
set_perk_to on (some i) perks = write perks i on

-- `names` are the numbers of the perks' names; `perks` those of the player.
unfoldable pub player_cmd_set_perk : (ℕ → ℕ) → ℕ → (ℕ → Bool) → ℕ → Bool
player_cmd_set_perk names perk perks = set_perk_to true (perk_loop max_perks 0 names perk) perks

unfoldable pub player_cmd_unset_perk : (ℕ → ℕ) → ℕ → (ℕ → Bool) → ℕ → Bool
player_cmd_unset_perk names perk perks = set_perk_to false (perk_loop max_perks 0 names perk) perks

-- What the script gets: true or, for a perk that is not set or not known, no value.
abbrev pub given : (ℕ → Bool) → Option ℕ → Option Bool
given perks none = none
given perks (some i) = if perks i then some true else none

unfoldable pub player_cmd_has_perk : (ℕ → ℕ) → ℕ → (ℕ → Bool) → Option Bool
player_cmd_has_perk names perk perks = given perks (perk_loop max_perks 0 names perk)

-- An argument of a script: its type, and its value if it is a number.
pub data Argument : Type 0 where
  undefined_value other_value : Argument
  int_value : ℤ → Argument

-- The fields of `customPlayerState_t` for pings.
pub record Pings : Type 0 where
  pub override_ping : Bool
  pub ping : ℤ
  pub override_status_ping : Bool
  pub status_ping : ℤ

-- The first argument; `none` is one of a wrong type.
unfoldable pub set_first : Argument → Pings → Option Pings
set_first undefined_value p = some (record p { override_ping = false; ping = pos 0 })
set_first (int_value v) p = some (record p { override_ping = true; ping = v })
set_first other_value p = none

-- The second argument, or the first once more. `Scr_GetInt` of a value that is no number does not
-- return: it ends the script with an error of the game binary.
unfoldable pub set_second : List Argument → Pings → Pings × Answer
set_second [] p = (p, undefined)
set_second (int_value v ∷ []) p = (record p { override_status_ping = true; status_ping = v }, yes)
set_second (undefined_value ∷ []) p = (record p { override_status_ping = true }, script_error)
set_second (other_value ∷ []) p = (record p { override_status_ping = true }, script_error)
set_second (x ∷ undefined_value ∷ args) p =
    (record p { override_status_ping = false; status_ping = pos 0 }, yes)
set_second (x ∷ int_value v ∷ args) p =
    (record p { override_status_ping = true; status_ping = v }, yes)
set_second (x ∷ other_value ∷ args) p = (p, undefined)

-- What stands after the first argument was taken.
abbrev pub set_rest : List Argument → Pings → Option Pings → Pings × Answer
set_rest args p none = (p, undefined)
set_rest args p (some q) = set_second args q

unfoldable pub set_pings : List Argument → Pings → Pings × Answer
set_pings [] p = (p, undefined)
set_pings (x ∷ args) p = set_rest (x ∷ args) p (set_first x p)

unfoldable pub gsc_player_setping : ℕ → List Argument → (ℕ → Pings) → (ℕ → Pings) × Answer
gsc_player_setping id args states =
    let (p, answer) = set_pings args (states id) in
    if leb max_clients id then (states, undefined) else (write states id p, answer)

-- `svs.clients[ i ].ping` is an argument.
unfoldable pub sv_get_client_ping : ℤ → Pings → ℤ
sv_get_client_ping client_ping p = if p.override_ping then p.ping else client_ping

unfoldable pub gsc_player_setspeed : ℕ → ℤ → (ℕ → ℤ) → (ℕ → ℤ) × Answer
gsc_player_setspeed id speed states =
    if leb max_clients id
    then (states, undefined)
    else if ltb_ℤ speed (pos 0)
    then (states, undefined)
    else (write states id speed, yes)

-- `cl->ping`, or 0 without a client.
unfoldable pub player_cmd_get_ping : Option ℤ → ℤ
player_cmd_get_ping none = pos 0
player_cmd_get_ping (some ping) = ping

-- `pure` is that of `xtnded_clients`; outside its places the script gets no value.
unfoldable pub player_cmd_ispure : ℤ → (ℕ → Bool) → Option Bool
player_cmd_ispure (negsuc n) pure = none
player_cmd_ispure (pos n) pure = if leb 64 n then none else some (pure n)

-- The type of the client's address, if there is a client.
unfoldable pub player_cmd_isbot : Option AdrType → Bool
player_cmd_isbot none = false
player_cmd_isbot (some type) = if type_eq type na_bot then true else false

-- A byte of the entity's flags.
unfoldable pub player_cmd_get_stance : ℕ → Bytes
player_cmd_get_stance value =
    if is_set (bit_and value 0x40)
    then codes "prone"
    else if is_set (bit_and value 0x20)
    then codes "crouch"
    else codes "stand"

-- `pm_flags` of the entity's client, if it has one; without one the script ends with an error.
unfoldable pub player_cmd_freeze_controls : Bool → Option ℕ → Option ℕ
player_cmd_freeze_controls freeze none = none
player_cmd_freeze_controls freeze (some pm_flags) =
    some (if freeze then with_mask pm_flags 0x4000 else without_mask pm_flags 0x4000)
