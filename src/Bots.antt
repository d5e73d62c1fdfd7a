-- ===== src/Bots.antt =====
-- Bots: the script functions of src/gsc_bots.c, and `custom_SV_BotUserMove` of src/sv_main.c, which
-- makes a bot's command from what they left. The arguments that `Scr_GetInt` and `Scr_GetString` give
-- are arguments here; `SV_ClientThink`, of the game binary, gets the command.
pub mod Keys
pub mod Bodies
pub mod Told
pub mod Command
use codextended.Prelude.{
  ℕ, ◌-◌, ◌%◌, Bool, if◌then◌else◌, Option, none, some, ℤ, pos, negsuc, eqb_ℤ, to_schar, Bytes,
  codes, write, leb, not, List, [], ◌∷◌, ◌-ℤ◌,
}
use Prim.Native.Nat.{bit_and, bit_or}
use codextended.Net.{bytes_eq}

abbrev pub max_clients : ℕ
max_clients = 64

-- The fields of `customPlayerState_t` for bots. The buttons are sets of bits, and the moves `char`.
pub record BotState : Type 0 where
  pub buttons : ℕ
  pub wbuttons : ℕ
  pub weapon : ℤ
  pub forward : ℤ
  pub right : ℤ
  pub up : ℤ

-- What a call gives back to the script: `Scr_AddBool( qtrue )` or `Scr_AddUndefined()`, or an error
-- that ends the script.
pub data Answer : Type 0 where
  yes undefined script_error : Answer

-- `x |= m` and `x &= ~m` of an `int` that is not negative.
abbrev pub with_mask : ℕ → ℕ → ℕ
with_mask x m = bit_or x m

abbrev pub without_mask : ℕ → ℕ → ℕ
without_mask x m = bit_and x (4294967295 - m)

-- `botUpMove |= KEY_MASK_JUMP`: a negative value is the complement of `n`.
abbrev pub jump_up : ℤ → ℤ
jump_up (pos n) = pos (bit_or n 127)
jump_up (negsuc n) = negsuc (without_mask n 127)

abbrev pub key_fire : ℕ
key_fire = 0x1

abbrev pub key_ads_mode : ℕ
key_ads_mode = 0x10

abbrev pub key_melee : ℕ
key_melee = 0x20

abbrev pub key_reload : ℕ
key_reload = 0x8

abbrev pub key_lean_left : ℕ
key_lean_left = 0x10

abbrev pub key_lean_right : ℕ
key_lean_right = 0x20

abbrev pub key_prone : ℕ
key_prone = 0x40

abbrev pub key_crouch : ℕ
key_crouch = 0x80

-- The two tests that begin each function but the last, and the answer for an argument that is not
-- known. `is_bot` is the test for `NA_BOT`.
unfoldable pub guarded :
    (ℕ → Bool) → ℕ → (BotState → Option BotState) → (ℕ → BotState) → (ℕ → BotState) × Answer
guarded is_bot id change states =
    if leb max_clients id
    then (states, undefined)
    else if not (is_bot id)
    then (states, undefined)
    else elim (change (states id)) [
      | none ↦ (states, undefined)
      | some s ↦ (write states id s, yes)
    ]

-- `~( -KEY_MASK_JUMP | KEY_MASK_JUMP )` is 0.
unfoldable pub after_stance : Bytes → BotState → Option BotState
after_stance stance s =
    if bytes_eq stance (codes "stand")
    then some (record s { up = pos 0; wbuttons = without_mask s.wbuttons 0xc0 })
    else if bytes_eq stance (codes "crouch")
    then some (record s { wbuttons = with_mask s.wbuttons key_crouch })
    else if bytes_eq stance (codes "prone")
    then some (record s { wbuttons = with_mask s.wbuttons key_prone })
    else if bytes_eq stance (codes "jump")
    then some (record s { up = jump_up s.up })
    else none

-- A switch of one bit by an `int` argument.
abbrev pub switched : ℤ → ℕ → ℕ → ℕ
switched on m x = if eqb_ℤ on (pos 0) then without_mask x m else with_mask x m

unfoldable pub after_melee : ℤ → BotState → Option BotState
after_melee melee s = some (record s { buttons = switched melee key_melee s.buttons })

unfoldable pub after_aim : ℤ → BotState → Option BotState
after_aim ads s = some (record s { buttons = switched ads key_ads_mode s.buttons })

unfoldable pub after_fire : ℤ → BotState → Option BotState
after_fire shoot s = some (record s { buttons = switched shoot key_fire s.buttons })

unfoldable pub after_lean : Bytes → BotState → Option BotState
after_lean lean s =
    if bytes_eq lean (codes "none")
    then some (record s { wbuttons = without_mask s.wbuttons 0x30 })
    else if bytes_eq lean (codes "left")
    then some (record s { wbuttons = with_mask s.wbuttons key_lean_left })
    else if bytes_eq lean (codes "right")
    then some (record s { wbuttons = with_mask s.wbuttons key_lean_right })
    else none

unfoldable pub after_reload : ℤ → BotState → Option BotState
after_reload reload s = some (record s { wbuttons = switched reload key_reload s.wbuttons })

unfoldable pub after_weapon : ℤ → BotState → Option BotState
after_weapon weaponid s = some (record s { weapon = weaponid })

unfoldable pub after_walk : Bytes → BotState → Option BotState
after_walk dir s =
    if bytes_eq dir (codes "none")
    then some (record s { forward = pos 0; right = pos 0 })
    else if bytes_eq dir (codes "forward")
    then some (record s { forward = pos 127 })
    else if bytes_eq dir (codes "back")
    then some (record s { forward = negsuc 126 })
    else if bytes_eq dir (codes "right")
    then some (record s { right = pos 127 })
    else if bytes_eq dir (codes "left")
    then some (record s { right = negsuc 126 })
    else none

abbrev pub gsc_bots_setbotstance : (ℕ → Bool) → ℕ → Bytes → (ℕ → BotState) → (ℕ → BotState) × Answer
gsc_bots_setbotstance is_bot id stance = guarded is_bot id (after_stance stance)

abbrev pub gsc_bots_meleeweapon : (ℕ → Bool) → ℕ → ℤ → (ℕ → BotState) → (ℕ → BotState) × Answer
gsc_bots_meleeweapon is_bot id melee = guarded is_bot id (after_melee melee)

abbrev pub gsc_bots_setaim : (ℕ → Bool) → ℕ → ℤ → (ℕ → BotState) → (ℕ → BotState) × Answer
gsc_bots_setaim is_bot id ads = guarded is_bot id (after_aim ads)

abbrev pub gsc_bots_fireweapon : (ℕ → Bool) → ℕ → ℤ → (ℕ → BotState) → (ℕ → BotState) × Answer
gsc_bots_fireweapon is_bot id shoot = guarded is_bot id (after_fire shoot)

abbrev pub gsc_bots_setlean : (ℕ → Bool) → ℕ → Bytes → (ℕ → BotState) → (ℕ → BotState) × Answer
gsc_bots_setlean is_bot id lean = guarded is_bot id (after_lean lean)

abbrev pub gsc_bots_reloadweapon : (ℕ → Bool) → ℕ → ℤ → (ℕ → BotState) → (ℕ → BotState) × Answer
gsc_bots_reloadweapon is_bot id reload = guarded is_bot id (after_reload reload)

abbrev pub gsc_bots_switchtoweaponid : (ℕ → Bool) → ℕ → ℤ → (ℕ → BotState) → (ℕ → BotState) × Answer
gsc_bots_switchtoweaponid is_bot id weaponid = guarded is_bot id (after_weapon weaponid)

abbrev pub gsc_bots_setwalkdir : (ℕ → Bool) → ℕ → Bytes → (ℕ → BotState) → (ℕ → BotState) × Answer
gsc_bots_setwalkdir is_bot id dir = guarded is_bot id (after_walk dir)

-- There is no test here: `none` is a write behind the array.
unfoldable pub gsc_bots_setwalkvalues :
    ℕ → ℤ → ℤ → (ℕ → BotState) → Option ((ℕ → BotState) × Answer)
gsc_bots_setwalkvalues id fwcount rgcount states =
    let s = record (states id) { forward = to_schar fwcount; right = to_schar rgcount } in
    if leb max_clients id then none else some (write states id s, yes)

-- A call of one of the functions with its arguments.
pub data Call : Type 0 where
  set_bot_stance set_lean set_walk_dir : Bytes → Call
  melee_weapon set_aim fire_weapon reload_weapon switch_to_weapon_id : ℤ → Call
  set_walk_values : ℤ → ℤ → Call

unfoldable pub call_bot : (ℕ → Bool) → ℕ → Call → (ℕ → BotState) → Option ((ℕ → BotState) × Answer)
call_bot is_bot id (set_bot_stance v) states = some (gsc_bots_setbotstance is_bot id v states)
call_bot is_bot id (set_lean v) states = some (gsc_bots_setlean is_bot id v states)
call_bot is_bot id (set_walk_dir v) states = some (gsc_bots_setwalkdir is_bot id v states)
call_bot is_bot id (melee_weapon v) states = some (gsc_bots_meleeweapon is_bot id v states)
call_bot is_bot id (set_aim v) states = some (gsc_bots_setaim is_bot id v states)
call_bot is_bot id (fire_weapon v) states = some (gsc_bots_fireweapon is_bot id v states)
call_bot is_bot id (reload_weapon v) states = some (gsc_bots_reloadweapon is_bot id v states)
call_bot is_bot id (switch_to_weapon_id v) states =
    some (gsc_bots_switchtoweaponid is_bot id v states)
call_bot is_bot id (set_walk_values fw rg) states = gsc_bots_setwalkvalues id fw rg states

-- Calls one after the other; their answers are for the script.
unfoldable pub call_all : (ℕ → Bool) → List (ℕ × Call) → (ℕ → BotState) → Option (ℕ → BotState)
call_all is_bot [] states = some states
call_all is_bot ((id, call) ∷ calls) states = elim (call_bot is_bot id call states) [
  | none ↦ none
  | some r ↦ call_all is_bot calls r.0
]

-- The fields of `usercmd_t`; the buttons and the weapon are bytes.
pub record Usercmd : Type 0 where
  pub server_time : ℤ
  pub buttons : ℕ
  pub wbuttons : ℕ
  pub weapon : ℕ
  pub angles : ℤ × ℤ × ℤ
  pub forwardmove : ℤ
  pub rightmove : ℤ
  pub upmove : ℤ

-- `( byte )( x & 0xFF )`.
unfoldable pub byte_of : ℤ → ℕ
byte_of (pos n) = n % 256
byte_of (negsuc n) = 255 - n % 256

-- What the function reads elsewhere: `client->gentity`, `svs.time`, `ps->weapon`, and of
-- `ent->client`, if it is not NULL, `sess.archiveTime` and `sess.cmd.angles`.
pub record Entity : Type 0 where
  pub has_gentity : Bool
  pub time : ℤ
  pub weapon : ℤ
  pub session : Option (ℤ × (ℤ × ℤ × ℤ))

unfoldable pub empty_cmd : ℤ → ℕ → Usercmd
empty_cmd time weapon = record {
  server_time = time;
  buttons = 0;
  wbuttons = 0;
  weapon = weapon;
  angles = (pos 0, pos 0, pos 0);
  forwardmove = pos 0;
  rightmove = pos 0;
  upmove = pos 0;
}

-- The command, and the client's `deltaMessage`; `outgoing` is its `outgoingSequence`.
unfoldable pub custom_sv_bot_user_move : Entity → ℤ → BotState → Option (Usercmd × ℤ)
custom_sv_bot_user_move e outgoing s =
    let weapon = if eqb_ℤ s.weapon (pos 0) then byte_of e.weapon else byte_of s.weapon in
    let ucmd = empty_cmd e.time weapon in
    if not e.has_gentity then none else elim e.session [
      | none ↦ none
      | some (archive_time, angles) ↦ some (
        if eqb_ℤ archive_time (pos 0)
            then record ucmd {
              buttons = s.buttons % 256;
              wbuttons = s.wbuttons % 256;
              forwardmove = s.forward;
              rightmove = s.right;
              upmove = s.up;
              angles = angles;
            }
            else ucmd,
        outgoing -ℤ pos 1,
      )
    ]
