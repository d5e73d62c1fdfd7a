-- ===== src/Bots/Command.antt =====
-- The command that a bot sends, against what the scripts asked of it.
use codextended.Prelude.{
  ℕ, ◌%◌, ◌≡◌, refl, subst, Bool, true, some, List, ℤ, pos, eqb_ℤ, if◌then◌else◌, arith, inl, ◌-ℤ◌,
}
use codextended.Bits.{has_bit}
use codextended.Player.{
  aim_button_pressed, reload_button_pressed, lean_left_button_pressed, lean_right_button_pressed,
}
use codextended.Bots.{
  BotState, Call, Usercmd, Entity, empty_cmd, custom_sv_bot_user_move, byte_of, call_all,
}
use codextended.Bots.Keys.{fingers_of, pose_of, mask_aim, mask_lean_right, mask_reload}
use codextended.Bots.Bodies.{Controls, view, IsSound}
use codextended.Bots.Told.{told_all, call_all-Told}

-- The fields before any call.
abbrev pub at_rest : BotState
at_rest = record {
  buttons = 0;
  wbuttons = 0;
  weapon = pos 0;
  forward = pos 0;
  right = pos 0;
  up = pos 0;
}

-- The command presses the keys of `c`, as scripts see them where they can, and no others; a bot that
-- was given no weapon keeps its own.
pub record Shows (e : Entity) (c : Controls) (u : Usercmd) : Type 0 where
  pub fire : has_bit u.buttons 0 ≡ c.fingers.fire
  pub aim : aim_button_pressed (some u) ≡ c.fingers.aim
  pub melee : has_bit u.buttons 5 ≡ c.fingers.melee
  pub reload : reload_button_pressed (some u) ≡ c.pose.reload
  pub lean_left : lean_left_button_pressed (some u) ≡ c.pose.lean_left
  pub lean_right : lean_right_button_pressed (some u) ≡ c.pose.lean_right
  pub prone : has_bit u.wbuttons 6 ≡ c.pose.prone
  pub crouch : has_bit u.wbuttons 7 ≡ c.pose.crouch
  pub up : u.upmove ≡ c.up
  pub forward : u.forwardmove ≡ c.forward
  pub right : u.rightmove ≡ c.right
  pub weapon : u.weapon ≡ (if eqb_ℤ c.weapon (pos 0) then byte_of e.weapon else byte_of c.weapon)

-- The command of a bot that is not in a replay.
abbrev pub command_of : Entity → (ℤ × ℤ × ℤ) → BotState → Usercmd
command_of e angles s = record {
  server_time = e.time;
  buttons = s.buttons % 256;
  wbuttons = s.wbuttons % 256;
  weapon = if eqb_ℤ s.weapon (pos 0) then byte_of e.weapon else byte_of s.weapon;
  angles = angles;
  forwardmove = s.forward;
  rightmove = s.right;
  upmove = s.up;
}

user_move-sent :
    (e : Entity) (outgoing : ℤ) (angles : ℤ × ℤ × ℤ) (s : BotState)
    → e.has_gentity ≡ true
    → e.session ≡ some (pos 0, angles)
    → custom_sv_bot_user_move e outgoing s ≡ some (command_of e angles s, outgoing -ℤ pos 1)
unfolding custom_sv_bot_user_move empty_cmd
user_move-sent e outgoing angles s g p = rw (g, p) refl

command_of-Shows :
    (e : Entity) (angles : ℤ × ℤ × ℤ) (s : BotState)
    → IsSound s
    → Shows e (view s) (command_of e angles s)
unfolding view fingers_of pose_of aim_button_pressed reload_button_pressed lean_left_button_pressed
    lean_right_button_pressed
command_of-Shows e angles s h =
    let b : s.buttons % 256 ≡ s.buttons = omega (arith, h.buttons) in
    let w : s.wbuttons % 256 ≡ s.wbuttons = omega (arith, h.wbuttons) in
    record {
      fire = rw b refl;
      aim = rw b (mask_aim s.buttons h.buttons);
      melee = rw b refl;
      reload = rw w (mask_reload s.wbuttons h.wbuttons);
      lean_left = rw w (mask_aim s.wbuttons h.wbuttons);
      lean_right = rw w (mask_lean_right s.wbuttons h.wbuttons);
      prone = rw w refl;
      crouch = rw w refl;
      up = refl;
      forward = refl;
      right = refl;
      weapon = refl;
    }

at_rest-IsSound : IsSound at_rest
at_rest-IsSound = record { buttons = omega arith; wbuttons = omega arith; up = inl refl }

-- Whatever calls scripts make, for whatever entities and in whatever order, as long as no
-- `setWalkValues` writes behind the array: a bot that has an entity and is not in a replay sends a
-- command, and the command presses the keys that the calls for this bot asked for, and no others,
-- walks where they said, and takes the weapon that they named.
pub custom_sv_bot_user_move-Shows :
    (is_bot : ℕ → Bool) (calls : List (ℕ × Call)) (states : ℕ → BotState) (i : ℕ) (e : Entity)
    (outgoing : ℤ) (angles : ℤ × ℤ × ℤ)
    → call_all is_bot calls (λ j. at_rest) ≡ some states
    → e.has_gentity ≡ true
    → e.session ≡ some (pos 0, angles)
    → (u : Usercmd) × (custom_sv_bot_user_move e outgoing (states i) ≡ some (u, outgoing -ℤ pos 1))
      × Shows e (told_all is_bot i calls (view at_rest)) u
custom_sv_bot_user_move-Shows is_bot calls states i e outgoing angles c g p =
    let (sound, q) = call_all-Told is_bot i calls (λ j. at_rest) states at_rest-IsSound c in
    (
      command_of e angles (states i),
      user_move-sent e outgoing angles (states i) g p,
      subst (λ k. Shows e k (command_of e angles (states i))) q
          (command_of-Shows e angles (states i) sound),
    )
