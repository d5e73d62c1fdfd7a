-- ===== src/Examples/BotsAt.antt =====
-- Bots, keys, perks and pings at concrete inputs.
use codextended.Prelude.{
  ℕ, ◌+◌, ◌≡◌, refl, Bool, true, false, ◌==◌, none, some, List, [], ◌∷◌, pos, negsuc, ◌-ℤ◌, codes,
  write,
}
use codextended.Net.{bytes_eq}
use codextended.Bots.{
  BotState, Call, set_bot_stance, set_lean, set_walk_dir, set_aim, set_walk_values,
  switch_to_weapon_id, Usercmd, Entity, custom_sv_bot_user_move, call_bot, call_all, script_error,
}
use codextended.Bots.{
  guarded, after_stance, after_lean, after_walk, after_weapon, after_aim, gsc_bots_setwalkvalues,
}
use codextended.Bots.Bodies.{view}
use codextended.Bots.Told.{told_all}
use codextended.Bots.Command.{at_rest, Shows, custom_sv_bot_user_move-Shows}
use codextended.Player.{Pings, undefined_value, set_pings, set_first, set_second}

abbrev is_bot : ℕ → Bool
is_bot id = id == 3

-- The call for the player 4 changes nothing.
abbrev calls : List (ℕ × Call)
calls =
    (3, set_bot_stance (codes "crouch"))
    ∷ (3, set_lean (codes "left"))
    ∷ (4, set_aim (pos 1))
    ∷ (3, set_walk_dir (codes "back"))
    ∷ (3, switch_to_weapon_id (pos 7))
    ∷ []

-- The bot's fields after each of the calls for it.
abbrev crouched : BotState
crouched = record at_rest { wbuttons = 0x80 }

abbrev leaning : BotState
leaning = record at_rest { wbuttons = 0x90 }

abbrev walking : BotState
walking = record leaning { forward = negsuc 126 }

abbrev armed : BotState
armed = record walking { weapon = pos 7 }

abbrev after : ℕ → BotState
after = write (write (write (write (λ i. at_rest) 3 crouched) 3 leaning) 3 walking) 3 armed

after_calls : call_all is_bot calls (λ i. at_rest) ≡ some after
unfolding call_all call_bot guarded bytes_eq after_stance after_lean after_walk after_weapon
    after_aim
after_calls = refl

abbrev entity : Entity
entity = record {
  has_gentity = true;
  time = pos 500;
  weapon = pos 2;
  session = some (pos 0, (pos 1, pos 2, pos 3));
}

-- A bot that crouches and then lies down holds both keys.
both_stances : after_stance (codes "prone") crouched ≡ some (record at_rest { wbuttons = 0xc0 })
unfolding after_stance bytes_eq
both_stances = refl

-- `setWalkValues` for an entity behind the array.
behind_array : call_bot is_bot 64 (set_walk_values (pos 1) (pos 1)) (λ i. at_rest) ≡ none
unfolding call_bot gsc_bots_setwalkvalues
behind_array = refl

custom_sv_bot_user_move-Shows_example :
    (u : Usercmd) × (custom_sv_bot_user_move entity (pos 9) (after 3) ≡ some (u, pos 9 -ℤ pos 1))
    × Shows entity (told_all is_bot 3 calls (view at_rest)) u
custom_sv_bot_user_move-Shows_example =
    custom_sv_bot_user_move-Shows is_bot calls after 3 entity (pos 9) (pos 1, pos 2, pos 3)
      after_calls refl refl

abbrev names : ℕ → ℕ
names i = 100 + i

abbrev no_pings : Pings
no_pings = record {
  override_ping = false;
  ping = pos 0;
  override_status_ping = false;
  status_ping = pos 0;
}

-- `setping( undefined )` with one argument ends the script, with the status ping overridden.
undefined_ping :
    set_pings (undefined_value ∷ []) no_pings
    ≡ (record no_pings { override_status_ping = true }, script_error)
unfolding set_pings set_first set_second
undefined_ping = refl
