-- ===== src/Command/Say.antt =====
-- What players say: `hG_Say` of src/sv_client.c and `G_SayTo` of src/x_clientcmds.c. The callback of
-- scripts, `OnSameTeam` and `G_Say` are code outside; their answers are arguments.
use codextended.Prelude.{
  Bool, not, ◌&&◌, ◌||◌, List, [], ◌∷◌, ◌++◌, if◌then◌else◌, leb, take, keep, Bytes, Option, none,
  some, eqb_ℤ, ℤ, pos,
}

-- The loop over the first 1023 bytes of the message.
unfoldable pub chat_line : Bytes → Bytes
chat_line msg = keep (λ c. leb 32 c && leb c 126) (take 1023 msg)

pub data Said : Type 0 where
  called said : Bytes → Said

-- `has_callback` is `callbackPlayerCommand`, `continues` the answer of `Scr_Continue`, `dead` the
-- field of the game's client, and `dead_chat` the value of `x_deadchat`.
unfoldable pub hg_say : Bool → Bool → Bool → Bool → Bytes → List Said
hg_say has_callback continues dead dead_chat msg =
    let line = chat_line msg in
    let call = if has_callback then called line ∷ [] else [] in
    if not continues then call else if dead && not dead_chat then call else call ++ said line ∷ []

-- What `G_SayTo` reads of the one who hears: that the entity is in use, and of its client, if it has
-- one, whether it is connected and whether it is dead.
pub record Hearer : Type 0 where
  pub in_use : Bool
  pub connected : Option Bool
  pub dead : Bool

-- Whether the text is sent on. `mode` 1 is to the own team; `same_team` is the answer of
-- `OnSameTeam`.
unfoldable pub g_say_to : ℤ → Bool → Bool → Bool → Option Hearer → Bool
g_say_to dead_chat speaker_dead team_only same_team none = Bool.false
g_say_to dead_chat speaker_dead team_only same_team (some other) =
    other.in_use && elim other.connected [
      | none ↦ Bool.false
      | some connected ↦
          (connected || eqb_ℤ dead_chat (pos 1))
          && (not team_only || same_team)
          && (not speaker_dead || other.dead)
    ]
