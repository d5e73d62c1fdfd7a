-- ===== src/Spawns.antt =====
-- `G_CallSpawnEntity` of src/g_spawn.c. The game's items and its table of spawn functions are code of
-- the game library: their names are arguments. Names are compared with `strcmp`.
use codextended.Prelude.{
  Bool, true, false, Option, none, some, List, [], ◌∷◌, if◌then◌else◌, Bytes, codes,
}
use codextended.Net.{bytes_eq}

abbrev pub custom_spawns : List Bytes
custom_spawns = codes "misc_portal_camera" ∷ codes "misc_portal_surface" ∷ []

-- What is called for the entity.
pub data Spawn : Type 0 where
  item game custom : Bytes → Spawn

unfoldable pub has_name : Bytes → List Bytes → Bool
has_name classname [] = false
has_name classname (name ∷ names) =
    let rest = has_name classname names in if bytes_eq name classname then true else rest

unfoldable pub spawn_of : List Bytes → List Bytes → Bytes → Option Spawn
spawn_of items spawns classname =
    if has_name classname items
    then some (item classname)
    else if has_name classname spawns
    then some (game classname)
    else if has_name classname custom_spawns
    then some (custom classname)
    else none

-- The result is 1 when something is called.
unfoldable pub g_call_spawn_entity : List Bytes → List Bytes → Option Bytes → Option Spawn
g_call_spawn_entity items spawns none = none
g_call_spawn_entity items spawns (some classname) = spawn_of items spawns classname
