-- ===== src/Bots/Bodies.antt =====
-- What the script functions ask of a bot: a description of the keys without bits, and what the body
-- of each function does to it.
use codextended.Prelude.{
  ℕ, ◌≡◌, ◌⊎◌, ◌<◌, inl, inr, refl, Bool, true, false, not, if◌then◌else◌, Bool-cases, Option, none,
  some, ℤ, pos, negsuc, eqb_ℤ, to_schar, Bytes, codes,
}
use codextended.Net.{bytes_eq}
use codextended.Bots.{
  BotState, Call, set_bot_stance, set_lean, set_walk_dir, melee_weapon, set_aim, fire_weapon,
  reload_weapon, switch_to_weapon_id, set_walk_values, jump_up, without_mask, after_stance,
  after_lean, after_walk, after_melee, after_aim, after_fire, after_reload, after_weapon,
}
use codextended.Bots.Keys.{
  Fingers, Pose, fingers_of, pose_of, switch_fire, switch_aim, switch_melee, switch_reload,
  lean_left_set, lean_right_set, lean_cleared, prone_set, crouch_set, stood_up,
}

-- The keys that a bot holds down, where it walks, and the weapon that it takes (0 for none).
pub record Controls : Type 0 where
  pub fingers : Fingers
  pub pose : Pose
  pub up : ℤ
  pub forward : ℤ
  pub right : ℤ
  pub weapon : ℤ

unfoldable pub stand_as : Bytes → Controls → Controls
stand_as stance c =
    if bytes_eq stance (codes "stand")
    then record c { up = pos 0; pose = record c.pose { prone = false; crouch = false } }
    else if bytes_eq stance (codes "crouch")
    then record c { pose = record c.pose { crouch = true } }
    else if bytes_eq stance (codes "prone")
    then record c { pose = record c.pose { prone = true } }
    else if bytes_eq stance (codes "jump")
    then record c { up = pos 127 }
    else c

unfoldable pub lean_to : Bytes → Controls → Controls
lean_to lean c =
    if bytes_eq lean (codes "none")
    then record c { pose = record c.pose { lean_left = false; lean_right = false } }
    else if bytes_eq lean (codes "left")
    then record c { pose = record c.pose { lean_left = true } }
    else if bytes_eq lean (codes "right")
    then record c { pose = record c.pose { lean_right = true } }
    else c

unfoldable pub walk_to : Bytes → Controls → Controls
walk_to dir c =
    if bytes_eq dir (codes "none")
    then record c { forward = pos 0; right = pos 0 }
    else if bytes_eq dir (codes "forward")
    then record c { forward = pos 127 }
    else if bytes_eq dir (codes "back")
    then record c { forward = negsuc 126 }
    else if bytes_eq dir (codes "right")
    then record c { right = pos 127 }
    else if bytes_eq dir (codes "left")
    then record c { right = negsuc 126 }
    else c

abbrev pub is_on : ℤ → Bool
is_on v = not (eqb_ℤ v (pos 0))

-- What a call asks for.
unfoldable pub told : Call → Controls → Controls
told (set_bot_stance stance) c = stand_as stance c
told (set_lean lean) c = lean_to lean c
told (set_walk_dir dir) c = walk_to dir c
told (melee_weapon v) c = record c { fingers = record c.fingers { melee = is_on v } }
told (set_aim v) c = record c { fingers = record c.fingers { aim = is_on v } }
told (fire_weapon v) c = record c { fingers = record c.fingers { fire = is_on v } }
told (reload_weapon v) c = record c { pose = record c.pose { reload = is_on v } }
told (switch_to_weapon_id v) c = record c { weapon = v }
told (set_walk_values fw rg) c = record c { forward = to_schar fw; right = to_schar rg }

unfoldable pub view : BotState → Controls
view s = record {
  fingers = fingers_of s.buttons;
  pose = pose_of s.wbuttons;
  up = s.up;
  forward = s.forward;
  right = s.right;
  weapon = s.weapon;
}

-- The buttons fit in a byte, and the bot jumps or does not.
pub record IsSound (s : BotState) : Type 0 where
  pub buttons : s.buttons < 256
  pub wbuttons : s.wbuttons < 256
  pub up : (s.up ≡ pos 0) ⊎ (s.up ≡ pos 127)

-- What became of a bot's fields is sound, and is what `c` describes.
abbrev pub Holds : BotState → Controls → Type 0
Holds s c = IsSound s × (view s ≡ c)

-- A change of the buttons, of the other buttons, and of the rest.
with_fingers :
    (s : BotState) (x : ℕ) (k : Fingers)
    → IsSound s
    → (x < 256) × (fingers_of x ≡ k)
    → Holds (record s { buttons = x }) (record (view s) { fingers = k })
unfolding view
with_fingers s x k h (lt, e) = (
  record { buttons = lt; wbuttons = h.wbuttons; up = h.up },
  λ i. record (view s) { fingers = e i },
)

with_pose :
    (s : BotState) (x : ℕ) (k : Pose)
    → IsSound s
    → (x < 256) × (pose_of x ≡ k)
    → Holds (record s { wbuttons = x }) (record (view s) { pose = k })
unfolding view
with_pose s x k h (lt, e) =
    (record { buttons = h.buttons; wbuttons = lt; up = h.up }, λ i. record (view s) { pose = e i })

with_weapon :
    (s : BotState) (v : ℤ)
    → IsSound s
    → Holds (record s { weapon = v }) (record (view s) { weapon = v })
unfolding view
with_weapon s v h = (record { buttons = h.buttons; wbuttons = h.wbuttons; up = h.up }, refl)

pub with_walk :
    (s : BotState) (f r : ℤ)
    → IsSound s
    → Holds (record s { forward = f; right = r }) (record (view s) { forward = f; right = r })
unfolding view
with_walk s f r h = (record { buttons = h.buttons; wbuttons = h.wbuttons; up = h.up }, refl)

jump_up_full : (x : ℤ) → (x ≡ pos 0) ⊎ (x ≡ pos 127) → jump_up x ≡ pos 127
jump_up_full x (inl e) = rw e refl
jump_up_full x (inr e) = rw e refl

abbrev pub kept : BotState → Option BotState → BotState
kept s none = s
kept s (some t) = t

pub same_as : (s : BotState) → IsSound s → Holds s (view s)
same_as s h = (h, refl)

stood :
    (s : BotState)
    → IsSound s
    → Holds
        (record s { up = pos 0; wbuttons = without_mask s.wbuttons 0xc0 })
        (record (view s) {
          up = pos 0;
          pose = record (view s).pose { prone = false; crouch = false };
        })
unfolding view
stood s h =
    let (lt, e) = stood_up s.wbuttons h.wbuttons in
    (
      record { buttons = h.buttons; wbuttons = lt; up = inl refl },
      λ i. record (view s) { up = pos 0; pose = e i },
    )

jumped :
    (s : BotState)
    → IsSound s
    → Holds (record s { up = jump_up s.up }) (record (view s) { up = pos 127 })
unfolding view
jumped s h =
    let e = jump_up_full s.up h.up in
    (
      record { buttons = h.buttons; wbuttons = h.wbuttons; up = inr e },
      λ i. record (view s) { up = e i },
    )

pub stance-Told :
    (stance : Bytes) (s : BotState)
    → IsSound s
    → Holds (kept s (after_stance stance s)) (stand_as stance (view s))
unfolding after_stance stand_as view pose_of
stance-Told stance s h = elim (Bool-cases (bytes_eq stance (codes "stand"))) [
  | inl e ↦ rw e (stood s h)
  | inr n ↦ rw n (elim (Bool-cases (bytes_eq stance (codes "crouch"))) [
    | inl e ↦ rw e (with_pose s _ _ h (crouch_set s.wbuttons h.wbuttons))
    | inr n1 ↦ rw n1 (elim (Bool-cases (bytes_eq stance (codes "prone"))) [
      | inl e ↦ rw e (with_pose s _ _ h (prone_set s.wbuttons h.wbuttons))
      | inr n2 ↦ rw n2 (elim (Bool-cases (bytes_eq stance (codes "jump"))) [
        | inl e ↦ rw e (jumped s h)
        | inr n3 ↦ rw n3 (same_as s h)
      ])
    ])
  ])
]

pub lean-Told :
    (lean : Bytes) (s : BotState)
    → IsSound s
    → Holds (kept s (after_lean lean s)) (lean_to lean (view s))
unfolding after_lean lean_to view pose_of
lean-Told lean s h = elim (Bool-cases (bytes_eq lean (codes "none"))) [
  | inl e ↦ rw e (with_pose s _ _ h (lean_cleared s.wbuttons h.wbuttons))
  | inr n ↦ rw n (elim (Bool-cases (bytes_eq lean (codes "left"))) [
    | inl e ↦ rw e (with_pose s _ _ h (lean_left_set s.wbuttons h.wbuttons))
    | inr n1 ↦ rw n1 (elim (Bool-cases (bytes_eq lean (codes "right"))) [
      | inl e ↦ rw e (with_pose s _ _ h (lean_right_set s.wbuttons h.wbuttons))
      | inr n2 ↦ rw n2 (same_as s h)
    ])
  ])
]

pub walk-Told :
    (dir : Bytes) (s : BotState)
    → IsSound s
    → Holds (kept s (after_walk dir s)) (walk_to dir (view s))
unfolding after_walk walk_to view
walk-Told dir s h = elim (Bool-cases (bytes_eq dir (codes "none"))) [
  | inl e ↦ rw e (with_walk s (pos 0) (pos 0) h)
  | inr n ↦ rw n (elim (Bool-cases (bytes_eq dir (codes "forward"))) [
    | inl e ↦ rw e (with_walk s (pos 127) s.right h)
    | inr n1 ↦ rw n1 (elim (Bool-cases (bytes_eq dir (codes "back"))) [
      | inl e ↦ rw e (with_walk s (negsuc 126) s.right h)
      | inr n2 ↦ rw n2 (elim (Bool-cases (bytes_eq dir (codes "right"))) [
        | inl e ↦ rw e (with_walk s s.forward (pos 127) h)
        | inr n3 ↦ rw n3 (elim (Bool-cases (bytes_eq dir (codes "left"))) [
          | inl e ↦ rw e (with_walk s s.forward (negsuc 126) h)
          | inr n4 ↦ rw n4 (same_as s h)
        ])
      ])
    ])
  ])
]

pub melee-Told :
    (v : ℤ) (s : BotState)
    → IsSound s
    → Holds (kept s (after_melee v s)) (told (melee_weapon v) (view s))
unfolding after_melee told view fingers_of
melee-Told v s h = with_fingers s _ _ h (switch_melee v s.buttons h.buttons)

pub aim-Told :
    (v : ℤ) (s : BotState) → IsSound s → Holds (kept s (after_aim v s)) (told (set_aim v) (view s))
unfolding after_aim told view fingers_of
aim-Told v s h = with_fingers s _ _ h (switch_aim v s.buttons h.buttons)

pub fire-Told :
    (v : ℤ) (s : BotState)
    → IsSound s
    → Holds (kept s (after_fire v s)) (told (fire_weapon v) (view s))
unfolding after_fire told view fingers_of
fire-Told v s h = with_fingers s _ _ h (switch_fire v s.buttons h.buttons)

pub reload-Told :
    (v : ℤ) (s : BotState)
    → IsSound s
    → Holds (kept s (after_reload v s)) (told (reload_weapon v) (view s))
unfolding after_reload told view pose_of
reload-Told v s h = with_pose s _ _ h (switch_reload v s.wbuttons h.wbuttons)

pub weapon-Told :
    (v : ℤ) (s : BotState)
    → IsSound s
    → Holds (kept s (after_weapon v s)) (told (switch_to_weapon_id v) (view s))
unfolding after_weapon told view
weapon-Told v s h = with_weapon s v h
