-- ===== src/Bots/Keys.antt =====
-- The bits of a bot's buttons as keys. The buttons stay below 256, so that each fact about them is
-- a table of 256 rows.
use codextended.Prelude.{
  ℕ, zero, suc, ◌≡◌, ◌<◌, refl, ◌==◌, ltb, Bool, true, false, not, ◌&&◌, arith, ℤ, pos, eqb_ℤ,
  Bool-cases, inl, inr,
}
use Prim.Native.Nat.{bit_and}
use codextended.Bits.{has_bit}
use codextended.Bots.{with_mask, without_mask, switched}

-- The keys of `buttons` and of `wbuttons`.
pub record Fingers : Type 0 where
  pub fire : Bool
  pub aim : Bool
  pub melee : Bool

pub record Pose : Type 0 where
  pub reload : Bool
  pub lean_left : Bool
  pub lean_right : Bool
  pub prone : Bool
  pub crouch : Bool

unfoldable pub fingers_of : ℕ → Fingers
fingers_of x = record { fire = has_bit x 0; aim = has_bit x 4; melee = has_bit x 5 }

unfoldable pub pose_of : ℕ → Pose
pose_of x = record {
  reload = has_bit x 3;
  lean_left = has_bit x 4;
  lean_right = has_bit x 5;
  prone = has_bit x 6;
  crouch = has_bit x 7;
}

unfoldable same_bool : Bool → Bool → Bool
same_bool true b = b
same_bool false b = not b

same_bool_sound : (a b : Bool) → same_bool a b ≡ true → a ≡ b
unfolding same_bool
same_bool_sound true true h = refl
same_bool_sound true false h = ground arith
same_bool_sound false true h = ground arith
same_bool_sound false false h = refl

and-true : (a b : Bool) → (a && b) ≡ true → (a ≡ true) × (b ≡ true)
and-true true true h = (refl, refl)
and-true true false h = absurd (ground arith)
and-true false b h = absurd (ground arith)

unfoldable same_fingers : Fingers → Fingers → Bool
same_fingers a b = same_bool a.fire b.fire && (same_bool a.aim b.aim && same_bool a.melee b.melee)

unfoldable same_pose : Pose → Pose → Bool
same_pose a b =
    same_bool a.reload b.reload
    && (same_bool a.lean_left b.lean_left
        && (same_bool a.lean_right b.lean_right
            && (same_bool a.prone b.prone && same_bool a.crouch b.crouch)))

same_fingers_sound : (a b : Fingers) → same_fingers a b ≡ true → a ≡ b
unfolding same_fingers
same_fingers_sound a b h =
    let (p, h1) = and-true _ _ h in
    let (q, r) = and-true _ _ h1 in
    λ i. record {
      fire = same_bool_sound a.fire b.fire p i;
      aim = same_bool_sound a.aim b.aim q i;
      melee = same_bool_sound a.melee b.melee r i;
    }

same_pose_sound : (a b : Pose) → same_pose a b ≡ true → a ≡ b
unfolding same_pose
same_pose_sound a b h =
    let (p, h1) = and-true _ _ h in
    let (q, h2) = and-true _ _ h1 in
    let (r, h3) = and-true _ _ h2 in
    let (s, t) = and-true _ _ h3 in
    λ i. record {
      reload = same_bool_sound a.reload b.reload p i;
      lean_left = same_bool_sound a.lean_left b.lean_left q i;
      lean_right = same_bool_sound a.lean_right b.lean_right r i;
      prone = same_bool_sound a.prone b.prone s i;
      crouch = same_bool_sound a.crouch b.crouch t i;
    }

unfoldable all_below : ℕ → (ℕ → Bool) → Bool
all_below zero test = true
all_below (suc n) test = test n && all_below n test

all_below_sound :
    (n : ℕ) (test : ℕ → Bool) (x : ℕ) → x < n → all_below n test ≡ true → test x ≡ true
unfolding all_below
all_below_sound zero test x lt h = absurd (omega arith)
all_below_sound (suc n) test x lt h = ground (arith, all_below_sound n test x)

-- What an operation on a byte does to its keys: it stays a byte, and the keys change by `g`.
unfoldable fingers_table : (ℕ → ℕ) → (Fingers → Fingers) → Bool
fingers_table f g =
    all_below 256 λ x. ltb (f x) 256 && same_fingers (fingers_of (f x)) (g (fingers_of x))

unfoldable pose_table : (ℕ → ℕ) → (Pose → Pose) → Bool
pose_table f g = all_below 256 λ x. ltb (f x) 256 && same_pose (pose_of (f x)) (g (pose_of x))

fingers_table_sound :
    (f : ℕ → ℕ) (g : Fingers → Fingers) (x : ℕ)
    → x < 256
    → fingers_table f g ≡ true
    → (f x < 256) × (fingers_of (f x) ≡ g (fingers_of x))
unfolding fingers_table
fingers_table_sound f g x lt h =
    let (p, q) = and-true (ltb (f x) 256) _ (all_below_sound 256 _ x lt h) in
    (ground (arith, p), same_fingers_sound _ _ q)

pose_table_sound :
    (f : ℕ → ℕ) (g : Pose → Pose) (x : ℕ)
    → x < 256
    → pose_table f g ≡ true
    → (f x < 256) × (pose_of (f x) ≡ g (pose_of x))
unfolding pose_table
pose_table_sound f g x lt h =
    let (p, q) = and-true (ltb (f x) 256) _ (all_below_sound 256 _ x lt h) in
    (ground (arith, p), same_pose_sound _ _ q)

pub switch_fire :
    (v : ℤ) (x : ℕ)
    → x < 256
    → (switched v 1 x < 256)
      × (fingers_of (switched v 1 x) ≡ record (fingers_of x) { fire = not (eqb_ℤ v (pos 0)) })
unfolding fingers_table fingers_of has_bit all_below same_fingers same_bool
switch_fire v x lt = elim (Bool-cases (eqb_ℤ v (pos 0))) [
  | inl e ↦
      rw e (fingers_table_sound (λ y. without_mask y 1) (λ k. record k { fire = false }) x lt refl)
  | inr n ↦
      rw n (fingers_table_sound (λ y. with_mask y 1) (λ k. record k { fire = true }) x lt refl)
]

pub switch_aim :
    (v : ℤ) (x : ℕ)
    → x < 256
    → (switched v 0x10 x < 256)
      × (fingers_of (switched v 0x10 x) ≡ record (fingers_of x) { aim = not (eqb_ℤ v (pos 0)) })
unfolding fingers_table fingers_of has_bit all_below same_fingers same_bool
switch_aim v x lt = elim (Bool-cases (eqb_ℤ v (pos 0))) [
  | inl e ↦
      rw e
        (fingers_table_sound (λ y. without_mask y 0x10) (λ k. record k { aim = false }) x lt refl)
  | inr n ↦
      rw n (fingers_table_sound (λ y. with_mask y 0x10) (λ k. record k { aim = true }) x lt refl)
]

pub switch_melee :
    (v : ℤ) (x : ℕ)
    → x < 256
    → (switched v 0x20 x < 256)
      × (fingers_of (switched v 0x20 x) ≡ record (fingers_of x) { melee = not (eqb_ℤ v (pos 0)) })
unfolding fingers_table fingers_of has_bit all_below same_fingers same_bool
switch_melee v x lt = elim (Bool-cases (eqb_ℤ v (pos 0))) [
  | inl e ↦
      rw e
        (fingers_table_sound (λ y. without_mask y 0x20) (λ k. record k { melee = false }) x lt refl)
  | inr n ↦
      rw n (fingers_table_sound (λ y. with_mask y 0x20) (λ k. record k { melee = true }) x lt refl)
]

pub switch_reload :
    (v : ℤ) (x : ℕ)
    → x < 256
    → (switched v 0x8 x < 256)
      × (pose_of (switched v 0x8 x) ≡ record (pose_of x) { reload = not (eqb_ℤ v (pos 0)) })
unfolding pose_table pose_of has_bit all_below same_pose same_bool
switch_reload v x lt = elim (Bool-cases (eqb_ℤ v (pos 0))) [
  | inl e ↦
      rw e (pose_table_sound (λ y. without_mask y 0x8) (λ k. record k { reload = false }) x lt refl)
  | inr n ↦
      rw n (pose_table_sound (λ y. with_mask y 0x8) (λ k. record k { reload = true }) x lt refl)
]

pub lean_left_set :
    (x : ℕ)
    → x < 256
    → (with_mask x 0x10 < 256)
      × (pose_of (with_mask x 0x10) ≡ record (pose_of x) { lean_left = true })
unfolding pose_table pose_of has_bit all_below same_pose same_bool
lean_left_set x lt =
    pose_table_sound (λ y. with_mask y 0x10) (λ k. record k { lean_left = true }) x lt refl

pub lean_right_set :
    (x : ℕ)
    → x < 256
    → (with_mask x 0x20 < 256)
      × (pose_of (with_mask x 0x20) ≡ record (pose_of x) { lean_right = true })
unfolding pose_table pose_of has_bit all_below same_pose same_bool
lean_right_set x lt =
    pose_table_sound (λ y. with_mask y 0x20) (λ k. record k { lean_right = true }) x lt refl

pub lean_cleared :
    (x : ℕ)
    → x < 256
    → (without_mask x 0x30 < 256)
      × (pose_of (without_mask x 0x30)
          ≡ record (pose_of x) { lean_left = false; lean_right = false })
unfolding pose_table pose_of has_bit all_below same_pose same_bool
lean_cleared x lt =
    pose_table_sound (λ y. without_mask y 0x30)
      (λ k. record k { lean_left = false; lean_right = false }) x lt refl

pub prone_set :
    (x : ℕ)
    → x < 256
    → (with_mask x 0x40 < 256) × (pose_of (with_mask x 0x40) ≡ record (pose_of x) { prone = true })
unfolding pose_table pose_of has_bit all_below same_pose same_bool
prone_set x lt = pose_table_sound (λ y. with_mask y 0x40) (λ k. record k { prone = true }) x lt refl

pub crouch_set :
    (x : ℕ)
    → x < 256
    → (with_mask x 0x80 < 256) × (pose_of (with_mask x 0x80) ≡ record (pose_of x) { crouch = true })
unfolding pose_table pose_of has_bit all_below same_pose same_bool
crouch_set x lt =
    pose_table_sound (λ y. with_mask y 0x80) (λ k. record k { crouch = true }) x lt refl

pub stood_up :
    (x : ℕ)
    → x < 256
    → (without_mask x 0xc0 < 256)
      × (pose_of (without_mask x 0xc0) ≡ record (pose_of x) { prone = false; crouch = false })
unfolding pose_table pose_of has_bit all_below same_pose same_bool
stood_up x lt =
    pose_table_sound (λ y. without_mask y 0xc0) (λ k. record k { prone = false; crouch = false }) x
      lt refl

pub mask_aim : (x : ℕ) → x < 256 → not (bit_and x 0x10 == 0) ≡ has_bit x 4
unfolding all_below has_bit same_bool
mask_aim x lt =
    same_bool_sound _ _
      (all_below_sound 256 (λ y. same_bool (not (bit_and y 0x10 == 0)) (has_bit y 4)) x lt refl)

pub mask_lean_right : (x : ℕ) → x < 256 → not (bit_and x 0x20 == 0) ≡ has_bit x 5
unfolding all_below has_bit same_bool
mask_lean_right x lt =
    same_bool_sound _ _
      (all_below_sound 256 (λ y. same_bool (not (bit_and y 0x20 == 0)) (has_bit y 5)) x lt refl)

pub mask_reload : (x : ℕ) → x < 256 → not (bit_and x 0x8 == 0) ≡ has_bit x 3
unfolding all_below has_bit same_bool
mask_reload x lt =
    same_bool_sound _ _
      (all_below_sound 256 (λ y. same_bool (not (bit_and y 0x8 == 0)) (has_bit y 3)) x lt refl)
