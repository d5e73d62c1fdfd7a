-- ===== src/Bots/Told.antt =====
-- What any calls, for any entities, ask of a bot, and what they leave in its fields.
use codextended.Prelude.{
  ℕ, ◌≡◌, inl, inr, refl, sym, ap, subst, ◌∙◌, ◌==◌, ==_iff, Bool, true, false, ◌&&◌, if◌then◌else◌,
  Bool-cases, Option, none, some, Option-cases, List, [], ◌∷◌, ℤ, to_schar, write, leb, ltb, arith,
}
use mathlib.Core.Option.{some-injective}
use codextended.Bots.{
  BotState, Call, set_bot_stance, set_lean, set_walk_dir, melee_weapon, set_aim, fire_weapon,
  reload_weapon, switch_to_weapon_id, set_walk_values, guarded, max_clients, Answer, yes,
  after_stance, after_lean, after_walk, after_melee, after_aim, after_fire, after_reload,
  after_weapon, gsc_bots_setwalkvalues, call_bot, call_all,
}
use codextended.Bots.Bodies.{
  Controls, told, view, IsSound, Holds, stand_as, lean_to, walk_to, kept, same_as, with_walk,
  stance-Told, lean-Told, walk-Told, melee-Told, aim-Told, fire-Told, reload-Told, weapon-Told,
}

-- A write by place, read at place `i`.
written :
    (states : ℕ → BotState) (id i : ℕ) (s : BotState) (c c' : Controls)
    → Holds (states i) c
    → (id ≡ i → Holds s c')
    → Holds (write states id s i) (if id == i then c' else c)
written states id i s c c' h k = elim (Bool-cases (i == id)) [
  | inl e ↦
      let p : id ≡ i = sym ((==_iff i id).0 e) in
      let q : (id == i) ≡ true = ground arith in rw (e, q) (k p)
  | inr n ↦ let q : (id == i) ≡ false = ground (arith, n) in rw (n, q) h
]

abbrev put : ℕ → (ℕ → BotState) → Option BotState → ℕ → BotState
put id states none = states
put id states (some s) = write states id s

-- What becomes of place `i` when a change of place `id` is kept, and when there is none.
changed :
    (id i : ℕ) (states : ℕ → BotState) (o : Option BotState) (c' : Controls)
    → IsSound (states i)
    → (id ≡ i → Holds (kept (states id) o) c')
    → Holds (put id states o i) (if id == i then c' else view (states i))
changed id i states (some s) c' h k =
    written states id i s (view (states i)) c' (same_as (states i) h) k
changed id i states none c' h k = elim (Bool-cases (id == i)) [
  | inl e ↦ let p : id ≡ i = (==_iff id i).0 e in rw e (subst (λ j. Holds (states j) c') p (k p))
  | inr n ↦ rw n (same_as (states i) h)
]

guarded_change :
    (is_bot : ℕ → Bool) (id : ℕ) (change : BotState → Option BotState) (states : ℕ → BotState)
    → is_bot id ≡ true
    → leb max_clients id ≡ false
    → (guarded is_bot id change states).0 ≡ put id states (change (states id))
unfolding guarded
guarded_change is_bot id change states b n = elim (Option-cases (change (states id))) [
  | inl m ↦ rw (n, b, m) refl
  | inr (s, m) ↦ rw (n, b, m) refl
]

guarded-Told :
    (is_bot : ℕ → Bool) (id i : ℕ) (change : BotState → Option BotState) (g : Controls → Controls)
    (states : ℕ → BotState)
    → ((s : BotState) → IsSound s → Holds (kept s (change s)) (g (view s)))
    → IsSound (states i)
    → Holds ((guarded is_bot id change states).0 i) (
        if is_bot id && ltb id max_clients
        then if id == i then g (view (states i)) else view (states i)
        else view (states i))
unfolding guarded
guarded-Told is_bot id i change g states k h = elim (Bool-cases (leb max_clients id)) [
  | inl e ↦
      let f : (is_bot id && ltb id max_clients) ≡ false = ground (arith, e) in
      rw (e, f) (same_as (states i) h)
  | inr n ↦ elim (Bool-cases (is_bot id)) [
    | inl b ↦
        let f : (is_bot id && ltb id max_clients) ≡ true = ground (arith, n, b) in
        rw (guarded_change is_bot id change states b n, f)
          (changed id i states (change (states id)) (g (view (states i))) h λ p.
            subst (λ j. Holds (kept (states id) (change (states id))) (g (view (states j)))) p
              (k (states id) (subst (λ j. IsSound (states j)) (sym p) h)))
    | inr b ↦ rw (n, b) (same_as (states i) h)
  ]
]

landed : (s s' : BotState) (c : Controls) → s ≡ s' → Holds s c → Holds s' c
landed s s' c p h = subst (λ t. Holds t c) p h

-- The same of a result.
result-Told :
    (is_bot : ℕ → Bool) (id i : ℕ) (change : BotState → Option BotState) (g : Controls → Controls)
    (states states' : ℕ → BotState) (a : Answer)
    → ((s : BotState) → IsSound s → Holds (kept s (change s)) (g (view s)))
    → IsSound (states i)
    → some (guarded is_bot id change states) ≡ some (states', a)
    → Holds (states' i) (
        if is_bot id && ltb id max_clients
        then if id == i then g (view (states i)) else view (states i)
        else view (states i))
result-Told is_bot id i change g states states' a k h e =
    let p = ap (λ (r : (ℕ → BotState) × Answer). r.0 i) (some-injective _ (states', a) e) in
    landed _ (states' i) _ p (guarded-Told is_bot id i change g states k h)

-- Whether a call changes anything: all but `setWalkValues` ask whether the entity is a bot.
unfoldable pub reaches : (ℕ → Bool) → ℕ → Call → Bool
reaches is_bot id (set_walk_values fw rg) = true
reaches is_bot id call = is_bot id && ltb id max_clients

-- What a call for entity `id` asks of the bot of entity `i`.
abbrev pub told_at : (ℕ → Bool) → ℕ → ℕ → Call → Controls → Controls
told_at is_bot i id call c =
    if reaches is_bot id call then if id == i then told call c else c else c

walk_values-Told :
    (id i : ℕ) (fw rg : ℤ) (states states' : ℕ → BotState) (a : Answer)
    → IsSound (states i)
    → gsc_bots_setwalkvalues id fw rg states ≡ some (states', a)
    → Holds
        (states' i)
        (if id == i then told (set_walk_values fw rg) (view (states i)) else view (states i))
unfolding gsc_bots_setwalkvalues told
walk_values-Told id i fw rg states states' a h e = elim (Bool-cases (leb max_clients id)) [
  | inl l ↦ absurd (ground (arith, l, e))
  | inr n ↦
      let s : BotState = record (states id) { forward = to_schar fw; right = to_schar rg } in
      let c : Controls = record (view (states i)) { forward = to_schar fw; right = to_schar rg } in
      let f : (write states id s, yes) ≡ (states', a) = some-injective _ _ (
        subst
          (λ b.
            ◌≡◌ {A = Option ((ℕ → BotState) × Answer)}
              (if b then none else some (write states id s, yes)) (some (states', a)))
          n e) in
      landed _ (states' i) _ (ap (λ (r : (ℕ → BotState) × Answer). r.0 i) f) (
        written states id i s (view (states i)) c (same_as (states i) h) λ p.
          subst
            (λ j. Holds s (record (view (states j)) { forward = to_schar fw; right = to_schar rg }))
            p
            (with_walk (states id) (to_schar fw) (to_schar rg)
              (subst (λ j. IsSound (states j)) (sym p) h)))
]

call-Told :
    (is_bot : ℕ → Bool) (id i : ℕ) (call : Call) (states states' : ℕ → BotState) (a : Answer)
    → IsSound (states i)
    → call_bot is_bot id call states ≡ some (states', a)
    → Holds (states' i) (told_at is_bot i id call (view (states i)))
unfolding call_bot told reaches
call-Told is_bot id i (set_bot_stance v) states states' a h e =
    result-Told is_bot id i (after_stance v) (stand_as v) states states' a (stance-Told v) h e
call-Told is_bot id i (set_lean v) states states' a h e =
    result-Told is_bot id i (after_lean v) (lean_to v) states states' a (lean-Told v) h e
call-Told is_bot id i (set_walk_dir v) states states' a h e =
    result-Told is_bot id i (after_walk v) (walk_to v) states states' a (walk-Told v) h e
call-Told is_bot id i (melee_weapon v) states states' a h e =
    result-Told is_bot id i (after_melee v) (told (melee_weapon v)) states states' a (melee-Told v)
      h e
call-Told is_bot id i (set_aim v) states states' a h e =
    result-Told is_bot id i (after_aim v) (told (set_aim v)) states states' a (aim-Told v) h e
call-Told is_bot id i (fire_weapon v) states states' a h e =
    result-Told is_bot id i (after_fire v) (told (fire_weapon v)) states states' a (fire-Told v) h e
call-Told is_bot id i (reload_weapon v) states states' a h e =
    result-Told is_bot id i (after_reload v) (told (reload_weapon v)) states states' a
      (reload-Told v) h e
call-Told is_bot id i (switch_to_weapon_id v) states states' a h e =
    result-Told is_bot id i (after_weapon v) (told (switch_to_weapon_id v)) states states' a
      (weapon-Told v) h e
call-Told is_bot id i (set_walk_values fw rg) states states' a h e =
    walk_values-Told id i fw rg states states' a h e

-- What the calls ask of the bot of entity `i`, from `c` on.
unfoldable pub told_all : (ℕ → Bool) → ℕ → List (ℕ × Call) → Controls → Controls
told_all is_bot i [] c = c
told_all is_bot i ((id, call) ∷ calls) c = told_all is_bot i calls (told_at is_bot i id call c)

call_all-some :
    (is_bot : ℕ → Bool) (id : ℕ) (call : Call) (calls : List (ℕ × Call)) (states : ℕ → BotState)
    (r : (ℕ → BotState) × Answer)
    → call_bot is_bot id call states ≡ some r
    → call_all is_bot ((id, call) ∷ calls) states ≡ call_all is_bot calls r.0
unfolding call_all
call_all-some is_bot id call calls states r m = rw (call_all, m) refl

call_all-first :
    (is_bot : ℕ → Bool) (id : ℕ) (call : Call) (calls : List (ℕ × Call))
    (states states' : ℕ → BotState)
    → call_all is_bot ((id, call) ∷ calls) states ≡ some states'
    → (r : (ℕ → BotState) × Answer) × (call_bot is_bot id call states ≡ some r)
      × (call_all is_bot calls r.0 ≡ some states')
unfolding call_all
call_all-first is_bot id call calls states states' e =
    elim (Option-cases (call_bot is_bot id call states)) [
      | inl m ↦ absurd (ground (arith, m, e))
      | inr (r, m) ↦ (r, m, sym (call_all-some is_bot id call calls states r m) ∙ e)
    ]

pub call_all-Told :
    (is_bot : ℕ → Bool) (i : ℕ) (calls : List (ℕ × Call)) (states states' : ℕ → BotState)
    → IsSound (states i)
    → call_all is_bot calls states ≡ some states'
    → Holds (states' i) (told_all is_bot i calls (view (states i)))
unfolding told_all call_all
call_all-Told is_bot i [] states states' h e =
    landed _ (states' i) _ (ap (λ (t : ℕ → BotState). t i) (some-injective states states' e))
      (same_as (states i) h)
call_all-Told is_bot i ((id, call) ∷ calls) states states' h e =
    let ((mid, a), f, g) = call_all-first is_bot id call calls states states' e in
    let (sound, q) = call-Told is_bot id i call states mid a h f in
    subst (λ c. Holds (states' i) (told_all is_bot i calls c)) q
      (call_all-Told is_bot i calls mid states' sound g)
