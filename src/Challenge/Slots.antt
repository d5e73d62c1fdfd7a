-- ===== src/Challenge/Slots.antt =====
-- The search for a slot: the first slot that waits for the address, or else the oldest.
use codextended.Prelude.{
  ℕ, zero, suc, ◌+◌, ◌≤◌, ◌<◌, ◌≡◌, refl, true, false, inl, inr, if◌then◌else◌, arith, Bool-cases,
  ℤ, pos, ltb_ℤ, ◌≤ℤ◌, ◌==◌, ==_iff,
}
use codextended.Net.{Adr}
use codextended.Challenge.{
  Challenge, max_challenges, is_waiting, Slot, known, recycled, slot_loop, find_slot,
}

-- No slot before `i` waits for the address.
abbrev pub NoneBefore : (ℕ → Challenge) → Adr → ℕ → Type 0
NoneBefore cs from i = (j : ℕ) → j < i → is_waiting from (cs j) ≡ false

-- What the search promises.
abbrev pub Chosen : (ℕ → Challenge) → Adr → Slot → Type 0
Chosen cs from (known i) =
    (i < max_challenges) × (is_waiting from (cs i) ≡ true) × NoneBefore cs from i
Chosen cs from (recycled o) =
    (o < max_challenges)
    × NoneBefore cs from max_challenges
    × ((j : ℕ) → j < max_challenges → (cs o).time ≤ℤ (cs j).time)

-- The times are values of `int`.
abbrev pub AreInts : (ℕ → Challenge) → Type 0
AreInts cs = (j : ℕ) → j < max_challenges → (cs j).time ≤ℤ pos 0x7fffffff

-- The oldest slot among those before `i`, as the search keeps it.
record Oldest (cs : ℕ → Challenge) (i oldest : ℕ) (time : ℤ) : Type 0 where
  below : oldest < max_challenges
  least : (j : ℕ) → j < i → time ≤ℤ (cs j).time
  own : (cs oldest).time ≤ℤ time

le-trans : (a b c : ℤ) → a ≤ℤ b → b ≤ℤ c → a ≤ℤ c
le-trans a b c h k = omega arith

NoneBefore-suc :
    (cs : ℕ → Challenge) (from : Adr) (i : ℕ)
    → NoneBefore cs from i
    → is_waiting from (cs i) ≡ false
    → NoneBefore cs from (suc i)
NoneBefore-suc cs from i h n j b = elim (Bool-cases (j == i)) [
  | inl e ↦ rw ((==_iff j i).0 e) n
  | inr ne ↦ h j (ground arith)
]

Oldest-suc :
    (cs : ℕ → Challenge) (i oldest : ℕ) (time : ℤ)
    → i < max_challenges
    → Oldest cs i oldest time
    → Oldest cs
        (suc i)
        (if ltb_ℤ (cs i).time time then i else oldest)
        (if ltb_ℤ (cs i).time time then (cs i).time else time)
Oldest-suc cs i oldest time b o = elim (Bool-cases (ltb_ℤ (cs i).time time)) [
  | inl older ↦ rw older (record {
    below = b;
    least = λ j h. elim (Bool-cases (j == i)) [
      | inl e ↦ rw ((==_iff j i).0 e) (omega arith)
      | inr ne ↦ le-trans (cs i).time time (cs j).time (ground arith) (o.least j (ground arith))
    ];
    own = omega arith;
  })
  | inr younger ↦ rw younger (record {
    below = o.below;
    least = λ j h. elim (Bool-cases (j == i)) [
      | inl e ↦ rw ((==_iff j i).0 e) (ground arith)
      | inr ne ↦ o.least j (ground arith)
    ];
    own = o.own;
  })
]

slot_loop-Chosen :
    (left i : ℕ) (cs : ℕ → Challenge) (from : Adr) (oldest : ℕ) (time : ℤ)
    → i + left ≡ max_challenges
    → NoneBefore cs from i
    → Oldest cs i oldest time
    → Chosen cs from (slot_loop left i cs from oldest time)
unfolding slot_loop
slot_loop-Chosen zero i cs from oldest time e n o = (
  o.below,
  λ j b. n j (omega arith),
  λ j b. le-trans (cs oldest).time time (cs j).time o.own (o.least j (omega arith)),
)
slot_loop-Chosen (suc left) i cs from oldest time e n o =
    elim (Bool-cases (is_waiting from (cs i))) [
      | inl here ↦ rw here (omega arith, here, n)
      | inr other ↦ rw other (
          slot_loop-Chosen left (suc i) cs from _ _ (omega arith) (NoneBefore-suc cs from i n other)
            (Oldest-suc cs i oldest time (omega arith) o))
    ]

-- `SV_GetChallenge` finds the first slot that waits for the address; only when there is none it
-- takes a slot, and that one's challenge is as old as any.
pub find_slot-Chosen :
    (cs : ℕ → Challenge) (from : Adr) → AreInts cs → Chosen cs from (find_slot cs from)
unfolding find_slot
find_slot-Chosen cs from ints =
    slot_loop-Chosen max_challenges 0 cs from 0 (pos 0x7fffffff) (omega arith)
      (λ j b. absurd (omega arith))
      (record {
        below = omega arith;
        least = λ j b. absurd (omega arith);
        own = ints 0 (omega arith);
      })

slot_loop-known :
    (left i k : ℕ) (cs : ℕ → Challenge) (from : Adr) (oldest : ℕ) (time : ℤ)
    → i ≤ k
    → k < i + left
    → is_waiting from (cs k) ≡ true
    → NoneBefore cs from k
    → slot_loop left i cs from oldest time ≡ known k
unfolding slot_loop
slot_loop-known zero i k cs from oldest time low high w n = absurd (omega arith)
slot_loop-known (suc left) i k cs from oldest time low high w n = elim (Bool-cases (i == k)) [
  | inl e ↦ rw ((==_iff i k).0 e, w) refl
  | inr ne ↦
      rw (n i (ground arith))
        (slot_loop-known left (suc i) k cs from _ _ (ground arith) (omega arith) w n)
]

-- The first slot that waits for the address is the one found.
pub find_slot-known :
    (cs : ℕ → Challenge) (from : Adr) (k : ℕ)
    → k < max_challenges
    → is_waiting from (cs k) ≡ true
    → NoneBefore cs from k
    → find_slot cs from ≡ known k
unfolding find_slot
find_slot-known cs from k b w n =
    slot_loop-known max_challenges 0 k cs from 0 (pos 0x7fffffff) (omega arith) (omega arith) w n
