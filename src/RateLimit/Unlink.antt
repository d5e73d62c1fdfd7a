-- ===== src/RateLimit/Unlink.antt =====
-- Taking one bucket out of its chain.
use codextended.Prelude.{
  ℕ, ◌≡◌, sym, subst, Bool, true, false, inl, inr, Option, none, some, List, [], ◌∷◌, ◌==◌, ==_iff,
  ==_refl, if◌then◌else◌, arith, Bool-cases, Option-cases,
}
use codextended.RateLimit.{Bucket, set_next, set_prev}
use codextended.RateLimit.Chain.{◌∈◌, ◌∉◌, Distinct, erase, Chain, Chain-frame}

-- The links after `bucket->prev->next = bucket->next` and `bucket->next->prev = bucket->prev`.
abbrev pub relink : (ℕ → Bucket) → ℕ → ℕ → Bucket
relink bs i = set_prev (set_next bs (bs i).prev (bs i).next) (bs i).next (bs i).prev

-- A pointer to `i` becomes one to what follows `i`.
abbrev pub skip : (ℕ → Bucket) → ℕ → Option ℕ → Option ℕ
skip bs i none = none
skip bs i (some a) = if i == a then (bs i).next else some a

abbrev Outside : Option ℕ → List ℕ → Type 0
Outside none xs = Unit {0}
Outside (some a) xs = a ∉ xs

abbrev pub points : Option ℕ → ℕ → Bool
points none a = false
points (some b) a = a == b

pub relink-prev :
    (bs : ℕ → Bucket) (i a : ℕ)
    → (relink bs i a).prev ≡ (if points (bs i).next a then (bs i).prev else (bs a).prev)
unfolding set_next set_prev
relink-prev bs i a = ground arith

pub relink-next :
    (bs : ℕ → Bucket) (i a : ℕ)
    → (relink bs i a).next ≡ (if points (bs i).prev a then (bs i).next else (bs a).next)
unfolding set_next set_prev
relink-next bs i a = ground arith

-- The successor of a member lies behind it, and its predecessor is a member or the one before.
next-mem :
    (bs : ℕ → Bucket) (i b : ℕ) (before p : Option ℕ) (x : ℕ) (xs : List ℕ)
    → Chain bs before p (x ∷ xs)
    → i ∈ x ∷ xs
    → (bs i).next ≡ some b
    → b ∈ xs
next-mem bs i b before p x [] c m e = ground arith
next-mem bs i b before p x (y ∷ xs) c m e = elim (Bool-cases (i == x)) [
  | inl here ↦ ground arith
  | inr there ↦ ground (arith, next-mem bs i b (some x) (bs x).next y xs c.2)
]

prev-mem :
    (bs : ℕ → Bucket) (i a : ℕ) (before p : Option ℕ) (x : ℕ) (xs : List ℕ)
    → Chain bs before p (x ∷ xs)
    → i ∈ xs
    → (bs i).prev ≡ some a
    → a ∈ x ∷ xs
prev-mem bs i a before p x [] c m e = ground arith
prev-mem bs i a before p x (y ∷ xs) c m e = elim (Bool-cases (i == y)) [
  | inl here ↦ ground arith
  | inr there ↦ ground (arith, prev-mem bs i a (some x) (bs x).next y xs c.2)
]

-- The bucket before `i` is the one whose `next` is `i`.
points-next :
    (bs : ℕ → Bucket) (i : ℕ) (before p : Option ℕ) (x : ℕ) (xs : List ℕ)
    → Chain bs before p (x ∷ xs)
    → x ∉ xs
    → i ∈ xs
    → (if points (bs i).prev x then (bs i).next else (bs x).next) ≡ skip bs i (bs x).next
points-next bs i before p x [] c d m = ground arith
points-next bs i before p x (y ∷ xs) c d m = elim (Bool-cases (i == y)) [
  | inl here ↦ ground arith
  | inr there ↦ elim (Option-cases (bs i).prev) [
    | inl e ↦ ground arith
    | inr (a, e) ↦ ground (arith, prev-mem bs i a (some x) (bs x).next y xs c.2)
  ]
]

not-points-next :
    (bs : ℕ → Bucket) (i : ℕ) (before p : Option ℕ) (x : ℕ) (xs : List ℕ)
    → Chain bs before p (x ∷ xs)
    → x ∉ xs
    → i ∈ x ∷ xs
    → points (bs i).next x ≡ false
not-points-next bs i before p x xs c d m = elim (Option-cases (bs i).next) [
  | inl e ↦ ground arith
  | inr (b, e) ↦ ground (arith, next-mem bs i b before p x xs c m)
]

relink-head :
    (bs : ℕ → Bucket) (x : ℕ) (before : Option ℕ) (xs : List ℕ)
    → (bs x).prev ≡ before
    → Chain bs (some x) (bs x).next xs
    → Distinct xs
    → Outside before xs
    → Chain (relink bs x) before (bs x).next xs
relink-head bs x before [] e c d o = c
relink-head bs x before (y ∷ xs) e c d o = (
  c.0,
  rw (relink-prev bs x y) (ground arith),
  rw onward (
      Chain-frame bs (relink bs x) (some y) (bs y).next xs
        (λ a m. ground (arith, relink-prev bs x a, relink-next bs x a)) c.2),
)
  where
    onward : (relink bs x y).next ≡ (bs y).next
    onward = ground (arith, relink-next bs x y)

relink-first :
    (bs : ℕ → Bucket) (x : ℕ) (before p : Option ℕ) (xs : List ℕ)
    → Chain bs before p (x ∷ xs)
    → Distinct (x ∷ xs)
    → Outside before (x ∷ xs)
    → Chain (relink bs x) before (skip bs x p) (erase x (x ∷ xs))
relink-first bs x before p xs c d o =
    rw (c.0, ==_refl x) (relink-head bs x before xs c.1 c.2 d.1 (ground arith))

relink-rest :
    (bs : ℕ → Bucket) (i : ℕ) (before p : Option ℕ) (x : ℕ) (xs : List ℕ)
    → Chain bs before p (x ∷ xs)
    → x ∉ xs
    → (i == x) ≡ false
    → i ∈ xs
    → Chain (relink bs i) (some x) (skip bs i (bs x).next) (erase i xs)
    → Chain (relink bs i) before (skip bs i p) (x ∷ erase i xs)
relink-rest bs i before p x xs c d ne m rest = (
  rw c.0 (ground arith),
  rw (relink-prev bs i x, not-points-next bs i before p x xs c d (ground arith)) c.1,
  rw (relink-next bs i x) (rw (points-next bs i before p x xs c d m) rest),
)

-- Relinking around a member leaves the chain of the other buckets, in order.
pub relink-Chain :
    (bs : ℕ → Bucket) (i : ℕ) (before p : Option ℕ) (xs : List ℕ)
    → Chain bs before p xs
    → Distinct xs
    → i ∈ xs
    → Outside before xs
    → Chain (relink bs i) before (skip bs i p) (erase i xs)
relink-Chain bs i before p [] c d m o = ground arith
relink-Chain bs i before p (x ∷ xs) c d m o = elim (Bool-cases (i == x)) [
  | inl here ↦
      subst (λ j. Chain (relink bs j) before (skip bs j p) (erase j (x ∷ xs)))
        (sym ((==_iff i x).0 here)) (relink-first bs x before p xs c d o)
  | inr there ↦ rw there (
      relink-rest bs i before p x xs c d.0 there (ground arith)
        (relink-Chain bs i (some x) (bs x).next xs c.2 d.1 (ground arith) d.0))
]

-- The neighbours of a member are members.
pub next-member :
    (bs : ℕ → Bucket) (i a : ℕ) (p : Option ℕ) (xs : List ℕ)
    → Chain bs none p xs
    → i ∈ xs
    → points (bs i).next a ≡ true
    → a ∈ xs
next-member bs i a p [] c m e = ground arith
next-member bs i a p (x ∷ xs) c m e = elim (Option-cases (bs i).next) [
  | inl n ↦ ground arith
  | inr (b, n) ↦ ground (arith, next-mem bs i b none p x xs c m)
]

pub prev-member :
    (bs : ℕ → Bucket) (i a : ℕ) (p : Option ℕ) (xs : List ℕ)
    → Chain bs none p xs
    → i ∈ xs
    → points (bs i).prev a ≡ true
    → a ∈ xs
prev-member bs i a p [] c m e = ground arith
prev-member bs i a p (x ∷ xs) c m e = elim (Bool-cases (i == x)) [
  | inl here ↦ ground arith
  | inr there ↦ elim (Option-cases (bs i).prev) [
    | inl n ↦ ground arith
    | inr (b, n) ↦ ground (arith, prev-mem bs i b none p x xs c)
  ]
]
