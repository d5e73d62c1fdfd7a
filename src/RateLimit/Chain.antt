-- ===== src/RateLimit/Chain.antt =====
-- Doubly linked chains of buckets.
use codextended.Prelude.{
  ℕ, zero, suc, ◌<◌, ◌≤◌, ◌≡◌, ◌≢◌, refl, ◌∙◌, Bool, true, false, ◌||◌, inl, inr, Option, none,
  some, List, [], ◌∷◌, ◌==◌, ==_iff, if◌then◌else◌, arith, length, Bool-cases,
}
use codextended.Net.{ip_eq, Ip}
use codextended.RateLimit.{Bucket, Search, found, absent, out_of_fuel, chain_loop}

abbrev pub has : ℕ → List ℕ → Bool
has a [] = false
has a (x ∷ xs) = (a == x) || has a xs

infix 40 ◌∈◌ ◌∉◌
abbrev pub ◌∈◌ : ℕ → List ℕ → Type 0
a ∈ xs = has a xs ≡ true

abbrev pub ◌∉◌ : ℕ → List ℕ → Type 0
a ∉ xs = has a xs ≡ false

abbrev pub Distinct : List ℕ → Type 0
Distinct [] = Unit {0}
Distinct (x ∷ xs) = (x ∉ xs) × Distinct xs

abbrev pub erase : ℕ → List ℕ → List ℕ
erase a [] = []
erase a (x ∷ xs) = if a == x then xs else x ∷ erase a xs

-- From the pointer `p` the `next` pointers lead through the buckets `xs` to null, and each `prev`
-- leads back, from the first bucket to `before`.
abbrev pub Chain : (ℕ → Bucket) → Option ℕ → Option ℕ → List ℕ → Type 0
Chain bs before p [] = p ≡ none
Chain bs before p (x ∷ xs) =
    (p ≡ some x) × ((bs x).prev ≡ before) × Chain bs (some x) (bs x).next xs

pub has-erase_ne : (a b : ℕ) (xs : List ℕ) → a ≢ b → has a (erase b xs) ≡ has a xs
has-erase_ne a b [] h = refl
has-erase_ne a b (x ∷ xs) h = ground (arith, has-erase_ne a b xs h)

pub has-erase_self : (a : ℕ) (xs : List ℕ) → Distinct xs → a ∉ erase a xs
has-erase_self a [] d = refl
has-erase_self a (x ∷ xs) d = ground (arith, has-erase_self a xs d.1)

pub not-has-erase : (a b : ℕ) (xs : List ℕ) → a ∉ xs → a ∉ erase b xs
not-has-erase a b [] h = refl
not-has-erase a b (x ∷ xs) h = ground (arith, not-has-erase a b xs)

pub erase-Distinct : (a : ℕ) (xs : List ℕ) → Distinct xs → Distinct (erase a xs)
erase-Distinct a [] d = tt
erase-Distinct a (x ∷ xs) d = ground (arith, erase-Distinct a xs d.1, not-has-erase x a xs d.0)

length-erase : (a : ℕ) (xs : List ℕ) → length xs ≤ suc (length (erase a xs))
length-erase a [] = omega arith
length-erase a (x ∷ xs) = ground (arith, length-erase a xs)

abbrev pub AllBelow : ℕ → List ℕ → Type 0
AllBelow n xs = (a : ℕ) → a ∈ xs → a < n

erase-AllBelow : (n : ℕ) (xs : List ℕ) → Distinct xs → AllBelow (suc n) xs → AllBelow n (erase n xs)
erase-AllBelow n xs d h a i = elim (Bool-cases (a == n)) [
  | inl e ↦ ground (arith, has-erase_self n xs d)
  | inr ne ↦ ground (arith, has-erase_ne a n xs, h a)
]

-- Distinct places below `n` are at most `n`.
pub length-le_of_Distinct : (n : ℕ) (xs : List ℕ) → Distinct xs → AllBelow n xs → length xs ≤ n
length-le_of_Distinct zero [] d h = omega arith
length-le_of_Distinct zero (x ∷ xs) d h = absurd (omega (arith, h x (ground arith)))
length-le_of_Distinct (suc n) xs d h = omega (
  arith,
  length-erase n xs,
  length-le_of_Distinct n (erase n xs) (erase-Distinct n xs d) (erase-AllBelow n xs d h),
)

-- A chain depends on the links of its own buckets only.
pub Chain-frame :
    (bs cs : ℕ → Bucket) (before p : Option ℕ) (xs : List ℕ)
    → ((a : ℕ) → a ∈ xs → ((cs a).prev ≡ (bs a).prev) × ((cs a).next ≡ (bs a).next))
    → Chain bs before p xs
    → Chain cs before p xs
Chain-frame bs cs before p [] same c = c
Chain-frame bs cs before p (x ∷ xs) same c =
    let here = same x (ground arith) in
    let rest = Chain-frame bs cs (some x) (bs x).next xs (λ a i. same a (ground arith)) c.2 in
    (c.0, here.0 ∙ c.1, rw here.1 rest)

-- The walk finds a bucket of the address, or there is none in the chain; the fuel is enough.
abbrev pub Finds : (ℕ → Bucket) → Ip → List ℕ → Search → Type 0
Finds bs ip xs (found i) = (i ∈ xs) × (ip_eq (bs i).ip ip ≡ true)
Finds bs ip xs absent = (a : ℕ) → a ∈ xs → ip_eq (bs a).ip ip ≡ false
Finds bs ip xs out_of_fuel = ⊥

Finds-cons :
    (bs : ℕ → Bucket) (ip : Ip) (x : ℕ) (xs : List ℕ) (hit : Bool)
    → ip_eq (bs x).ip ip ≡ hit
    → (r : Search) → Finds bs ip xs r
    → Finds bs ip (x ∷ xs) (if hit then found x else r)
Finds-cons bs ip x xs true e r f = (ground arith, e)
Finds-cons bs ip x xs false e (found i) f = (ground arith, f.1)
Finds-cons bs ip x xs false e absent f = λ a i. elim (Bool-cases (a == x)) [
  | inl here ↦ rw ((==_iff a x).0 here) e
  | inr there ↦ f a (ground arith)
]
Finds-cons bs ip x xs false e out_of_fuel f = absurd f

pub chain_loop-Finds :
    (fuel : ℕ) (bs : ℕ → Bucket) (ip : Ip) (before p : Option ℕ) (xs : List ℕ)
    → Chain bs before p xs
    → length xs ≤ fuel
    → Finds bs ip xs (chain_loop fuel bs ip p)
unfolding chain_loop
chain_loop-Finds fuel bs ip before p [] c f = rw c (λ a i. ground arith)
chain_loop-Finds zero bs ip before p (x ∷ xs) c f = absurd (omega arith)
chain_loop-Finds (suc fuel) bs ip before p (x ∷ xs) c f = rw c.0 (
    Finds-cons bs ip x xs (ip_eq (bs x).ip ip) refl (chain_loop fuel bs ip (bs x).next)
      (chain_loop-Finds fuel bs ip (some x) (bs x).next xs c.2 (omega arith)))
