-- ===== src/RateLimit/Invariant.antt =====
-- The pool of buckets is well linked: each live bucket stands once, in the chain of its hash.
pub mod Reclaim
pub mod Claim
pub mod Lookup
pub mod History
use codextended.Prelude.{ℕ, ◌<◌, ◌≡◌, Bool, true, false, Option, none, some, List, [], pos}
use codextended.Net.{na_bot, type_eq}
use codextended.RateLimit.{Bucket, Limiter, max_buckets, svc_hash_for_address}
use codextended.RateLimit.Chain.{◌∈◌, Distinct, Chain}

-- `NA_BOT`, which is 0, marks a free bucket.
abbrev pub is_free : Bucket → Bool
is_free b = type_eq b.type na_bot

pub record Member (b : Bucket) (h a : ℕ) : Type 0 where
  pub below : a < max_buckets
  pub hash : b.hash ≡ h
  pub live : is_free b ≡ false
  pub ip_hash : svc_hash_for_address b.ip ≡ h

-- `chain h` lists the buckets of the chain of hash `h`.
pub record Inv (s : Limiter) (chain : ℕ → List ℕ) : Type 0 where
  pub links : (h : ℕ) → Chain s.buckets none (s.heads h) (chain h)
  pub distinct : (h : ℕ) → Distinct (chain h)
  pub member : (h a : ℕ) → a ∈ chain h → Member (s.buckets a) h a
  pub listed :
      (a : ℕ) → a < max_buckets → is_free (s.buckets a) ≡ false → a ∈ chain (s.buckets a).hash
  pub unique : (h a b : ℕ) → a ∈ chain h → b ∈ chain h → (s.buckets a).ip ≡ (s.buckets b).ip → a ≡ b
  pub idle :
      (a : ℕ) → a < max_buckets → is_free (s.buckets a) ≡ true → (s.buckets a).last_time ≡ pos 0
