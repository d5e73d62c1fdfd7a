-- ===== src/RateLimit/Outbound.antt =====
-- The limit of an address leaves the outbound bucket alone.
use codextended.Prelude.{
  ℕ, zero, suc, ◌≡◌, refl, ◌∙◌, inl, inr, Option, none, some, if◌then◌else◌, Bool-cases, ℤ,
}
use codextended.Net.{Adr, na_bot, type_eq}
use codextended.RateLimit.{
  Limiter, Search, found, absent, out_of_fuel, max_buckets, chain_loop, svc_hash_for_address,
  is_expired, reclaim, claim, alloc_loop, bucket_of, svc_bucket_for_address, svc_rate_limit_at,
  svc_rate_limit_address,
}

reclaim-outbound : (s : Limiter) (i : ℕ) → (reclaim s i).outbound ≡ s.outbound
unfolding reclaim
reclaim-outbound s i = refl

claim-outbound :
    (s : Limiter) (i : ℕ) (from : Adr) (hash : ℕ) (now : ℤ)
    → (claim s i from hash now).outbound ≡ s.outbound
unfolding claim
claim-outbound s i from hash now = refl

place-outbound :
    (t : Limiter) (i : ℕ) (from : Adr) (hash : ℕ) (now : ℤ) (rest : Limiter × Option ℕ)
    → rest.0.outbound ≡ t.outbound
    → (if type_eq (t.buckets i).type na_bot
        then (claim t i from hash now, some i)
        else rest).0.outbound
      ≡ t.outbound
place-outbound t i from hash now rest e = elim (Bool-cases (type_eq (t.buckets i).type na_bot)) [
  | inl free ↦ rw free (claim-outbound t i from hash now)
  | inr busy ↦ rw busy e
]

alloc_loop-outbound :
    (left i : ℕ) (s : Limiter) (from : Adr) (hash : ℕ) (now : ℤ) (burst period : ℕ)
    → (alloc_loop left i s from hash now burst period).0.outbound ≡ s.outbound
unfolding alloc_loop
alloc_loop-outbound zero i s from hash now burst period = refl
alloc_loop-outbound (suc left) i s from hash now burst period =
    elim (Bool-cases (is_expired (s.buckets i) now burst period)) [
      | inl e ↦ rw e (
          place-outbound (reclaim s i) i from hash now _
            (alloc_loop-outbound left (suc i) (reclaim s i) from hash now burst period)
          ∙ reclaim-outbound s i)
      | inr n ↦ rw n (
          place-outbound s i from hash now _
            (alloc_loop-outbound left (suc i) s from hash now burst period))
    ]

search-outbound :
    (s : Limiter) (from : Adr) (now : ℤ) (burst period : ℕ) (r : Search)
    → (bucket_of s from now burst period r).0.outbound ≡ s.outbound
unfolding bucket_of
search-outbound s from now burst period (found i) = refl
search-outbound s from now burst period absent =
    alloc_loop-outbound max_buckets 0 s from _ now burst period
search-outbound s from now burst period out_of_fuel = refl

at-outbound :
    (t : Limiter × Option ℕ) (now : ℤ) (burst period : ℕ)
    → (svc_rate_limit_at t now burst period).1.outbound ≡ t.0.outbound
unfolding svc_rate_limit_at
at-outbound (t, none) now burst period = refl
at-outbound (t, some i) now burst period = refl

pub svc_rate_limit_address-outbound :
    (s : Limiter) (from : Adr) (now later : ℤ) (burst period : ℕ)
    → (svc_rate_limit_address s from now later burst period).1.outbound ≡ s.outbound
unfolding svc_rate_limit_address svc_bucket_for_address
svc_rate_limit_address-outbound s from now later burst period =
    at-outbound (svc_bucket_for_address s from now burst period) later burst period
    ∙ search-outbound s from now burst period
        (chain_loop max_buckets s.buckets from.ip (s.heads (svc_hash_for_address from.ip)))
