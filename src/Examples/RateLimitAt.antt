-- ===== src/Examples/RateLimitAt.antt =====
-- The rate limiter at concrete inputs.
use codextended.Prelude.{
  ℕ, ◌+◌, ◌-◌, ◌*◌, ◌≤◌, ◌≡◌, refl, true, false, List, [], ◌∷◌, arith, pos, inl, ◌-ℤ◌, ◌+ℤ◌, quot,
  rem, to_schar, ◌≢◌,
}
use codextended.Net.{Adr, na_bot, na_ip, type_eq}
use codextended.RateLimit.{
  Bucket, Limiter, zero_bucket, claim, svc_hash_for_address, svc_rate_limit, drain,
  svc_bucket_for_address,
}
use codextended.RateLimit.Chain.{◌∈◌}
use codextended.RateLimit.Leak.{Holds, ask, ask_bound, svc_rate_limit_passes}
use codextended.RateLimit.Invariant.{is_free}
use codextended.RateLimit.Invariant.Lookup.{Allocated, svc_bucket_for_address-Allocated}
use codextended.RateLimit.Invariant.Claim.{claim-Inv}
use codextended.RateLimit.Invariant.History.{
  Request, WellLinked, initial, initial-Inv, serve, serve-initial-WellLinked,
}

abbrev host : Adr
host = record {
  type = na_ip;
  ip = record { b0 = 10; b1 = 0; b2 = 0; b3 = 7 };
  ipx = [];
  port = 28960;
}

-- 10 * 119 + 7 * 122 = 2044, and 2044 ^ 1 = 2045, of which the low ten bits are 1021.
hash_of_host : svc_hash_for_address host.ip ≡ 1021
unfolding svc_hash_for_address
hash_of_host = refl

abbrev fresh_bucket : Bucket
fresh_bucket = record zero_bucket { type = na_ip; last_time = pos 1000 }

-- Ten requests at once pass, the eleventh does not, and one more passes a second later.
burst_of_ten :
    (ask fresh_bucket
      (1000 ∷ 1000 ∷ 1000 ∷ 1000 ∷ 1000 ∷ 1000 ∷ 1000 ∷ 1000 ∷ 1000 ∷ 1000 ∷ 1000 ∷ 2000 ∷ [])
      10
      1000).0
    ≡ 11
unfolding ask svc_rate_limit drain quot rem to_schar ◌-ℤ◌ ◌+ℤ◌
burst_of_ten = refl

abbrev request : Request
request = record { from = host; now = pos 1000; later = pos 1001; burst = 10; period = 1000 }

fresh-Holds : Holds fresh_bucket 0 1000
fresh-Holds = record { count = refl; time = refl }

ask_bound_example :
    (ask fresh_bucket (1000 ∷ 2500 ∷ []) 10 1000).0 * 1000 ≤ 10 * 1000 + (4000 - 1000)
ask_bound_example =
    ask_bound fresh_bucket 0 1000 4000 10 1000 (1000 ∷ 2500 ∷ []) fresh-Holds (omega arith)
      (omega arith) (omega arith)

svc_rate_limit_passes_example : (svc_rate_limit fresh_bucket (pos 2000) 10 1000).0 ≡ false
svc_rate_limit_passes_example =
    svc_rate_limit_passes fresh_bucket 0 1000 2000 10 1000 fresh-Holds (omega arith) (omega arith)
      (omega arith) (omega arith) (inl (omega arith))

serve-initial-WellLinked_example : WellLinked (serve initial (request ∷ request ∷ []))
unfolding type_eq
serve-initial-WellLinked_example =
    serve-initial-WellLinked (request ∷ request ∷ []) (refl, (refl, tt))

svc_bucket_for_address-Allocated_example :
    Allocated initial host
      (pos 1000)
      10
      1000
      0
      (svc_bucket_for_address initial host (pos 1000) 10 1000)
unfolding type_eq
svc_bucket_for_address-Allocated_example =
    svc_bucket_for_address-Allocated initial (λ h. []) host (pos 1000) 10 1000 initial-Inv refl

abbrev used : Limiter
used = claim initial 0 host (svc_hash_for_address host.ip) (pos 1000)

host-live : type_eq host.type na_bot ≡ false
unfolding type_eq
host-live = refl

initial-free : is_free (initial.buckets 0) ≡ true
unfolding type_eq
initial-free = refl

no_chain : ℕ → List ℕ
no_chain h = []

host-new : (a : ℕ) → a ∈ no_chain (svc_hash_for_address host.ip) → (initial.buckets a).ip ≢ host.ip
unfolding no_chain
host-new a m = ground arith

used-WellLinked : WellLinked used
unfolding no_chain
used-WellLinked = record {
  chain = _;
  inv =
      claim-Inv initial no_chain initial-Inv 0 (omega arith) initial-free host (pos 1000) host-live
        host-new;
}
