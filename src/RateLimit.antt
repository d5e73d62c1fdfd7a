-- ===== src/RateLimit.antt =====
-- The rate limiter of src/sv_main.c over the structures of src/server.h: a pool of leaky buckets,
-- each in a doubly linked chain of its hash. A pointer to a bucket is its place in the pool.
-- `burst` and `period` are the positive constants that the callers pass. `Sys_Milliseconds` is an
-- argument; `long` is wide enough for the hash.
pub mod Leak
pub mod Outbound
pub mod Chain
pub mod Unlink
pub mod Invariant
use Prim.Native.Nat.{bit_xor}
use codextended.Prelude.{
  ℕ, zero, suc, ◌+◌, ◌-◌, ◌*◌, ◌/◌, ◌%◌, Bool, true, false, not, ◌&&◌, ◌||◌, Option, none, some,
  ◌==◌, if◌then◌else◌, ℤ, pos, ◌+ℤ◌, ◌-ℤ◌, ltb_ℤ, quot, rem, to_schar, arith, write,
}
use codextended.Net.{AdrType, na_bot, type_eq, Ip, ip_eq, Adr}

pub record Bucket : Type 0 where
  pub type : AdrType
  pub ip : Ip
  pub last_time : ℤ
  pub burst : ℤ
  pub hash : ℕ
  pub prev : Option ℕ
  pub next : Option ℕ

abbrev pub max_buckets : ℕ
max_buckets = 16384

abbrev pub max_hashes : ℕ
max_hashes = 1024

-- `buckets`, `bucketHashes` and `outboundLeakyBucket`.
pub record Limiter : Type 0 where
  pub buckets : ℕ → Bucket
  pub heads : ℕ → Option ℕ
  pub outbound : Bucket

-- `memset( bucket, 0, sizeof( leakyBucket_t ) )`; `NA_BOT` is 0.
abbrev pub zero_bucket : Bucket
zero_bucket = record {
  type = na_bot;
  ip = record { b0 = 0; b1 = 0; b2 = 0; b3 = 0 };
  last_time = pos 0;
  burst = pos 0;
  hash = 0;
  prev = none;
  next = none;
}

-- `& (MAX_HASHES - 1)` keeps the low ten bits.
unfoldable pub svc_hash_for_address : Ip → ℕ
svc_hash_for_address ip =
    let hash = ip.b0 * 119 + ip.b1 * 120 + ip.b2 * 121 + ip.b3 * 122 in
    bit_xor (bit_xor hash (hash / 1024)) (hash / 1048576) % max_hashes

-- The walk along a chain.
pub data Search : Type 0 where
  found : ℕ → Search
  absent out_of_fuel : Search

unfoldable pub chain_loop : ℕ → (ℕ → Bucket) → Ip → Option ℕ → Search
chain_loop fuel buckets ip none = absent
chain_loop zero buckets ip (some i) = out_of_fuel
chain_loop (suc fuel) buckets ip (some i) =
    let rest = chain_loop fuel buckets ip (buckets i).next in
    if ip_eq (buckets i).ip ip then found i else rest

unfoldable pub is_expired : Bucket → ℤ → ℕ → ℕ → Bool
is_expired b now burst period =
    let interval = now -ℤ b.last_time in
    ltb_ℤ (pos 0) b.last_time && (ltb_ℤ (pos (burst * period)) interval || ltb_ℤ interval (pos 0))

-- `bucket->prev->next = …`, if there is a `prev`; `set_prev` likewise.
unfoldable pub set_next : (ℕ → Bucket) → Option ℕ → Option ℕ → ℕ → Bucket
set_next bs none v = bs
set_next bs (some a) v = write bs a (record (bs a) { next = v })

unfoldable pub set_prev : (ℕ → Bucket) → Option ℕ → Option ℕ → ℕ → Bucket
set_prev bs none v = bs
set_prev bs (some a) v = write bs a (record (bs a) { prev = v })

abbrev pub is_none {ℓ} : {A : Type ℓ} → Option A → Bool
is_none none = true
is_none (some a) = false

-- Takes bucket `i` out of its chain and clears it.
unfoldable pub reclaim : Limiter → ℕ → Limiter
reclaim s i =
    let b = s.buckets i in
    let linked = set_prev (set_next s.buckets b.prev b.next) b.next b.prev in
    record s {
      buckets = write linked i zero_bucket;
      heads = if is_none b.prev then write s.heads b.hash b.next else s.heads;
    }

-- Fills the free bucket `i` and puts it at the head of the chain of its hash.
unfoldable pub claim : Limiter → ℕ → Adr → ℕ → ℤ → Limiter
claim s i from hash now =
    let head = s.heads hash in
    let filled = record (s.buckets i) {
      type = from.type;
      ip = from.ip;
      last_time = now;
      burst = pos 0;
      hash = hash;
      next = head;
    } in
    let linked = set_prev (write s.buckets i filled) head (some i) in
    record s {
      buckets = write linked i (record (linked i) { prev = none });
      heads = write s.heads hash (some i);
    }

-- `for ( i = 0; i < MAX_BUCKETS; i++ )`: `left` rounds are left, and `i` is the next place.
unfoldable pub alloc_loop : ℕ → ℕ → Limiter → Adr → ℕ → ℤ → ℕ → ℕ → Limiter × Option ℕ
alloc_loop zero i s from hash now burst period = (s, none)
alloc_loop (suc left) i s from hash now burst period =
    let s' = if is_expired (s.buckets i) now burst period then reclaim s i else s in
    let rest = alloc_loop left (suc i) s' from hash now burst period in
    if type_eq (s'.buckets i).type na_bot then (claim s' i from hash now, some i) else rest

-- What follows the walk. `none` in the second part is the null pointer: no bucket could be had.
unfoldable pub bucket_of : Limiter → Adr → ℤ → ℕ → ℕ → Search → Limiter × Option ℕ
bucket_of s from now burst period (found i) = (s, some i)
bucket_of s from now burst period absent =
    alloc_loop max_buckets 0 s from (svc_hash_for_address from.ip) now burst period
bucket_of s from now burst period out_of_fuel = (s, none)

unfoldable pub svc_bucket_for_address : Limiter → Adr → ℤ → ℕ → ℕ → Limiter × Option ℕ
svc_bucket_for_address s from now burst period =
    bucket_of s from now burst period
      (chain_loop max_buckets s.buckets from.ip (s.heads (svc_hash_for_address from.ip)))

-- `SVC_RateLimit` on a bucket that is there: whether to drop the request, and the bucket after.
unfoldable pub drain : Bucket → ℤ → ℕ → Bucket
drain b now period =
    let interval = now -ℤ b.last_time in
    let expired = quot interval period in
    if ltb_ℤ b.burst expired || ltb_ℤ interval (pos 0)
    then record b { burst = pos 0; last_time = now }
    else record b { burst = to_schar (b.burst -ℤ expired); last_time = now -ℤ rem interval period }

unfoldable pub svc_rate_limit : Bucket → ℤ → ℕ → ℕ → Bool × Bucket
svc_rate_limit b now burst period =
    let b' = drain b now period in
    if ltb_ℤ b'.burst (pos burst)
    then (false, record b' { burst = to_schar (b'.burst +ℤ pos 1) })
    else (true, b')

-- `SVC_RateLimit` on a pointer into the pool; null always limits.
unfoldable pub svc_rate_limit_at : Limiter × Option ℕ → ℤ → ℕ → ℕ → Bool × Limiter
svc_rate_limit_at (s, none) now burst period = (true, s)
svc_rate_limit_at (s, some i) now burst period =
    let (limited, b) = svc_rate_limit (s.buckets i) now burst period in
    (limited, record s { buckets = write s.buckets i b })

-- The clock is read once for the bucket and again for the limit.
unfoldable pub svc_rate_limit_address : Limiter → Adr → ℤ → ℤ → ℕ → ℕ → Bool × Limiter
svc_rate_limit_address s from now later burst period =
    svc_rate_limit_at (svc_bucket_for_address s from now burst period) later burst period

-- `SVC_RateLimit( &outboundLeakyBucket, … )`.
unfoldable pub svc_rate_limit_outbound : Limiter → ℤ → ℕ → ℕ → Bool × Limiter
svc_rate_limit_outbound s now burst period =
    let (limited, b) = svc_rate_limit s.outbound now burst period in
    (limited, record s { outbound = b })
