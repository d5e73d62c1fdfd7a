-- ===== src/RateLimit/Invariant/Lookup.antt =====
-- `SVC_BucketForAddress` as a whole.
use codextended.Prelude.{
  ℕ, zero, suc, ◌+◌, ◌≤◌, ◌<◌, ◌≡◌, ◌≢◌, refl, sym, ap, ◌∙◌, true, false, inl, inr, Option, none,
  some, List, ◌==◌, ==_iff, arith, Bool-cases, ℤ, pos,
}
use codextended.Net.{na_bot, type_eq, Adr, Ip}
use codextended.Net.Laws.{ip_eq_iff}
use codextended.RateLimit.{
  Bucket, Limiter, max_buckets, is_expired, reclaim, claim, alloc_loop, bucket_of, chain_loop,
  Search, found, absent, out_of_fuel, svc_hash_for_address, svc_bucket_for_address,
}
use codextended.RateLimit.Chain.{◌∈◌, chain_loop-Finds, Finds, length-le_of_Distinct}
use codextended.RateLimit.Invariant.{is_free, Inv}
use codextended.RateLimit.Invariant.Reclaim
use codextended.RateLimit.Invariant.Reclaim.{reclaim-Inv}
use codextended.RateLimit.Invariant.Claim
use codextended.RateLimit.Invariant.Claim.{claim-Inv, claim-type, claim-ip}

-- A bucket of the address, or, from place `i` on, no bucket that is free or expired.
abbrev pub Serves : Limiter → Adr → ℤ → ℕ → ℕ → ℕ → Limiter × Option ℕ → Type 0
Serves s from now burst period i (s', some j) =
    (j < max_buckets) × (is_free (s'.buckets j) ≡ false) × ((s'.buckets j).ip ≡ from.ip)
Serves s from now burst period i (s', none) =
    (s' ≡ s)
    × ((a : ℕ)
        → i ≤ a
        → a < max_buckets
        → (is_free (s.buckets a) ≡ false) × (is_expired (s.buckets a) now burst period ≡ false))

pub record Allocated (s : Limiter) (from : Adr) (now : ℤ) (burst period i : ℕ)
    (r : Limiter × Option ℕ) : Type 0 where
  pub chain : ℕ → List ℕ
  pub inv : Inv r.0 chain
  pub serves : Serves s from now burst period i r

not-is_expired-idle :
    (b : Bucket) (now : ℤ) (burst period : ℕ)
    → b.last_time ≡ pos 0
    → is_expired b now burst period ≡ false
unfolding is_expired
not-is_expired-idle b now burst period e = ground arith

module _ (from : Adr) (now : ℤ) (burst period : ℕ) (live : type_eq from.type na_bot ≡ false) where
  IsNew : (ℕ → List ℕ) → Limiter → Type 0
  IsNew chain s = (a : ℕ) → a ∈ chain (svc_hash_for_address from.ip) → (s.buckets a).ip ≢ from.ip

  claim-Allocated :
      (s t : Limiter) (chain : ℕ → List ℕ) (i j : ℕ)
      → Inv t chain
      → i < max_buckets
      → is_free (t.buckets i) ≡ true
      → IsNew chain t
      → Allocated s from now burst period j
          (claim t i from (svc_hash_for_address from.ip) now, some i)
  unfolding IsNew
  claim-Allocated s t chain i j v b free new = record {
    chain = Claim.after t chain v i b free from now live new;
    inv = claim-Inv t chain v i b free from now live new;
    serves = (
      b,
      rw (claim-type t i from (svc_hash_for_address from.ip) now) live,
      claim-ip t i from (svc_hash_for_address from.ip) now,
    );
  }

  reclaim-IsNew :
      (s : Limiter) (chain : ℕ → List ℕ) (v : Inv s chain) (i : ℕ) (b : i < max_buckets)
      (busy : is_free (s.buckets i) ≡ false)
      → IsNew chain s
      → IsNew (Reclaim.after s chain v i b busy) (reclaim s i)
  unfolding IsNew
  reclaim-IsNew s chain v i b busy new a m e =
      let h = svc_hash_for_address from.ip in
      new a (Reclaim.mem-after s chain v i b busy h a m) (
        sym (Reclaim.kept s chain v i b busy a (Reclaim.ne-of-after s chain v i b busy h a m)).1
        ∙ e)

  expired-busy :
      (s : Limiter) (chain : ℕ → List ℕ) (i : ℕ)
      → Inv s chain
      → i < max_buckets
      → is_expired (s.buckets i) now burst period ≡ true
      → is_free (s.buckets i) ≡ false
  expired-busy s chain i v b e = elim (Bool-cases (is_free (s.buckets i))) [
    | inl f ↦ ground (arith, not-is_expired-idle (s.buckets i) now burst period (v.idle i b f))
    | inr n ↦ n
  ]

  alloc-next :
      (s : Limiter) (i : ℕ) (r : Limiter × Option ℕ)
      → is_free (s.buckets i) ≡ false
      → is_expired (s.buckets i) now burst period ≡ false
      → Serves s from now burst period (suc i) r
      → Serves s from now burst period i r
  alloc-next s i (t, some j) f e h = h
  alloc-next s i (t, none) f e h = (
    h.0,
    λ a p b. elim (Bool-cases (a == i)) [
      | inl here ↦ rw ((==_iff a i).0 here) (f, e)
      | inr there ↦ h.1 a (ground arith) b
    ],
  )

  alloc_loop-Allocated :
      (left i : ℕ) (s : Limiter) (chain : ℕ → List ℕ)
      → Inv s chain
      → IsNew chain s
      → i + left ≡ max_buckets
      → Allocated s from now burst period i
          (alloc_loop left i s from (svc_hash_for_address from.ip) now burst period)
  unfolding alloc_loop
  alloc_loop-Allocated zero i s chain v new n = record {
    chain = chain;
    inv = v;
    serves = (refl, λ a p b. absurd (omega arith));
  }
  alloc_loop-Allocated (suc left) i s chain v new n =
      elim (Bool-cases (is_expired (s.buckets i) now burst period)) [
        | inl e ↦
            let busy = expired-busy s chain i v (omega arith) e in
            let cleaned = reclaim-Inv s chain v i (omega arith) busy in
            rw (e, cleaned.1)
              (claim-Allocated s (reclaim s i) (Reclaim.after s chain v i (omega arith) busy) i i
                cleaned.0 (omega arith) cleaned.1
                (reclaim-IsNew s chain v i (omega arith) busy new))
        | inr fresh ↦ rw fresh (elim (Bool-cases (is_free (s.buckets i))) [
          | inl free ↦ rw free (claim-Allocated s s chain i i v (omega arith) free new)
          | inr busy ↦
              let rest = alloc_loop-Allocated left (suc i) s chain v new (omega arith) in
              rw busy (record {
                chain = rest.chain;
                inv = rest.inv;
                serves = alloc-next s i _ busy fresh rest.serves;
              })
        ])
      ]

  search-Allocated :
      (s : Limiter) (chain : ℕ → List ℕ)
      → Inv s chain
      → (r : Search) → Finds s.buckets from.ip (chain (svc_hash_for_address from.ip)) r
      → Allocated s from now burst period 0 (bucket_of s from now burst period r)
  unfolding bucket_of
  search-Allocated s chain v (found i) f =
      let m = v.member (svc_hash_for_address from.ip) i f.0 in
      record {
        chain = chain;
        inv = v;
        serves = (m.below, m.live, (ip_eq_iff (s.buckets i).ip from.ip).0 f.1);
      }
  search-Allocated s chain v absent f =
      alloc_loop-Allocated max_buckets 0 s chain v
        (unfold IsNew in λ a m e. ground (arith, f a m, ip_eq_iff (s.buckets a).ip from.ip))
        (omega arith)
  search-Allocated s chain v out_of_fuel f = absurd f

-- The fuel of the walk is enough in every chain.
walk-Finds :
    (s : Limiter) (chain : ℕ → List ℕ)
    → Inv s chain
    → (ip : Ip) (h : ℕ)
    → Finds s.buckets ip (chain h) (chain_loop max_buckets s.buckets ip (s.heads h))
walk-Finds s chain v ip h =
    chain_loop-Finds max_buckets s.buckets ip none (s.heads h) (chain h) (v.links h)
      (length-le_of_Distinct max_buckets (chain h) (v.distinct h) (λ a m. (v.member h a m).below))

-- In a well-linked pool `SVC_BucketForAddress` finds or takes a bucket, and leaves the pool well
-- linked; the bucket returned is live and holds the address. It returns null only when the pool is
-- as before and every bucket in it is taken and not expired.
pub svc_bucket_for_address-Allocated :
    (s : Limiter) (chain : ℕ → List ℕ) (from : Adr) (now : ℤ) (burst period : ℕ)
    → Inv s chain
    → type_eq from.type na_bot ≡ false
    → Allocated s from now burst period 0 (svc_bucket_for_address s from now burst period)
unfolding svc_bucket_for_address
svc_bucket_for_address-Allocated s chain from now burst period v live =
    search-Allocated from now burst period live s chain v _
      (walk-Finds s chain v from.ip (svc_hash_for_address from.ip))

search-found :
    (s : Limiter) (chain : ℕ → List ℕ) (ip : Ip) (h i : ℕ)
    → Inv s chain
    → i ∈ chain h
    → (s.buckets i).ip ≡ ip
    → (r : Search) → Finds s.buckets ip (chain h) r
    → r ≡ found i
search-found s chain ip h i v m e (found j) f =
    ap found (v.unique h j i f.0 m ((ip_eq_iff (s.buckets j).ip ip).0 f.1 ∙ sym e))
search-found s chain ip h i v m e absent f = ground (arith, f i m, ip_eq_iff (s.buckets i).ip ip)
search-found s chain ip h i v m e out_of_fuel f = absurd f

-- An address that has a bucket gets that one, and nothing changes.
pub svc_bucket_for_address-again :
    (s : Limiter) (chain : ℕ → List ℕ) (from : Adr) (now : ℤ) (burst period i : ℕ)
    → Inv s chain
    → i < max_buckets
    → is_free (s.buckets i) ≡ false
    → (s.buckets i).ip ≡ from.ip
    → svc_bucket_for_address s from now burst period ≡ (s, some i)
unfolding svc_bucket_for_address bucket_of
svc_bucket_for_address-again s chain from now burst period i v b live e =
    ap (bucket_of s from now burst period) (
      search-found s chain from.ip (svc_hash_for_address from.ip) i v mem e _
        (walk-Finds s chain v from.ip (svc_hash_for_address from.ip)))
  where
    mem : i ∈ chain (svc_hash_for_address from.ip)
    mem =
        let here = v.listed i b live in
        ground (arith, here, (v.member (s.buckets i).hash i here).ip_hash)
