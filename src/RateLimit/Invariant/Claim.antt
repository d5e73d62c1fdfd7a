-- ===== src/RateLimit/Invariant/Claim.antt =====
-- Filling a free bucket and putting it at the head of its chain keeps the pool well linked.
use codextended.Prelude.{
  write, ℕ, ◌<◌, ◌≡◌, ◌≢◌, refl, sym, ◌∙◌, true, false, ◌⊎◌, inl, inr, Option, none, some, List, [],
  ◌∷◌, ◌==◌, ==_iff, if◌then◌else◌, arith, Bool-cases, ℤ, pos,
}
use codextended.Net.{na_bot, type_eq, Adr}
use codextended.RateLimit.{Bucket, Limiter, max_buckets, set_prev, claim, svc_hash_for_address}
use codextended.RateLimit.Chain.{has, ◌∈◌, ◌∉◌, Distinct, Chain, Chain-frame}
use codextended.RateLimit.Unlink.{points}
use codextended.RateLimit.Invariant.{is_free, Member, Inv}

module _ (s : Limiter) (i : ℕ) (from : Adr) (hash : ℕ) (now : ℤ) where
  abbrev claimed : ℕ → Bucket
  claimed = (claim s i from hash now).buckets

  pub claim-type : (claimed i).type ≡ from.type
  unfolding claim set_prev
  claim-type = ground arith

  pub claim-ip : (claimed i).ip ≡ from.ip
  unfolding claim set_prev
  claim-ip = ground arith

  claim-hash : (claimed i).hash ≡ hash
  unfolding claim set_prev
  claim-hash = ground arith

  claim-prev : (claimed i).prev ≡ none
  unfolding claim
  claim-prev = ground arith

  claim-next : (claimed i).next ≡ s.heads hash
  unfolding claim set_prev
  claim-next = ground arith

  -- A bucket other than `i` keeps all but its `prev`.
  claim-kept :
      (a : ℕ)
      → (a == i) ≡ false
      → ((claimed a).type ≡ (s.buckets a).type)
        × ((claimed a).ip ≡ (s.buckets a).ip)
        × ((claimed a).hash ≡ (s.buckets a).hash)
        × ((claimed a).last_time ≡ (s.buckets a).last_time)
        × ((claimed a).next ≡ (s.buckets a).next)
        × ((claimed a).prev ≡ (if points (s.heads hash) a then some i else (s.buckets a).prev))
  unfolding claim set_prev
  claim-kept a n = ground arith

  claim-heads :
      (h : ℕ) → (claim s i from hash now).heads h ≡ (if h == hash then some i else s.heads h)
  unfolding claim
  claim-heads h = refl

module _ (s : Limiter) (chain : ℕ → List ℕ) (v : Inv s chain) (i : ℕ) (below : i < max_buckets)
    (free : is_free (s.buckets i) ≡ true) (from : Adr) (now : ℤ)
    (live : type_eq from.type na_bot ≡ false)
    (new : (a : ℕ) → a ∈ chain (svc_hash_for_address from.ip) → (s.buckets a).ip ≢ from.ip) where
  abbrev hash : ℕ
  hash = svc_hash_for_address from.ip

  abbrev pub after : ℕ → List ℕ
  after = write chain hash (i ∷ chain hash)

  abbrev filled : Limiter
  filled = claim s i from hash now

  not-mem : (h : ℕ) → i ∉ chain h
  not-mem h = elim (Bool-cases (has i (chain h))) [
    | inl m ↦ ground (arith, v.member h i m)
    | inr n ↦ n
  ]

  ne-of-mem : (h a : ℕ) → a ∈ chain h → (a == i) ≡ false
  ne-of-mem h a m = ground (arith, not-mem h)

  -- The buckets behind the head keep their links.
  tail-kept :
      (h : ℕ) (p : Option ℕ) (x : ℕ) (xs : List ℕ)
      → Chain s.buckets none p (x ∷ xs)
      → p ≡ s.heads hash
      → x ∉ xs
      → ((a : ℕ) → a ∈ x ∷ xs → (a == i) ≡ false)
      → Chain filled.buckets (some i) p (x ∷ xs)
  tail-kept h p x xs c e d ne = (
    c.0,
    ground (arith, claim-kept s i from hash now x (ne x (ground arith))),
    rw (claim-kept s i from hash now x (ne x (ground arith))).4 (
        Chain-frame s.buckets filled.buckets (some x) (s.buckets x).next xs
          (λ a m. ground (arith, claim-kept s i from hash now a (ne a (ground arith)))) c.2),
  )

  links-tail :
      (xs : List ℕ)
      → Chain s.buckets none (s.heads hash) xs
      → Distinct xs
      → ((a : ℕ) → a ∈ xs → (a == i) ≡ false)
      → Chain filled.buckets (some i) (s.heads hash) xs
  links-tail [] c d ne = c
  links-tail (x ∷ xs) c d ne = tail-kept hash (s.heads hash) x xs c refl d.0 ne

  links-here : Chain filled.buckets none (some i) (i ∷ chain hash)
  links-here = (
    refl,
    claim-prev s i from hash now,
    rw (claim-next s i from hash now)
        (links-tail (chain hash) (v.links hash) (v.distinct hash) (ne-of-mem hash)),
  )

  head-mem :
      (a : ℕ) (xs : List ℕ)
      → Chain s.buckets none (s.heads hash) xs
      → points (s.heads hash) a ≡ true
      → a ∈ xs
  head-mem a [] c e = ground arith
  head-mem a (x ∷ xs) c e = ground arith

  links-other : (h : ℕ) → (h == hash) ≡ false → Chain filled.buckets none (s.heads h) (chain h)
  links-other h ne =
      Chain-frame s.buckets filled.buckets none (s.heads h) (chain h)
        (λ a m. ground (
          arith,
          claim-kept s i from hash now a (ne-of-mem h a m),
          head-mem a (chain hash) (v.links hash),
          v.member h a m,
          v.member hash a,
        ))
        (v.links h)

  links-after : (h : ℕ) → Chain filled.buckets none (filled.heads h) (after h)
  links-after h = elim (Bool-cases (h == hash)) [
    | inl e ↦ rw (claim-heads s i from hash now h, e) links-here
    | inr ne ↦ rw (claim-heads s i from hash now h, ne) (links-other h ne)
  ]

  Distinct-after : (h : ℕ) → Distinct (after h)
  Distinct-after h = elim (Bool-cases (h == hash)) [
    | inl e ↦ rw e (not-mem hash, v.distinct hash)
    | inr ne ↦ rw ne (v.distinct h)
  ]

  -- A member of a chain after is the new bucket, or one from before.
  mem-after :
      (h a : ℕ) → a ∈ after h → ((a ≡ i) × (h ≡ hash)) ⊎ (((a == i) ≡ false) × (a ∈ chain h))
  mem-after h a m = elim (Bool-cases (h == hash)) [
    | inl e ↦ elim (Bool-cases (a == i)) [
      | inl here ↦ inl ((==_iff a i).0 here, (==_iff h hash).0 e)
      | inr there ↦ inr (there, ground arith)
    ]
    | inr ne ↦ inr (ne-of-mem h a (rw ne at m), rw ne at m)
  ]

  Member-new : Member (filled.buckets i) hash i
  Member-new = record {
    below = below;
    hash = claim-hash s i from hash now;
    live = rw (claim-type s i from hash now) live;
    ip_hash = rw (claim-ip s i from hash now);
  }

  Member-old :
      (h a : ℕ) → (a == i) ≡ false → Member (s.buckets a) h a → Member (filled.buckets a) h a
  Member-old h a n old =
      let k = claim-kept s i from hash now a n in
      record {
        below = old.below;
        hash = k.2 ∙ old.hash;
        live = rw k.0 old.live;
        ip_hash = rw k.1 old.ip_hash;
      }

  Member-after : (h a : ℕ) → a ∈ after h → Member (filled.buckets a) h a
  Member-after h a m = elim (mem-after h a m) [
    | inl (e, f) ↦ rw (e, f) Member-new
    | inr (n, o) ↦ Member-old h a n (v.member h a o)
  ]

  listed-after :
      (a : ℕ)
      → a < max_buckets
      → is_free (filled.buckets a) ≡ false
      → a ∈ after (filled.buckets a).hash
  listed-after a b l = elim (Bool-cases (a == i)) [
    | inl e ↦ rw ((==_iff a i).0 e, claim-hash s i from hash now) (ground arith)
    | inr n ↦ let k = claim-kept s i from hash now a n in rw k.2 (ground (arith, k.0, v.listed a b))
  ]

  idle-after :
      (a : ℕ)
      → a < max_buckets
      → is_free (filled.buckets a) ≡ true
      → (filled.buckets a).last_time ≡ pos 0
  idle-after a b f = elim (Bool-cases (a == i)) [
    | inl e ↦ ground (arith, claim-type s i from hash now)
    | inr n ↦ let k = claim-kept s i from hash now a n in k.3 ∙ v.idle a b (rw k.0 at f)
  ]

  unique-after :
      (h a b : ℕ)
      → a ∈ after h
      → b ∈ after h
      → (filled.buckets a).ip ≡ (filled.buckets b).ip
      → a ≡ b
  unique-after h a b m n e = unique-cases (mem-after h a m) (mem-after h b n)
    where
      unique-cases :
          ((a ≡ i) × (h ≡ hash)) ⊎ (((a == i) ≡ false) × (a ∈ chain h))
          → ((b ≡ i) × (h ≡ hash)) ⊎ (((b == i) ≡ false) × (b ∈ chain h))
          → a ≡ b
      unique-cases (inl p) (inl q) = p.0 ∙ sym q.0
      unique-cases (inl p) (inr q) =
          ground (arith, claim-ip s i from hash now, claim-kept s i from hash now b q.0, new b)
      unique-cases (inr p) (inl q) =
          ground (arith, claim-ip s i from hash now, claim-kept s i from hash now a p.0, new a)
      unique-cases (inr p) (inr q) =
          v.unique h a b p.1 q.1 (
            sym (claim-kept s i from hash now a p.0).1 ∙ e ∙ (claim-kept s i from hash now b q.0).1)

  -- Claiming a free bucket for an address that has none leaves the pool well linked.
  pub claim-Inv : Inv filled after
  claim-Inv = record {
    links = links-after;
    distinct = Distinct-after;
    member = Member-after;
    listed = listed-after;
    unique = unique-after;
    idle = idle-after;
  }
