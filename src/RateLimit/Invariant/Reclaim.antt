-- ===== src/RateLimit/Invariant/Reclaim.antt =====
-- Reclaiming a live bucket keeps the pool well linked.
use codextended.Prelude.{
  write, ℕ, ◌<◌, ◌≡◌, refl, sym, subst, ◌∙◌, true, false, inl, inr, Option, none, some, List, [],
  ◌∷◌, ◌==◌, ==_iff, ==_refl, if◌then◌else◌, arith, Bool-cases, pos,
}
use codextended.Net.{type_eq}
use codextended.RateLimit.{
  Bucket, Limiter, max_buckets, zero_bucket, is_none, set_next, set_prev, reclaim,
}
use codextended.RateLimit.Chain.{
  has, ◌∈◌, ◌∉◌, Distinct, erase, Chain, Chain-frame, has-erase_ne, has-erase_self, erase-Distinct,
  not-has-erase,
}
use codextended.RateLimit.Unlink.{
  relink, relink-Chain, skip, relink-prev, relink-next, next-member, prev-member,
}
use codextended.RateLimit.Invariant.{is_free, Member, Inv}

module _ (bs : ℕ → Bucket) (i a : ℕ) where
  -- What relinking leaves alone.
  relink-type : (relink bs i a).type ≡ (bs a).type
  unfolding set_next set_prev
  relink-type = ground arith

  relink-ip : (relink bs i a).ip ≡ (bs a).ip
  unfolding set_next set_prev
  relink-ip = ground arith

  relink-hash : (relink bs i a).hash ≡ (bs a).hash
  unfolding set_next set_prev
  relink-hash = ground arith

  relink-last_time : (relink bs i a).last_time ≡ (bs a).last_time
  unfolding set_next set_prev
  relink-last_time = ground arith

-- A bucket behind another one has a predecessor.
prev-some :
    (bs : ℕ → Bucket) (i : ℕ) (before p : Option ℕ) (x : ℕ) (xs : List ℕ)
    → Chain bs before p (x ∷ xs)
    → i ∈ xs
    → is_none (bs i).prev ≡ false
prev-some bs i before p x [] c m = ground arith
prev-some bs i before p x (y ∷ xs) c m = elim (Bool-cases (i == y)) [
  | inl here ↦ ground arith
  | inr there ↦ ground (arith, prev-some bs i (some x) (bs x).next y xs c.2)
]

head-skip :
    (bs : ℕ → Bucket) (i : ℕ) (p : Option ℕ) (xs : List ℕ)
    → Chain bs none p xs
    → i ∈ xs
    → (if is_none (bs i).prev then (bs i).next else p) ≡ skip bs i p
head-skip bs i p [] c m = ground arith
head-skip bs i p (x ∷ xs) c m = elim (Bool-cases (i == x)) [
  | inl here ↦ ground arith
  | inr there ↦ ground (arith, prev-some bs i none p x xs c)
]

is_free-zero : is_free zero_bucket ≡ true
unfolding type_eq
is_free-zero = refl

module _ (s : Limiter) (chain : ℕ → List ℕ) (v : Inv s chain) (i : ℕ) (below : i < max_buckets)
    (live : is_free (s.buckets i) ≡ false) where
  abbrev pub after : ℕ → List ℕ
  after = write chain (s.buckets i).hash (erase i (chain (s.buckets i).hash))

  here : i ∈ chain (s.buckets i).hash
  here = v.listed i below live

  -- The links of the buckets in other chains stay.
  other-links :
      (h a : ℕ)
      → (h == (s.buckets i).hash) ≡ false
      → a ∈ chain h
      → ((relink s.buckets i a).prev ≡ (s.buckets a).prev)
        × ((relink s.buckets i a).next ≡ (s.buckets a).next)
  other-links h a ne m = ground (
    arith,
    v.member h a m,
    v.member (s.buckets i).hash a,
    relink-prev s.buckets i a,
    relink-next s.buckets i a,
    next-member s.buckets i a (s.heads (s.buckets i).hash) (chain (s.buckets i).hash)
        (v.links (s.buckets i).hash) here,
    prev-member s.buckets i a (s.heads (s.buckets i).hash) (chain (s.buckets i).hash)
        (v.links (s.buckets i).hash) here,
  )

  not-mem-after : (h : ℕ) → i ∉ after h
  not-mem-after h = elim (Bool-cases (h == (s.buckets i).hash)) [
    | inl e ↦ rw e (has-erase_self i (chain (s.buckets i).hash) (v.distinct (s.buckets i).hash))
    | inr ne ↦
        rw ne (elim (Bool-cases (has i (chain h))) [
          | inl m ↦ ground (arith, v.member h i m)
          | inr n ↦ n
        ])
  ]

  pub mem-after : (h a : ℕ) → a ∈ after h → a ∈ chain h
  mem-after h a m = elim (Bool-cases (h == (s.buckets i).hash)) [
    | inl e ↦ ground (arith, not-has-erase a i (chain (s.buckets i).hash))
    | inr ne ↦ ground arith
  ]

  pub ne-of-after : (h a : ℕ) → a ∈ after h → (a == i) ≡ false
  ne-of-after h a m = elim (Bool-cases (a == i)) [
    | inl e ↦ ground (arith, not-mem-after h)
    | inr n ↦ n
  ]

  -- A bucket other than `i` keeps all but its links.
  pub kept :
      (a : ℕ)
      → (a == i) ≡ false
      → ((reclaim s i).buckets a).type ≡ (s.buckets a).type
        × (((reclaim s i).buckets a).ip ≡ (s.buckets a).ip)
        × (((reclaim s i).buckets a).hash ≡ (s.buckets a).hash)
        × (((reclaim s i).buckets a).last_time ≡ (s.buckets a).last_time)
  unfolding reclaim
  kept a n = rw n (
    relink-type s.buckets i a,
    relink-ip s.buckets i a,
    relink-hash s.buckets i a,
    relink-last_time s.buckets i a,
  )

  heads-here :
      (reclaim s i).heads (s.buckets i).hash ≡ skip s.buckets i (s.heads (s.buckets i).hash)
  unfolding reclaim
  heads-here = ground (
    arith,
    head-skip s.buckets i (s.heads (s.buckets i).hash) (chain (s.buckets i).hash)
        (v.links (s.buckets i).hash) here,
  )

  heads-other : (h : ℕ) → (h == (s.buckets i).hash) ≡ false → (reclaim s i).heads h ≡ s.heads h
  unfolding reclaim
  heads-other h ne = ground arith

  -- The bucket array after, seen from another bucket.
  links-kept :
      (a : ℕ)
      → (a == i) ≡ false
      → (((reclaim s i).buckets a).prev ≡ (relink s.buckets i a).prev)
        × (((reclaim s i).buckets a).next ≡ (relink s.buckets i a).next)
  unfolding reclaim
  links-kept a n = rw n (refl, refl)

  links-here :
      Chain
        (reclaim s i).buckets
        none
        ((reclaim s i).heads (s.buckets i).hash)
        (erase i (chain (s.buckets i).hash))
  links-here = rw heads-here (
      Chain-frame (relink s.buckets i) (reclaim s i).buckets none _ _
        (λ a m. links-kept a (ne-of-after (s.buckets i).hash a (rw ==_refl m)))
        (relink-Chain s.buckets i none (s.heads (s.buckets i).hash) (chain (s.buckets i).hash)
          (v.links (s.buckets i).hash) (v.distinct (s.buckets i).hash) here tt))

  links-other :
      (h : ℕ)
      → (h == (s.buckets i).hash) ≡ false
      → Chain (reclaim s i).buckets none ((reclaim s i).heads h) (chain h)
  links-other h ne = rw (heads-other h ne) (
      Chain-frame s.buckets (reclaim s i).buckets none _ _
        (λ a m.
          let n = ne-of-after h a (rw ne m) in
          (
            (links-kept a n).0 ∙ (other-links h a ne m).0,
            (links-kept a n).1 ∙ (other-links h a ne m).1,
          ))
        (v.links h))

  cleared : (reclaim s i).buckets i ≡ zero_bucket
  unfolding reclaim
  cleared = rw ==_refl

  Member-after : (h a : ℕ) → a ∈ after h → Member ((reclaim s i).buckets a) h a
  Member-after h a m =
      let k = kept a (ne-of-after h a m) in
      let old = v.member h a (mem-after h a m) in
      record {
        below = old.below;
        hash = k.2 ∙ old.hash;
        live = rw k.0 old.live;
        ip_hash = rw k.1 old.ip_hash;
      }

  listed-after :
      (a : ℕ)
      → a < max_buckets
      → is_free ((reclaim s i).buckets a) ≡ false
      → a ∈ after ((reclaim s i).buckets a).hash
  listed-after a b l = elim (Bool-cases (a == i)) [
    | inl e ↦ ground (arith, cleared, is_free-zero)
    | inr n ↦
        let k = kept a n in
        rw k.2 (ground (arith, k.0, v.listed a b, has-erase_ne a i (chain (s.buckets i).hash)))
  ]

  idle-after :
      (a : ℕ)
      → a < max_buckets
      → is_free ((reclaim s i).buckets a) ≡ true
      → ((reclaim s i).buckets a).last_time ≡ pos 0
  idle-after a b f = elim (Bool-cases (a == i)) [
    | inl e ↦ ground (arith, cleared)
    | inr n ↦ let k = kept a n in k.3 ∙ v.idle a b (rw k.0 at f)
  ]

  Distinct-after : (h : ℕ) → Distinct (after h)
  Distinct-after h = elim (Bool-cases (h == (s.buckets i).hash)) [
    | inl e ↦ rw e (erase-Distinct i (chain (s.buckets i).hash) (v.distinct (s.buckets i).hash))
    | inr ne ↦ rw ne (v.distinct h)
  ]

  links-after : (h : ℕ) → Chain (reclaim s i).buckets none ((reclaim s i).heads h) (after h)
  links-after h = elim (Bool-cases (h == (s.buckets i).hash)) [
    | inl e ↦ rw e (
        subst
          (λ k.
            Chain (reclaim s i).buckets none ((reclaim s i).heads k)
              (erase i (chain (s.buckets i).hash)))
          (sym ((==_iff h (s.buckets i).hash).0 e)) links-here)
    | inr ne ↦ rw ne (links-other h ne)
  ]

  -- Reclaiming leaves the pool well linked and the bucket free, and every other bucket keeps its
  -- address, hash and time.
  pub reclaim-Inv : Inv (reclaim s i) after × (is_free ((reclaim s i).buckets i) ≡ true)
  reclaim-Inv = (
    record {
      links = links-after;
      distinct = Distinct-after;
      member = Member-after;
      listed = listed-after;
      unique = λ h a b m n e.
          v.unique h a b (mem-after h a m) (mem-after h b n)
            (sym (kept a (ne-of-after h a m)).1 ∙ e ∙ (kept b (ne-of-after h b n)).1);
      idle = idle-after;
    },
    rw cleared is_free-zero,
  )
