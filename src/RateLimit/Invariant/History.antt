-- ===== src/RateLimit/Invariant/History.antt =====
-- The pool stays well linked through any history of requests.
use codextended.Prelude.{
  write, ℕ, ◌≡◌, refl, sym, ◌∙◌, Bool, true, false, inl, inr, Option, none, some, List, [], ◌∷◌,
  ◌==◌, ==_iff, arith, Bool-cases, ℤ, All,
}
use codextended.Net.{na_bot, type_eq, Adr}
use codextended.RateLimit.{
  Bucket, Limiter, zero_bucket, drain, svc_rate_limit, svc_rate_limit_at, svc_bucket_for_address,
  svc_rate_limit_address,
}
use codextended.RateLimit.Chain.{Chain-frame}
use codextended.RateLimit.Invariant.{is_free, Inv}
use codextended.RateLimit.Invariant.Lookup.{Allocated, svc_bucket_for_address-Allocated}

-- Two buckets with one place in the pool: they differ in count and time at most.
pub record SamePlace (a b : Bucket) : Type 0 where
  pub type : a.type ≡ b.type
  pub ip : a.ip ≡ b.ip
  pub hash : a.hash ≡ b.hash
  pub prev : a.prev ≡ b.prev
  pub next : a.next ≡ b.next

svc_rate_limit-SamePlace :
    (b : Bucket) (now : ℤ) (burst period : ℕ) → SamePlace (svc_rate_limit b now burst period).1 b
unfolding svc_rate_limit drain
svc_rate_limit-SamePlace b now burst period = record {
  type = ground arith;
  ip = ground arith;
  hash = ground arith;
  prev = ground arith;
  next = ground arith;
}

module _ (s : Limiter) (chain : ℕ → List ℕ) (v : Inv s chain) (i : ℕ)
    (live : is_free (s.buckets i) ≡ false) (b : Bucket) (p : SamePlace b (s.buckets i)) where
  abbrev written : ℕ → Bucket
  written = write s.buckets i b

  place : (a : ℕ) → SamePlace (written a) (s.buckets a)
  place a = elim (Bool-cases (a == i)) [
    | inl e ↦ rw (e, (==_iff a i).0 e) p
    | inr n ↦ rw n (record { type = refl; ip = refl; hash = refl; prev = refl; next = refl })
  ]

  write-Inv : Inv (record s { buckets = written }) chain
  write-Inv = record {
    links = λ h.
        Chain-frame s.buckets written none (s.heads h) (chain h)
          (λ a m. ((place a).prev, (place a).next)) (v.links h);
    distinct = v.distinct;
    member = λ h a m.
        let old = v.member h a m in
        record {
          below = old.below;
          hash = (place a).hash ∙ old.hash;
          live = rw (place a).type old.live;
          ip_hash = rw (place a).ip old.ip_hash;
        };
    listed = λ a below l. rw (place a).hash (v.listed a below (rw (place a).type at l));
    unique = λ h a c m n e. v.unique h a c m n (sym (place a).ip ∙ e ∙ (place c).ip);
    idle = λ a below f. let old = rw (place a).type at f in rw (ne-free a old) (v.idle a below old);
  }
    where
      ne-free : (a : ℕ) → is_free (s.buckets a) ≡ true → (a == i) ≡ false
      ne-free a f = ground arith

pub record WellLinked (s : Limiter) : Type 0 where
  pub chain : ℕ → List ℕ
  pub inv : Inv s chain

-- A request of `SVC_RateLimitAddress`, with the two readings of the clock.
pub record Request : Type 0 where
  pub from : Adr
  pub now : ℤ
  pub later : ℤ
  pub burst : ℕ
  pub period : ℕ

abbrev pub limit : Limiter → Request → Bool × Limiter
limit s r = svc_rate_limit_address s r.from r.now r.later r.burst r.period

limited-WellLinked :
    (s : Limiter) (r : Request) (t : Limiter × Option ℕ)
    → Allocated s r.from r.now r.burst r.period 0 t
    → WellLinked (svc_rate_limit_at t r.later r.burst r.period).1
unfolding svc_rate_limit_at
limited-WellLinked s r (t, none) a = record { chain = a.chain; inv = a.inv }
limited-WellLinked s r (t, some i) a = record {
  chain = a.chain;
  inv =
      write-Inv t a.chain a.inv i a.serves.1 _
        (svc_rate_limit-SamePlace (t.buckets i) r.later r.burst r.period);
}

limit-WellLinked :
    (s : Limiter) (r : Request)
    → WellLinked s
    → type_eq r.from.type na_bot ≡ false
    → WellLinked (limit s r).1
unfolding svc_rate_limit_address
limit-WellLinked s r w live =
    limited-WellLinked s r (svc_bucket_for_address s r.from r.now r.burst r.period)
      (svc_bucket_for_address-Allocated s w.chain r.from r.now r.burst r.period w.inv live)

-- The pool at the start of the program.
abbrev pub initial : Limiter
initial = record { buckets = λ i. zero_bucket; heads = λ h. none; outbound = zero_bucket }

pub initial-Inv : Inv initial (λ h. [])
unfolding type_eq
initial-Inv = record {
  links = λ h. refl;
  distinct = λ h. tt;
  member = λ h a m. ground arith;
  listed = λ a b l. ground arith;
  unique = λ h a b m n e. ground arith;
  idle = λ a b f. refl;
}

pub serve : Limiter → List Request → Limiter
serve s [] = s
serve s (r ∷ rs) = serve (limit s r).1 rs

serve-WellLinked :
    (rs : List Request) (s : Limiter)
    → WellLinked s
    → All (λ (r : Request). type_eq r.from.type na_bot ≡ false) rs
    → WellLinked (serve s rs)
unfolding serve
serve-WellLinked [] s w h = w
serve-WellLinked (r ∷ rs) s w h = serve-WellLinked rs (limit s r).1 (limit-WellLinked s r w h.0) h.1

-- After any sequence of requests from addresses that are not bots, whatever the clock does, the
-- buckets form well-linked chains, with one bucket at most for each address.
pub serve-initial-WellLinked :
    (rs : List Request)
    → All (λ (r : Request). type_eq r.from.type na_bot ≡ false) rs
    → WellLinked (serve initial rs)
serve-initial-WellLinked rs h =
    serve-WellLinked rs initial (record { chain = λ h. []; inv = initial-Inv }) h
