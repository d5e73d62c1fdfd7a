-- ===== src/RateLimit/Leak.antt =====
-- One leaky bucket over time: `SVC_RateLimit` in natural numbers, and how many requests pass.
use native.Mathlib.Nat.{div-add-mod', mod-lt}
use codextended.Prelude.{
  ℕ, ◌+◌, ◌-◌, ◌*◌, ◌/◌, ◌%◌, ◌≤◌, ◌<◌, ◌≡◌, ◌⊎◌, ap, Bool, false, ltb, if◌then◌else◌, arith,
  Bool-cases, inl, inr, List, [], ◌∷◌, pos, ◌+ℤ◌, ◌-ℤ◌, quot, rem, to_schar,
}
use codextended.RateLimit.{Bucket, drain, svc_rate_limit}

-- The count and the time of the bucket after draining.
abbrev drained : ℕ → ℕ → ℕ → ℕ → ℕ
drained c l t period = if ltb c ((t - l) / period) then 0 else c - (t - l) / period

abbrev mark : ℕ → ℕ → ℕ → ℕ → ℕ
mark c l t period = if ltb c ((t - l) / period) then t else t - (t - l) % period

-- A bucket with count `c` and time `l`.
pub record Holds (b : Bucket) (c l : ℕ) : Type 0 where
  pub count : b.burst ≡ pos c
  pub time : b.last_time ≡ pos l

drain-Holds :
    (b : Bucket) (c l t period : ℕ)
    → Holds b c l
    → c < 128
    → l ≤ t
    → Holds (drain b (pos t) period) (drained c l t period) (mark c l t period)
unfolding drain quot rem to_schar ◌-ℤ◌
drain-Holds b c l t period h small later = ground arith

pub mul-le : (c e p : ℕ) → c ≤ e → c * p ≤ e * p
mul-le c e p h = grind arith

mul-sub : (c e p : ℕ) → e ≤ c → c * p ≡ (c - e) * p + e * p
mul-sub c e p h = let q : c ≡ (c - e) + e = omega arith in omega (arith, ap (λ (x : ℕ). x * p) q)

-- What drains is paid for by the time that passes.
drained_paid :
    (c l t period : ℕ)
    → l ≤ t
    → (c * period + l ≤ drained c l t period * period + mark c l t period)
      × (l ≤ mark c l t period)
      × (mark c l t period ≤ t)
      × (drained c l t period ≤ c)
drained_paid c l t period later = elim (Bool-cases (ltb c ((t - l) / period))) [
  | inl over ↦ rw over (
    omega (arith, mul-le c e period (ground arith), div-add-mod' (t - l) period),
    later,
    omega arith,
    omega arith,
  )
  | inr within ↦ rw within (
    omega (arith, mul-sub c e period (ground arith), div-add-mod' (t - l) period),
    omega (arith, div-add-mod' (t - l) period),
    omega arith,
    omega arith,
  )
]
  where
    e : ℕ
    e = (t - l) / period

to_schar-suc : (d : ℕ) → d < 127 → to_schar (pos d +ℤ pos 1) ≡ pos (d + 1)
unfolding to_schar ◌+ℤ◌
to_schar-suc d h = ground arith

-- The bucket after one request at time `t`, and what it has cost.
pub record Paid (c l t burst period : ℕ) (limited : Bool) (b : Bucket) : Type 0 where
  pub count : ℕ
  pub time : ℕ
  pub holds : Holds b count time
  pub bounded : count ≤ burst
  pub onward : l ≤ time
  pub past : time ≤ t
  pub paid : (if limited then 0 else period) + c * period + l ≤ count * period + time

pub svc_rate_limit-Paid :
    (b : Bucket) (c l t burst period : ℕ)
    → Holds b c l
    → c ≤ burst
    → burst < 128
    → l ≤ t
    → Paid c l t burst period
        (svc_rate_limit b (pos t) burst period).0
        (svc_rate_limit b (pos t) burst period).1
unfolding svc_rate_limit
svc_rate_limit-Paid b c l t burst period h cb small later = elim (Bool-cases (ltb d burst)) [
  | inl below ↦ record {
    count = d + 1;
    time = mark c l t period;
    holds = ground (arith, g, to_schar-suc d (ground arith));
    bounded = ground (arith, p.3);
    onward = p.1;
    past = p.2;
    paid = ground (arith, g, p.0);
  }
  | inr full ↦ record {
    count = d;
    time = mark c l t period;
    holds = ground (arith, g);
    bounded = omega (arith, p.3);
    onward = p.1;
    past = p.2;
    paid = ground (arith, g, p.0);
  }
]
  where
    d : ℕ
    d = drained c l t period

    p :
        (c * period + l ≤ d * period + mark c l t period)
        × (l ≤ mark c l t period)
        × (mark c l t period ≤ t)
        × (d ≤ c)
    p = drained_paid c l t period later

    g : Holds (drain b (pos t) period) d (mark c l t period)
    g = drain-Holds b c l t period h (omega arith) later

-- One bucket asked at each of the given times: how many requests pass, and the bucket after.
unfoldable pub ask : Bucket → List ℕ → ℕ → ℕ → ℕ × Bucket
ask b [] burst period = (0, b)
ask b (t ∷ ts) burst period =
    let (limited, b') = svc_rate_limit b (pos t) burst period in
    let (n, last) = ask b' ts burst period in ((if limited then n else n + 1), last)

-- The times of a run, from `l` on, none after `end`.
abbrev pub IsOrdered : ℕ → List ℕ → ℕ → Type 0
IsOrdered l [] end = l ≤ end
IsOrdered l (t ∷ ts) end = (l ≤ t) × IsOrdered t ts end

pub IsOrdered-weaken :
    {l m : ℕ} (ts : List ℕ) (end : ℕ) → l ≤ m → IsOrdered m ts end → IsOrdered l ts end
IsOrdered-weaken [] end h o = omega arith
IsOrdered-weaken (t ∷ ts) end h o = (omega arith, o.1)

ask_paid :
    (b : Bucket) (c l end burst period : ℕ) (ts : List ℕ)
    → Holds b c l
    → c ≤ burst
    → burst < 128
    → IsOrdered l ts end
    → (ask b ts burst period).0 * period + c * period + l ≤ burst * period + end
unfolding ask
ask_paid b c l end burst period [] h cb small o = omega (arith, mul-le c burst period cb)
ask_paid b c l end burst period (t ∷ ts) h cb small o =
    let r = svc_rate_limit b (pos t) burst period in
    let s = svc_rate_limit-Paid b c l t burst period h cb small o.0 in
    let rest =
      ask_paid r.1 s.count s.time end burst period ts s.holds s.bounded small
        (IsOrdered-weaken ts end s.past o.1) in
    elim (Bool-cases r.0) [
      | inl limited ↦ rw limited (omega (arith, rest, rw limited at s.paid))
      | inr passed ↦ rw passed (omega (arith, rest, rw passed at s.paid))
    ]

pub IsOrdered-le : (ts : List ℕ) (l end : ℕ) → IsOrdered l ts end → l ≤ end
IsOrdered-le [] l end o = o
IsOrdered-le (t ∷ ts) l end o = omega (arith, o.0, IsOrdered-le ts t end o.1)

drain_back :
    (b : Bucket) (l t period : ℕ)
    → b.last_time ≡ pos l
    → t < l
    → (drain b (pos t) period).burst ≡ pos 0
unfolding drain ◌-ℤ◌
drain_back b l t period h back = ground arith

-- However the requests fall, at most `burst` pass and one more for each `period` that goes by
-- since the bucket's time: `n` requests that pass satisfy `n * period ≤ burst * period + elapsed`.
pub ask_bound :
    (b : Bucket) (c l end burst period : ℕ) (ts : List ℕ)
    → Holds b c l
    → c ≤ burst
    → burst < 128
    → IsOrdered l ts end
    → (ask b ts burst period).0 * period ≤ burst * period + (end - l)
ask_bound b c l end burst period ts h cb small o =
    omega (arith, ask_paid b c l end burst period ts h cb small o, IsOrdered-le ts l end o)

expired-pos : (l t period : ℕ) → 0 < period → l + period ≤ t → 0 < (t - l) / period
expired-pos l t period p h = grind (arith, div-add-mod' (t - l) period, mod-lt (t - l) p)

-- A caller is never starved: a request that comes at least one period after the bucket's time
-- passes, and so does any request when the clock has gone back.
pub svc_rate_limit_passes :
    (b : Bucket) (c l t burst period : ℕ)
    → Holds b c l
    → c ≤ burst
    → burst < 128
    → 0 < burst
    → 0 < period
    → (l + period ≤ t) ⊎ (t < l)
    → (svc_rate_limit b (pos t) burst period).0 ≡ false
unfolding svc_rate_limit
svc_rate_limit_passes b c l t burst period h cb small some_burst p (inl late) =
    ground (
      arith,
      drain-Holds b c l t period h (omega arith) (omega arith),
      expired-pos l t period p late,
    )
svc_rate_limit_passes b c l t burst period h cb small some_burst p (inr back) =
    ground (arith, drain_back b l t period h.time back)
