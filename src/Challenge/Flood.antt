-- ===== src/Challenge/Flood.antt =====
-- `SV_GetChallenge` under a flood of requests.
use codextended.Prelude.{
  ℕ, suc, ◌+◌, ◌-◌, ◌*◌, ◌≤◌, ◌≡◌, sym, subst, inl, inr, if◌then◌else◌, arith, Bool-cases, List, [],
  ◌∷◌, map, is_empty, ℤ, pos,
}
use codextended.Net.{Adr}
use codextended.RateLimit.{Limiter, svc_rate_limit, svc_rate_limit_address, svc_rate_limit_outbound}
use codextended.RateLimit.Leak.{
  Holds, IsOrdered, IsOrdered-weaken, IsOrdered-le, svc_rate_limit-Paid, mul-le,
}
use codextended.RateLimit.Outbound.{svc_rate_limit_address-outbound}
use codextended.Challenge.{Tables, Cvars, Packet, respond, sv_get_challenge}

-- A request, with what it meets: `at` is the outbound bucket's reading of the clock.
pub record Asked : Type 0 where
  pub from : Adr
  pub number : ℤ
  pub search : ℤ
  pub limit : ℤ
  pub at : ℕ
  pub svs_time : ℤ
  pub cvars : Cvars

abbrev pub handle : Limiter → Tables → Asked → Limiter × Tables × List Packet
handle l s a =
    sv_get_challenge l s a.from a.number
      (record { search = a.search; limit = a.limit; outbound = pos a.at; svs_time = a.svs_time })
      a.cvars

-- How many of the requests are answered.
unfoldable pub answers : Limiter → Tables → List Asked → ℕ
answers l s [] = 0
answers l s (a ∷ rest) =
    let (l', s', packets) = handle l s a in
    let more = answers l' s' rest in if is_empty packets then more else suc more

-- What one request costs, in time of the outbound bucket.
record Cost (c l t : ℕ) (after : Limiter) (packets : List Packet) : Type 0 where
  count : ℕ
  time : ℕ
  holds : Holds after.outbound count time
  bounded : count ≤ 10
  past : time ≤ t
  paid : (if is_empty packets then 0 else 100) + c * 100 + l ≤ count * 100 + time

handle-Cost :
    (l : Limiter) (s : Tables) (a : Asked) (c m : ℕ)
    → Holds l.outbound c m
    → c ≤ 10
    → m ≤ a.at
    → Cost c m a.at (handle l s a).0 (handle l s a).2
unfolding sv_get_challenge svc_rate_limit_outbound respond
handle-Cost l s a c m h small later =
    let first = svc_rate_limit_address l a.from a.search a.limit 10 1000 in
    let same : first.1.outbound ≡ l.outbound =
      svc_rate_limit_address-outbound l a.from a.search a.limit 10 1000 in
    elim (Bool-cases first.0) [
      | inl limited ↦ rw limited (record {
        count = c;
        time = m;
        holds = subst (λ b. Holds b c m) (sym same) h;
        bounded = small;
        past = later;
        paid = omega arith;
      })
      | inr passed ↦
          let p =
            svc_rate_limit-Paid first.1.outbound c m a.at 10 100
              (subst (λ b. Holds b c m) (sym same) h) small (omega arith) later in
          rw passed (elim (Bool-cases (svc_rate_limit first.1.outbound (pos a.at) 10 100).0) [
            | inl full ↦ rw full (record {
              count = p.count;
              time = p.time;
              holds = p.holds;
              bounded = p.bounded;
              past = p.past;
              paid = rw full at p.paid;
            })
            | inr free ↦ rw free (record {
              count = p.count;
              time = p.time;
              holds = p.holds;
              bounded = p.bounded;
              past = p.past;
              paid = rw free at p.paid;
            })
          ])
    ]

answers_paid :
    (l : Limiter) (s : Tables) (c m end : ℕ) (asked : List Asked)
    → Holds l.outbound c m
    → c ≤ 10
    → IsOrdered m (map (λ (a : Asked). a.at) asked) end
    → answers l s asked * 100 + c * 100 + m ≤ 10 * 100 + end
unfolding answers
answers_paid l s c m end [] h small o = omega (arith, mul-le c 10 100 small)
answers_paid l s c m end (a ∷ rest) h small o =
    let r = handle l s a in
    let p = handle-Cost l s a c m h small o.0 in
    let more =
      answers_paid r.0 r.1 p.count p.time end rest p.holds p.bounded
        (IsOrdered-weaken (map (λ (a : Asked). a.at) rest) end p.past o.1) in
    elim (Bool-cases (is_empty r.2)) [
      | inl none ↦ rw none (omega (arith, more, rw none at p.paid))
      | inr some ↦ rw some (omega (arith, more, rw some at p.paid))
    ]

-- `SV_GetChallenge` is no amplifier: from whatever addresses requests come, and however many,
-- `n` of them are answered with `n * 100 ≤ 1000 + elapsed` milliseconds.
pub answers_bound :
    (l : Limiter) (s : Tables) (c m end : ℕ) (asked : List Asked)
    → Holds l.outbound c m
    → c ≤ 10
    → IsOrdered m (map (λ (a : Asked). a.at) asked) end
    → answers l s asked * 100 ≤ 1000 + (end - m)
answers_bound l s c m end asked h small o = omega (
  arith,
  answers_paid l s c m end asked h small o,
  IsOrdered-le (map (λ (a : Asked). a.at) asked) m end o,
)
