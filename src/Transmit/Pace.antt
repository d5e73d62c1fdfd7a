-- ===== src/Transmit/Pace.antt =====
-- The pace of messages keeps the client's rate.
use native.Mathlib.Nat.{div-add-mod', mod-lt, mul-le-mul_left, mul-le-mul_right}
use Prim.Native.Nat.{min, max}
use codextended.Prelude.{
  ℕ, ◌+◌, ◌*◌, ◌/◌, ◌%◌, ◌≤◌, ◌<◌, ◌≡◌, refl, sym, subst, true, false, ltb, if◌then◌else◌, arith, ℤ,
  pos, ◌+ℤ◌, eqb_ℤ, pos_part, is_empty,
}
use codextended.Transmit.{
  Channel, Cvars, Outside, rate_of, sv_rate_msec, delay, wait_msec, is_unlimited, schedule,
  send_message, is_active, set_frame,
}

rate_of-bounds :
    (rate : ℕ) (v : Cvars)
    → v.max_rate_set ≡ pos 1000
    → 1000 ≤ rate
    → (1000 ≤ rate_of rate v)
      × (rate_of rate v ≤ rate)
      × (eqb_ℤ v.max_rate (pos 0) ≡ false → rate_of rate v ≤ max (pos_part v.max_rate) 1000)
unfolding rate_of
rate_of-bounds rate v set low = (ground arith, ground arith, λ n. ground arith)

mul_low : (q r : ℕ) → 1000 ≤ r → q * 1000 ≤ q * r
mul_low q r low = mul-le-mul_left q low

mul_mono : (d e r : ℕ) → d ≤ e → d * r ≤ e * r
mul_mono d e r h = mul-le-mul_right r h

mul-suc : (q r : ℕ) → (q + 1) * r ≡ q * r + r
mul-suc q r = grind arith

msec_bounds : (n r : ℕ) → 1000 ≤ r → (n * 1000 / r ≤ n) × (n * 1000 < (n * 1000 / r + 1) * r)
msec_bounds n r low =
    let d = div-add-mod' (n * 1000) r in
    let m : n * 1000 % r < r = mod-lt (n * 1000) (omega arith) in
    (omega (arith, d, mul_low (n * 1000 / r) r low), omega (arith, d, m, mul-suc (n * 1000 / r) r))

-- `bytes` and 48 more take less than `wait + 1` milliseconds at `rate` bytes a second.
abbrev pub Pays : ℕ → ℕ → ℕ → Type 0
Pays bytes wait rate = (bytes + 48) * 1000 < (wait + 1) * rate

-- What a message of `size` bytes, sent at `now`, leaves for the next one, `wait` milliseconds later.
-- Of a longer message only 1500 bytes count. A `sv_maxRate` below 1000 counts as 1000.
pub record Paced (v : Cvars) (cl after : Channel) (size : ℕ) (now : ℤ) : Type 0 where
  pub wait : ℕ
  pub next : after.next_snapshot_time ≡ now +ℤ pos wait
  pub snapshot : cl.snapshot_msec ≤ wait
  pub at_rate : Pays (min size 1500) wait cl.rate
  pub at_max_rate :
      eqb_ℤ v.max_rate (pos 0) ≡ false → Pays (min size 1500) wait (max (pos_part v.max_rate) 1000)
  pub high : wait ≤ cl.snapshot_msec + 1548
  pub idle : is_active cl.state ≡ false → is_empty cl.download_name ≡ true → 1000 ≤ wait

wait_msec-bounds :
    (cl : Channel) (q : ℕ)
    → (cl.snapshot_msec ≤ wait_msec cl q)
      × (q ≤ wait_msec cl q)
      × (q ≤ 1548 → wait_msec cl q ≤ cl.snapshot_msec + 1548)
      × (is_active cl.state ≡ false → is_empty cl.download_name ≡ true → 1000 ≤ wait_msec cl q)
unfolding wait_msec
wait_msec-bounds cl q = (ground arith, ground arith, λ b. ground arith, λ a e. ground arith)

sv_rate_msec-bounds :
    (rate : ℕ) (v : Cvars) (size : ℕ)
    → 1000 ≤ rate_of rate v
    → (sv_rate_msec rate v size ≤ 1548)
      × Pays (min size 1500) (sv_rate_msec rate v size) (rate_of rate v)
unfolding sv_rate_msec
sv_rate_msec-bounds rate v size low =
    let b = msec_bounds (min size 1500 + 48) (rate_of rate v) low in
    let counted : (if ltb 1500 size then 1500 else size) ≡ min size 1500 = ground arith in
    rw counted (omega (arith, b.0), b.1)

-- More time, or a higher rate, pays as well.
Pays-more :
    (bytes w wait rate top : ℕ) → w ≤ wait → rate ≤ top → Pays bytes w rate → Pays bytes wait top
Pays-more bytes w wait rate top later faster p =
    omega
      (arith, p, mul_mono (w + 1) (wait + 1) rate (omega arith), mul-le-mul_left (wait + 1) faster)

delay-Paced :
    (v : Cvars) (cl : Channel) (size : ℕ) (now : ℤ)
    → v.max_rate_set ≡ pos 1000
    → 1000 ≤ cl.rate
    → Paced v cl (delay v cl size now) size now
unfolding delay
delay-Paced v cl size now set low =
    let r = rate_of-bounds cl.rate v set low in
    let q = sv_rate_msec cl.rate v size in
    let w = wait_msec-bounds cl q in
    let b = sv_rate_msec-bounds cl.rate v size r.0 in
    record {
      wait = wait_msec cl q;
      next = refl;
      snapshot = w.0;
      at_rate =
          Pays-more (min size 1500) q (wait_msec cl q) (rate_of cl.rate v) cl.rate w.1 r.1 b.1;
      at_max_rate =
          λ n. Pays-more (min size 1500) q (wait_msec cl q) (rate_of cl.rate v) _ w.1 (r.2 n) b.1;
      high = w.2 b.0;
      idle = w.3;
    }

schedule-Paced :
    (o : Outside) (v : Cvars) (cl : Channel) (size : ℕ) (now : ℤ) (total : ℕ)
    → v.max_rate_set ≡ pos 1000
    → 1000 ≤ cl.rate
    → is_unlimited o v cl ≡ false
    → Paced v cl (schedule o v cl size now total).0 size now
unfolding schedule
schedule-Paced o v cl size now total set low limited =
    rw limited (delay-Paced v cl size now set low)

-- To a client that stays, whose rate is limited and at least 1000, with `Cvar_Set` setting
-- `sv_maxRate` to 1000: the next snapshot waits as long as the message (1500 bytes of a longer one)
-- takes at the client's rate and, if `sv_maxRate` is not 0, at `sv_maxRate` or 1000 if that is lower,
-- to the millisecond; as long as the client's interval; at least a second when the client is not
-- active and downloads nothing; and never more than the interval and 1548 milliseconds.
pub send_message-Paced :
    (o : Outside) (v : Cvars) (cl : Channel) (size : ℕ) (now : ℤ) (total : ℕ)
    → v.max_rate_set ≡ pos 1000
    → 1000 ≤ cl.rate
    → cl.has_drop_reason ≡ false
    → is_unlimited o v (set_frame cl size now) ≡ false
    → Paced v cl (send_message o v cl size now total).0 size now
unfolding send_message
send_message-Paced o v cl size now total set low stays limited =
    let p = schedule-Paced o v (set_frame cl size now) size now total set low limited in
    subst
      (λ b.
        Paced v cl
          (schedule o v (set_frame (if b then o.drop cl else cl) size now) size now total).0 size
          now)
      (sym stays)
      (record {
        wait = p.wait;
        next = p.next;
        snapshot = p.snapshot;
        at_rate = p.at_rate;
        at_max_rate = p.at_max_rate;
        high = p.high;
        idle = p.idle;
      })
