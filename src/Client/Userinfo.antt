-- ===== src/Client/Userinfo.antt =====
-- `SV_UserinfoChanged` on any user info string.
use native.Mathlib.Nat.{div-add-mod', mod-lt}
use codextended.Prelude.{
  ℕ, ◌*◌, ◌/◌, ◌≤◌, ◌<◌, ◌≡◌, refl, Bool, true, false, some, [], ◌∷◌, take, length, length-take-le,
  take_all, All, arith, ℤ, Bytes, codes, ok,
}
use codextended.Strings.{atoi}
use codextended.Strings.Clean.{IsPrintable}
use codextended.Info.{max_info_string}
use codextended.Info.Limit.{info_value_for_key_total, info_set_value_for_key_total}
use codextended.Client.{
  Client, clean_name, set_name, rename, clamp, rate_of, snapshot_msec_of, set_rates,
  userinfo_changed,
}

clean_name-IsPrintable :
    (s : Bytes) → All IsPrintable (clean_name s) × (length (clean_name s) ≤ length s)
unfolding clean_name
clean_name-IsPrintable [] = (tt, omega arith)
clean_name-IsPrintable (c ∷ s) = let rest = clean_name-IsPrintable s in ground arith

mul-bounds : (q n : ℕ) → 1 ≤ n → n ≤ 30 → q ≤ q * n × (q * n ≤ q * 30)
mul-bounds q n low high = (grind arith, grind arith)

snapshot_bounds : (n : ℕ) → 1 ≤ n → n ≤ 30 → (33 ≤ 1000 / n) × (1000 / n ≤ 1000)
snapshot_bounds n low high = (
  omega (arith, div-add-mod' 1000 n, mod-lt 1000 low, mul-bounds (1000 / n) n low high),
  omega (arith, div-add-mod' 1000 n, mod-lt 1000 low, mul-bounds (1000 / n) n low high),
)

rate_of-bounds : (v : Bytes) → (1000 ≤ rate_of v) × (rate_of v ≤ 90000)
unfolding rate_of
rate_of-bounds v = ground arith

clamp-bounds : (i : ℤ) → (1 ≤ clamp 1 30 i) × (clamp 1 30 i ≤ 30)
clamp-bounds i = ground arith

snapshot_msec_of-bounds : (v : Bytes) → (33 ≤ snapshot_msec_of v) × (snapshot_msec_of v ≤ 1000)
unfolding snapshot_msec_of
snapshot_msec_of-bounds [] = (omega arith, omega arith)
snapshot_msec_of-bounds (c ∷ s) =
    let i = atoi (c ∷ s) in snapshot_bounds (clamp 1 30 i) (clamp-bounds i).0 (clamp-bounds i).1

-- What a change of the user info leaves in the client.
pub record Changed (cl c : Client) (namemuted : Bool) : Type 0 where
  pub rate_low : 1000 ≤ c.rate
  pub rate_high : c.rate ≤ 90000
  pub snapshot_low : 33 ≤ c.snapshot_msec
  pub snapshot_high : c.snapshot_msec ≤ 1000
  pub short : length c.userinfo ≤ max_info_string
  pub name : namemuted ≡ false → All IsPrintable c.name × (length c.name ≤ 31)
  pub muted : namemuted ≡ true → (c.name ≡ cl.name) × (c.userinfo ≡ cl.userinfo)

set_rates-Changed :
    (cl d : Client) (namemuted : Bool)
    → length d.userinfo ≤ max_info_string
    → (namemuted ≡ false → All IsPrintable d.name × (length d.name ≤ 31))
    → (namemuted ≡ true → (d.name ≡ cl.name) × (d.userinfo ≡ cl.userinfo))
    → (c : Client) × (set_rates d ≡ ok (some c)) × Changed cl c namemuted
unfolding set_rates
set_rates-Changed cl d namemuted short named muted =
    let (rate, e, b) = (info_value_for_key_total d.userinfo (codes "rate")).0 (omega arith) in
    let (snaps, g, a) = (info_value_for_key_total d.userinfo (codes "snaps")).0 (omega arith) in
    (
      record d { rate = rate_of rate; snapshot_msec = snapshot_msec_of snaps },
      rw (e, g) refl,
      record {
        rate_low = (rate_of-bounds rate).0;
        rate_high = (rate_of-bounds rate).1;
        snapshot_low = (snapshot_msec_of-bounds snaps).0;
        snapshot_high = (snapshot_msec_of-bounds snaps).1;
        short = short;
        name = named;
        muted = muted;
      },
    )

set_name-named :
    (cl : Client) (n : Bytes)
    → length cl.userinfo < max_info_string
    → length n ≤ 31
    → (d : Client) × (set_name cl n ≡ ok (some d))
      × (d.name ≡ n)
      × (length d.userinfo ≤ max_info_string)
unfolding set_name
set_name-named cl n h short =
    let (info, e, b) =
      (info_set_value_for_key_total max_info_string cl.userinfo (codes "name") n).1 h in
    (record cl { name = take 31 n; userinfo = info }, rw e refl, take_all 31 n short, b)

-- For every user info of the size that a client can have: the name that is kept has 31 bytes at
-- most, all printable; a muted name stays with its user info; the rate lies between 1000 and 90000,
-- and snapshots are 33 to 1000 milliseconds apart.
pub userinfo_changed-Changed :
    (cl : Client) (namemuted : Bool)
    → length cl.userinfo < max_info_string
    → (c : Client) × (userinfo_changed cl namemuted ≡ ok (some c)) × Changed cl c namemuted
unfolding userinfo_changed rename
userinfo_changed-Changed cl true h =
    let (asked, e, b) = (info_value_for_key_total cl.userinfo (codes "name")).0 (omega arith) in
    rw e
      (set_rates-Changed cl cl true (omega arith) (λ q. absurd (ground arith)) (λ q. (refl, refl)))
userinfo_changed-Changed cl false h =
    let (asked, e, b) = (info_value_for_key_total cl.userinfo (codes "name")).0 (omega arith) in
    let clean = clean_name-IsPrintable (take 31 asked) in
    let (d, g, n, short) =
      set_name-named cl (clean_name (take 31 asked)) h
        (omega (arith, clean.1, length-take-le 31 asked)) in
    rw (e, g)
      (set_rates-Changed cl d false short
        (λ q. rw n (clean.0, omega (arith, clean.1, length-take-le 31 asked)))
        (λ q. absurd (ground arith)))
