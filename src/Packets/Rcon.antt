-- ===== src/Packets/Rcon.antt =====
-- How often a wrong password for the remote console goes on to the game.
use codextended.Prelude.{
  ℕ, ◌≤◌, ◌<◌, subst, ◌≡◌, Bool, true, false, Option, List, [], ◌∷◌, All, if◌then◌else◌, arith,
  Bool-cases, inl, inr, Bytes, is_empty,
}
use codextended.Net.{Adr, bytes_eq}
use codextended.RateLimit.{Bucket, Limiter, svc_rate_limit, svc_rate_limit_address}
use codextended.Packets.{
  Remote, RemoteClock, try_password, after_limit, remote_allowed, svc_remote_command,
}

pub record Attempt : Type 0 where
  pub from : Adr
  pub clock : RemoteClock
  pub word : Bytes
  pub callback : Option Bool

-- When the attempts that go on to the game come, in seconds, from a limiter and a state.
unfoldable pub passed : Bytes → List Attempt → Limiter → Remote → List ℕ
passed password [] l r = []
passed password (x ∷ xs) l r =
    let (runs, l', r') = svc_remote_command l r x.from x.clock x.word password x.callback in
    let rest = passed password xs l' r' in if runs then x.clock.time ∷ rest else rest

-- Each time is later than the one before, and the first later than `last`.
unfoldable pub IsLaterEach : ℕ → List ℕ → Type 0
IsLaterEach last [] = Unit
IsLaterEach last (t ∷ ts) = (last < t) × IsLaterEach t ts

-- An attempt that goes on is later than the last one, and its time is kept; another one does not
-- move that time back.
record Charged (r : Remote) (now : ℕ) (result : Bool × Remote) : Type 0 where
  later : result.0 ≡ true → r.lasttime < now
  kept : result.0 ≡ true → result.1.lasttime ≡ now
  past : r.lasttime ≤ result.1.lasttime

try_password-Charged :
    (r : Remote) (now : ℕ) (word password : Bytes) (callback : Option Bool)
    → bytes_eq word password ≡ false
    → Charged r now (try_password r now word password callback)
unfolding try_password
try_password-Charged r now word password callback wrong = record {
  later = λ e. ground (arith, e);
  kept = λ e. ground (arith, e);
  past = ground arith;
}

limited_out :
    (r : Remote) (c : RemoteClock) (b : Bucket) → Charged r c.time (false, record r { bucket = b })
limited_out r c b = record {
  later = λ e. absurd (ground (arith, e));
  kept = λ e. absurd (ground (arith, e));
  past = omega arith;
}

after_limit-Charged :
    (r : Remote) (c : RemoteClock) (word password : Bytes) (callback : Option Bool)
    (a : Bool × Bucket)
    → bytes_eq word password ≡ false
    → Charged r c.time (after_limit r c word password callback a)
unfolding after_limit
after_limit-Charged r c word password callback (true, b) wrong = limited_out r c b
after_limit-Charged r c word password callback (false, b) wrong =
    let h = try_password-Charged (record r { bucket = b }) c.time word password callback wrong in
    record { later = h.later; kept = h.kept; past = h.past }

command-Charged :
    (l : Limiter) (r : Remote) (from : Adr) (c : RemoteClock) (word password : Bytes)
    (callback : Option Bool)
    → bytes_eq word password ≡ false
    → let x = svc_remote_command l r from c word password callback in Charged r c.time (x.0, x.2)
unfolding svc_remote_command remote_allowed
command-Charged l r from c word password callback wrong =
    elim (Bool-cases (svc_rate_limit_address l from c.search c.limit 10 1000).0) [
      | inl limited ↦ rw limited (limited_out r c r.bucket)
      | inr passes ↦ rw passes (elim (Bool-cases (is_empty password)) [
        | inl none_set ↦ rw none_set (
            after_limit-Charged r c word password callback
              (svc_rate_limit r.bucket c.global 10 1000) wrong)
        | inr set ↦
            rw (set, wrong)
              (after_limit-Charged r c word password callback
                (svc_rate_limit r.bucket c.global 10 1000) wrong)
      ])
    ]

IsLaterEach-earlier : (k m : ℕ) (ts : List ℕ) → k ≤ m → IsLaterEach m ts → IsLaterEach k ts
unfolding IsLaterEach
IsLaterEach-earlier k m [] h a = tt
IsLaterEach-earlier k m (t ∷ ts) h a = (omega (arith, a.0), a.1)

-- However many attempts with a wrong password come, from whatever addresses and at whatever times:
-- those that go on to the game come in different seconds, each later than the one before, and later
-- than the last one before them.
pub passed-IsLaterEach :
    (password : Bytes) (xs : List Attempt) (l : Limiter) (r : Remote)
    → All (λ (x : Attempt). bytes_eq x.word password ≡ false) xs
    → IsLaterEach r.lasttime (passed password xs l r)
unfolding passed IsLaterEach
passed-IsLaterEach password [] l r h = tt
passed-IsLaterEach password (x ∷ xs) l r h =
    let c = command-Charged l r x.from x.clock x.word password x.callback h.0 in
    let y = svc_remote_command l r x.from x.clock x.word password x.callback in
    let rest = passed-IsLaterEach password xs y.1 y.2 h.1 in
    elim (Bool-cases y.0) [
      | inl runs ↦
          rw runs (
            c.later runs,
            subst (λ t. IsLaterEach t (passed password xs y.1 y.2)) (c.kept runs) rest,
          )
      | inr stops ↦ rw stops (IsLaterEach-earlier r.lasttime y.2.lasttime _ c.past rest)
    ]

-- Without a password, no command goes on to the game.
pub no_password :
    (l : Limiter) (r : Remote) (from : Adr) (c : RemoteClock) (word : Bytes)
    (callback : Option Bool)
    → (svc_remote_command l r from c word [] callback).0 ≡ false
unfolding svc_remote_command remote_allowed after_limit try_password
no_password l r from c word callback = ground arith
