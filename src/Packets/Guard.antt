-- ===== src/Packets/Guard.antt =====
-- What packets of strangers change, of the challenges, the bans and the news.
use codextended.Prelude.{
  Bytes, ◌≡◌, refl, ap, subst, ◌∙◌, Bool, false, Option, some, List, [], ◌∷◌, All, ok, then_some,
  Outcome, then_some-some, ok-some-injective,
}
use codextended.Challenge.Kept.{
  IsKept-refl, IsKept-trans, AllKept, sv_get_challenge-AllKept, sv_x_authorize-AllKept,
}
use codextended.Connect.Seat.{sv_direct_connect}
use codextended.Connect.Kept.{sv_direct_connect-AllKept}
use codextended.Packets.{
  World, Env, Arrival, Answer, Kind, get_status, get_info, get_challenge, connect, ip_authorize,
  x_authorize, rcon, chandelier, disconnect, bad, News, handle, kind_of, sv_connectionless_packet,
  svc_chandelier, request_of, word_at,
}

-- No slot was authorized or got an mUID, and bans and news are the same.
pub record Untouched (w w' : World) : Type 0 where
  pub slots : AllKept w.server.tables.x_challenges w'.server.tables.x_challenges
  pub bans : w'.server.bans ≡ w.server.bans
  pub news : w'.news ≡ w.news

pub Untouched-refl : (w : World) → Untouched w w
Untouched-refl w = record {
  slots = λ j. IsKept-refl (w.server.tables.x_challenges j);
  bans = refl;
  news = refl;
}

Untouched-trans : (u v w : World) → Untouched u v → Untouched v w → Untouched u w
Untouched-trans u v w h k = record {
  slots = λ j. IsKept-trans _ _ _ (h.slots j) (k.slots j);
  bans = k.bans ∙ h.bans;
  news = k.news ∙ h.news;
}

-- The world of a result.
reached :
    (w w' v : World) (a b : Answer)
    → Untouched w v
    → ◌≡◌ {A = Outcome (Option (World × Answer))} (ok (some (v, b))) (ok (some (w', a)))
    → Untouched w w'
reached w w' v a b h e =
    subst (Untouched w) (ap (λ (x : World × Answer). x.0) (ok-some-injective (v, b) (w', a) e)) h

stranger_news :
    (from_master : Bool) (args : List Bytes) (n : News)
    → from_master ≡ false
    → svc_chandelier from_master args n ≡ n
unfolding svc_chandelier
stranger_news from_master args n m = rw m refl

handle-Untouched :
    (env : Env) (k : Kind) (p : Arrival) (w w' : World) (a : Answer)
    → p.from_master ≡ false
    → handle env k p w ≡ ok (some (w', a))
    → Untouched w w'
unfolding handle
handle-Untouched env get_status p w w' a m e =
    reached w w' _ a _ (record { slots = λ j. IsKept-refl _; bans = refl; news = refl }) e
handle-Untouched env get_info p w w' a m e =
    reached w w' _ a _ (record { slots = λ j. IsKept-refl _; bans = refl; news = refl }) e
handle-Untouched env get_challenge p w w' a m e =
    reached w w' _ a _
      (record {
        slots =
            sv_get_challenge-AllKept w.limiter w.server.tables p.from p.number p.challenge_clock
              env.challenge_cvars;
        bans = refl;
        news = refl;
      })
      e
handle-Untouched env connect p w w' a m e =
    let (c, f, g) =
      then_some-some
        (sv_direct_connect env.connect_outside env.connect_cvars w.server (request_of p)) _ (w', a)
        e in
    let (kept, bans) =
      sv_direct_connect-AllKept env.connect_outside env.connect_cvars w.server (request_of p) c f in
    reached w w' _ a _ (record { slots = kept; bans = bans; news = refl }) g
handle-Untouched env ip_authorize p w w' a m e = reached w w' w a _ (Untouched-refl w) e
handle-Untouched env x_authorize p w w' a m e =
    reached w w' _ a _
      (record {
        slots =
            sv_x_authorize-AllKept w.server.tables p.from_master (word_at p 1) (word_at p 2)
              (word_at p 3) m;
        bans = refl;
        news = refl;
      })
      e
handle-Untouched env rcon p w w' a m e =
    reached w w' _ a _ (record { slots = λ j. IsKept-refl _; bans = refl; news = refl }) e
handle-Untouched env chandelier p w w' a m e =
    reached w w' _ a _
      (record {
        slots = λ j. IsKept-refl _;
        bans = refl;
        news = stranger_news p.from_master p.args w.news m;
      })
      e
handle-Untouched env disconnect p w w' a m e = reached w w' w a _ (Untouched-refl w) e
handle-Untouched env bad p w w' a m e = reached w w' w a _ (Untouched-refl w) e

-- Packets one after the other.
unfoldable pub receive_all : Env → List Arrival → World → Outcome (Option World)
receive_all env [] w = ok (some w)
receive_all env (p ∷ ps) w =
    then_some (sv_connectionless_packet env p w) λ r. receive_all env ps r.0

-- Whatever packets come, in whatever order, as long as none is from the master: no challenge is
-- authorized and none gets an mUID (at most a slot that is taken anew is set back), the bans stay,
-- and so do the version and the message that the master gives.
pub receive_all-Untouched :
    (env : Env) (ps : List Arrival) (w w' : World)
    → All (λ (p : Arrival). p.from_master ≡ false) ps
    → receive_all env ps w ≡ ok (some w')
    → Untouched w w'
unfolding receive_all sv_connectionless_packet
receive_all-Untouched env [] w w' m e =
    subst (Untouched w) (ok-some-injective w w' e) (Untouched-refl w)
receive_all-Untouched env (p ∷ ps) w w' m e =
    let (r, f, g) = then_some-some (sv_connectionless_packet env p w) _ w' e in
    Untouched-trans w r.0 w'
      (handle-Untouched env (kind_of env.chandelier_name (word_at p 0)) p w r.0 r.1 m.0 f)
      (receive_all-Untouched env ps r.0 w' m.1 g)
