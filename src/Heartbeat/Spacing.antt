-- ===== src/Heartbeat/Spacing.antt =====
-- How often heartbeats are sent, and to which port.
use codextended.Prelude.{
  ℕ, ◌+◌, ◌≤◌, ◌<◌, ◌≡◌, refl, false, Option, none, some, List, [], ◌∷◌, arith, Bytes, length,
}
use codextended.Net.{Adr}
use codextended.Net.Text.{big_short}
use codextended.Strings.Search.{strstr, starts_with}
use codextended.Heartbeat.{Master, Env, Beats, Packet, resolved, sv_master_heart_beat}

-- A time at which heartbeats are sent, in front of the later ones.
abbrev noted : Option (List Packet) → ℕ → List ℕ → List ℕ
noted none t ts = ts
noted (some packets) t ts = t ∷ ts

-- The times, of those of the calls, at which heartbeats are sent.
unfoldable pub beats : Env → Bytes → List ℕ → Beats → List ℕ
beats e hbname [] b = []
beats e hbname (t ∷ ts) b =
    let (b', sent) = sv_master_heart_beat e hbname t b in noted sent t (beats e hbname ts b')

-- No time is before `next`, and each is at least `gap` after the one before.
unfoldable pub IsSpaced : ℕ → ℕ → List ℕ → Type 0
IsSpaced gap next [] = Unit
IsSpaced gap next (t ∷ ts) = (next ≤ t) × IsSpaced gap (t + gap) ts

-- The port of a master is always 20510: the test for a colon in its name looks for the name in ":",
-- and finds no name of two bytes or more.
pub resolved-port :
    (m : Master) (a : Adr) → 1 < length m.string → (resolved m a).adr.port ≡ big_short 20510
unfolding resolved
resolved-port m a h = rw (no_part m.string h) refl
  where
    no_part : (s : Bytes) → 1 < length s → strstr (b':' ∷ []) s ≡ false
    no_part [] k = absurd (omega arith)
    no_part (x ∷ []) k = absurd (omega arith)
    no_part (x ∷ y ∷ s) k = unfold strstr starts_with in ground arith
