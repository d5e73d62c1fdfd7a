-- ===== src/Status.antt =====
-- The answers to strangers: `SVC_Info` and `SVC_Status` of src/sv_main.c. Cvars are arguments; the
-- lines for patch level 5 are left out.
pub mod Bounds
use codextended.Prelude.{
  ℕ, zero, suc, ◌+◌, ◌-◌, ◌/◌, ◌%◌, Bool, true, false, not, Option, none, some, List, [], ◌∷◌, ◌++◌,
  ◌==◌, leb, if◌then◌else◌, length, ℤ, pos, negsuc, ◌-ℤ◌, eqb_ℤ, Bytes, codes, is_empty, Outcome,
  ok, then_some, take,
}
use codextended.Net.{Adr}
use codextended.Strings.{sv_verify_challenge}
use codextended.Info.{max_info_string, info_set_value_for_key}
use codextended.RateLimit.{Limiter, svc_rate_limit_address, svc_rate_limit_outbound}
use codextended.Client.{ClientState, cs_free, cs_zombie}

abbrev pub max_msglen : ℕ
max_msglen = 16384

-- `va( "%i", n )`.
unfoldable pub show_loop : ℕ → ℕ → Bytes → Bytes
show_loop zero n acc = acc
show_loop (suc left) n acc =
    let digit = (b'0' + n % 10) ∷ acc in
    let rest = show_loop left (n / 10) digit in if n / 10 == 0 then digit else rest

unfoldable pub show_int : ℤ → Bytes
unfolding show_loop
show_int (pos n) = show_loop 10 n []
show_int (negsuc n) = b'-' ∷ show_loop 10 (suc n) []

-- Calls of `Info_SetValueForKey` one after the other.
unfoldable pub set_all : Bytes → List (Bytes × Bytes) → Outcome (Option Bytes)
set_all s [] = ok (some s)
set_all s ((key, value) ∷ pairs) =
    then_some (info_set_value_for_key max_info_string s key value) λ t. set_all t pairs

-- What the answers tell of a client.
pub record Player : Type 0 where
  pub state : ClientState
  pub score : ℤ
  pub ping : ℤ
  pub status_ping : Option ℤ
  pub name : Bytes

abbrev pub is_connected : Player → Bool
is_connected p = elim p.state [ cs_free ↦ false | cs_zombie ↦ false | _ ↦ true ]

unfoldable pub count_players : List Player → ℕ
count_players [] = 0
count_players (p ∷ ps) = let n = count_players ps in if is_connected p then suc n else n

pub record Cvars : Type 0 where
  pub protocol : ℤ
  pub hostname : Bytes
  pub mapname : Bytes
  pub max_clients : ℤ
  pub private_clients : ℤ
  pub gametype : Bytes
  pub pure : ℤ
  pub build : ℤ
  pub min_ping : ℤ
  pub max_ping : ℤ
  pub fs_game : Bytes
  pub allow_anonymous : ℤ
  pub password : Bytes

abbrev pub unless_zero : Bytes → ℤ → List (Bytes × Bytes)
unless_zero key n = if eqb_ℤ n (pos 0) then [] else (key, show_int n) ∷ []

abbrev pub flag : Bool → Bytes
flag b = if b then codes "1" else codes "0"

unfoldable pub info_pairs : Bytes → ℕ → Cvars → List (Bytes × Bytes)
info_pairs challenge count v =
    ((codes "challenge", challenge)
      ∷ (codes "protocol", show_int v.protocol)
      ∷ (codes "hostname", v.hostname)
      ∷ (codes "mapname", v.mapname)
      ∷ (codes "clients", show_int (pos count))
      ∷ (codes "sv_maxclients", show_int (v.max_clients -ℤ v.private_clients))
      ∷ (codes "gametype", v.gametype)
      ∷ (codes "pure", show_int v.pure)
      ∷ (codes "codextended", b'v' ∷ show_int v.build)
      ∷ [])
    ++ unless_zero (codes "minPing") v.min_ping
    ++ unless_zero (codes "maxPing") v.max_ping
    ++ (if is_empty v.fs_game then [] else (codes "game", v.fs_game) ∷ [])
    ++ (codes "sv_allowAnonymous", show_int v.allow_anonymous)
      ∷ (codes "pswrd", flag (not (is_empty v.password)))
      ∷ []

-- The readings of the clock: two for the address's bucket, one for the outbound bucket.
pub record Clock : Type 0 where
  pub search : ℤ
  pub limit : ℤ
  pub outbound : ℤ

-- Both limits, as both functions ask them: whether to drop the request.
unfoldable pub limits : Limiter → Adr → Clock → Bool × Limiter
limits l from t =
    let (limited, after) = svc_rate_limit_address l from t.search t.limit 10 1000 in
    let full = svc_rate_limit_outbound after t.outbound 10 100 in
    if limited then (true, after) else full

-- The body of "infoResponse"; `none` is a request that is not answered.
unfoldable pub svc_info :
    Limiter → Adr → Clock → Bytes → List Player → Cvars → Limiter × Option (Outcome (Option Bytes))
svc_info l from t challenge players v =
    let (drop, after) = limits l from t in
    if drop
    then (after, none)
    else if not (sv_verify_challenge challenge)
    then (after, none)
    else (after, some (set_all [] (info_pairs challenge (count_players players) v)))

-- `"%i %i \"%s\"\n"`, cut to the buffer of 1024 bytes.
unfoldable pub player_line : Player → Bytes
player_line p =
    let ping : ℤ = elim p.status_ping [ some n ↦ n | none ↦ p.ping ] in
    take 1023 (show_int p.score ++ b' ' ∷ show_int ping ++ b' ' ∷ b'"' ∷ p.name ++ b'"' ∷ 10 ∷ [])

-- The loop over the clients, which ends with the first line that does not fit.
unfoldable pub status_loop : Bytes → List Player → Bytes
status_loop status [] = status
status_loop status (p ∷ ps) =
    if not (is_connected p)
    then status_loop status ps
    else if leb max_msglen (length status + length (player_line p))
    then status
    else status_loop (status ++ player_line p) ps

-- The two parts of "statusResponse"; `info` is `Cvar_InfoString( 4 )`.
unfoldable pub svc_status :
    Limiter
    → Adr
    → Clock
    → Bytes
    → Bytes
    → List Player
    → Cvars
    → Limiter × Option (Outcome (Option Bytes) × Bytes)
svc_status l from t challenge info players v =
    let (drop, after) = limits l from t in
    let pairs =
      (codes "challenge", challenge)
      ∷ (codes "pswrd", flag (not (is_empty v.password)))
      ∷ (codes "mod", flag (not (is_empty v.fs_game)))
      ∷ [] in
    if drop
    then (after, none)
    else if not (sv_verify_challenge challenge)
    then (after, none)
    else (after, some (set_all info pairs, status_loop [] players))
