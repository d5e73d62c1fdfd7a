-- ===== src/Command/Due.antt =====
-- What the commands of a message come to: those that are due, what each does, and how they end.
use codextended.Prelude.{
  ℕ, zero, suc, ◌+◌, ◌≡◌, Bool, true, false, not, ◌||◌, ◌&&◌, List, [], ◌∷◌, ◌++◌, map, length, ℤ,
  pos, ◌+ℤ◌, ltb_ℤ, leb_ℤ, if◌then◌else◌, take,
}
use codextended.Client.{Client}
use codextended.Command.{
  Handlers, Command, Action, ran, to_game, dropped, is_zombie, is_one_of, is_active, ucmds,
  flood_protect, passes_on,
}

-- The numbers from `l` on, `n` of them.
unfoldable pub up_from : ℕ → ℕ → List ℤ
up_from l zero = []
up_from l (suc n) = pos l ∷ up_from (suc l) n

-- The commands that are due from a client whose last command was number `l`: those with the numbers
-- from `l + 1` on, without the repeated ones, up to the first that skips a number.
unfoldable pub due : ℕ → List Command → List Command
due l [] = []
due l (c ∷ cs) =
    let repeated = due l cs in
    let more = due (suc l) cs in
    if leb_ℤ c.seq (pos l) then repeated else if ltb_ℤ (pos (suc l)) c.seq then [] else c ∷ more

-- Whether a command skips a number.
unfoldable pub has_gap : ℕ → List Command → Bool
has_gap l [] = false
has_gap l (c ∷ cs) =
    let repeated = has_gap l cs in
    let more = has_gap (suc l) cs in
    if leb_ℤ c.seq (pos l) then repeated else if ltb_ℤ (pos (suc l)) c.seq then true else more

-- A command of the flood protection sets the time at which the next one is taken.
abbrev pub timed : Command → Client → Client
timed c cl =
    if flood_protect c.text then record cl { next_reliable_time = c.context.now +ℤ pos 800 } else cl

-- A command that the game does not see: it comes too early, no game runs, or the code keeps it back.
abbrev pub is_held : Command → Client → Bool
is_held c cl =
    is_active cl.state && ltb_ℤ c.context.now c.context.elsewhere && flood_protect c.text
    || not c.context.running
    || not (passes_on c.word c.context.muted)

abbrev pub noted : Command → Client → Client
noted c cl = record cl {
  last_client_command = c.seq;
  last_client_command_string = take 1023 c.text;
}

-- What one command does to the client, and what is called: the function of its name, or else the
-- game, unless the command is held.
pub data Carries (h : Handlers) (cl : Client) (c : Command) : Client → List Action → Type 0 where
  served :
      is_one_of c.word ucmds ≡ true
      → Carries h cl c (noted c (h.ucmd c.word (timed c cl))) (ran c.seq c.word ∷ [])
  played :
      is_one_of c.word ucmds ≡ false
      → is_held c cl ≡ false
      → Carries h cl c (noted c (h.game (timed c cl))) (to_game c.seq c.word ∷ [])
  held :
      is_one_of c.word ucmds ≡ false
      → is_held c cl ≡ true
      → Carries h cl c (noted c (timed c cl)) []

-- What commands do, one after the other.
pub data Runs (h : Handlers) : Client → List Command → List Action → Client → Type 0 where
  stop : (cl : Client) → Runs h cl [] [] cl
  next :
      (cl mid last : Client) (c : Command) (cs : List Command) (acts more : List Action)
      → Carries h cl c mid acts
      → Runs h mid cs more last
      → Runs h cl (c ∷ cs) (acts ++ more) last

-- How the commands `cs` end, when those due have been carried out up to `rest`, with the client
-- `before` and the actions `acts`.
pub data Ends (h : Handlers) (l : ℕ) (cs rest : List Command) (before : Client) (acts : List Action)
    : Bool → Client → List Action → Type 0 where
  whole : rest ≡ [] → has_gap l cs ≡ false → Ends h l cs rest before acts true before acts
  zombie : is_zombie before.state ≡ true → Ends h l cs rest before acts false before acts
  lost :
      rest ≡ []
      → has_gap l cs ≡ true
      → Ends h l cs rest before acts false (h.drop before) (acts ++ dropped ∷ [])

-- The commands `cs`, given to the client `cl` whose last command was number `l`, end with `done`, the
-- client `last` and the actions `actions`.
pub record Delivered (h : Handlers) (l : ℕ) (cl : Client) (cs : List Command) (done : Bool)
    (last : Client) (actions : List Action) : Type 0 where
  pub executed : List Command
  pub rest : List Command
  pub before : Client
  pub acts : List Action
  pub split : executed ++ rest ≡ due l cs
  pub numbers : map (λ (c : Command). c.seq) executed ≡ up_from (suc l) (length executed)
  pub runs : Runs h cl executed acts before
  pub number : before.last_client_command ≡ pos (l + length executed)
  pub ends : Ends h l cs rest before acts done last actions
