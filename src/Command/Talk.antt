-- ===== src/Command/Talk.antt =====
-- What all messages of a client come to: the commands that are due over all of them.
use codextended.Prelude.{
  ℕ, suc, ◌+◌, ◌≡◌, Bool, true, false, not, ◌&&◌, if◌then◌else◌, List, [], ◌∷◌, ◌++◌, length, map,
  pos,
}
use codextended.Client.{Client}
use codextended.Command.{Handlers, Command, Action, command_loop}
use codextended.Command.Due.{up_from, due, Runs, Ends}
use codextended.Command.Message.{
  Binary, Input, is_current, resend, after_commands, custom_sv_execute_client_message,
}

-- The functions outside leave the number of the last command alone.
pub record KeepsNumber (h : Handlers) (b : Binary) : Type 0 where
  pub drop : (cl : Client) → (h.drop cl).last_client_command ≡ cl.last_client_command
  pub user_move :
      (delta : Bool) (cl : Client)
      → (b.user_move delta cl).last_client_command ≡ cl.last_client_command
  pub send_gamestate :
      (cl : Client) → (b.send_gamestate cl).last_client_command ≡ cl.last_client_command
  pub send_snapshot :
      (cl : Client) → (b.send_snapshot cl).last_client_command ≡ cl.last_client_command

-- The loop over the commands breaks the message off.
abbrev pub is_broken : Handlers → Input → Client → List Command → Bool
is_broken h x cl commands = is_current x && not (command_loop h cl commands).0

-- Whether no message is broken off, and what the commands of one message after the other do, up to
-- one that is broken off.
unfoldable pub conversation :
    Handlers → Binary → Client → List (Input × List Command) → Bool × List Action
conversation h b cl [] = (true, [])
conversation h b cl ((x, commands) ∷ messages) =
    let (after, actions, deeds) = custom_sv_execute_client_message h b x cl commands in
    let (all_read, more) = conversation h b after messages in
    if is_broken h x cl commands then (false, actions) else (all_read, actions ++ more)

-- The commands of a message that are due.
abbrev pub fresh : Input → ℕ → List Command → List Command
fresh x l commands = if is_current x then due l commands else []

-- The commands that are due from a client whose last command was number `l`, over all messages.
unfoldable pub all_due : ℕ → List (Input × List Command) → List Command
all_due l [] = []
all_due l ((x, commands) ∷ messages) =
    let now = fresh x l commands in now ++ all_due (l + length now) messages

-- What the messages of a client do to it, with the commands that are carried out and all that is done:
-- a message for another server has none; a message that is heard to its end carries out its commands,
-- and what follows them is done to the client; one that is broken off is the last.
pub data Talks (h : Handlers) (b : Binary)
    : Client → List (Input × List Command) → List Command → List Action → Type 0 where
  silent : (cl : Client) → Talks h b cl [] [] []
  elsewhere :
      (cl : Client) (x : Input) (commands : List Command) (messages : List (Input × List Command))
      (ds : List Command) (more : List Action)
      → is_current x ≡ false
      → Talks h b (resend b x cl).0 messages ds more
      → Talks h b cl ((x, commands) ∷ messages) ds more
  heard :
      (cl mid : Client) (x : Input) (commands : List Command)
      (messages : List (Input × List Command)) (cs ds : List Command) (acts more : List Action)
      → is_current x ≡ true
      → Runs h cl cs acts mid
      → Talks h b (after_commands h b x mid).0 messages ds more
      → Talks h b cl ((x, commands) ∷ messages) (cs ++ ds) (acts ++ more)
  broken_off :
      (cl before last : Client) (x : Input) (l : ℕ) (commands rest : List Command)
      (messages : List (Input × List Command)) (cs : List Command) (acts actions : List Action)
      → is_current x ≡ true
      → cl.last_client_command ≡ pos l
      → cs ++ rest ≡ due l commands
      → Runs h cl cs acts before
      → Ends h l commands rest before acts false last actions
      → Talks h b cl ((x, commands) ∷ messages) cs actions

-- What a conversation with a client from number `l` on comes to: `executed` are the commands carried
-- out.
pub record Conversed (h : Handlers) (b : Binary) (cl : Client) (l : ℕ)
    (messages : List (Input × List Command)) (all_read : Bool) (actions : List Action)
    : Type 0 where
  pub executed : List Command
  pub rest : List Command
  pub split : executed ++ rest ≡ all_due l messages
  pub numbers : map (λ (c : Command). c.seq) executed ≡ up_from (suc l) (length executed)
  pub talks : Talks h b cl messages executed actions
  pub all : all_read ≡ true → rest ≡ []
