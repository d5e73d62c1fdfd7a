-- ===== src/Command/Conversation.antt =====
-- The commands that are carried out over all messages of a client.
use mathlib.Core.List.{append_assoc, append-nil}
use codextended.Prelude.{
  ℕ, zero, suc, ◌+◌, ◌≡◌, refl, sym, ap, subst, ◌∙◌, Bool, true, false, not, List, [], ◌∷◌, ◌++◌,
  length, length-append, map, pos, Bool-cases, inl, inr, arith,
}
use codextended.Client.{Client}
use codextended.Command.{Handlers, Command, Action, command_loop}
use codextended.Command.Order.{command_loop-Delivered}
use codextended.Command.Due.{up_from, due, Ends, whole, zombie, lost, Runs, Delivered}
use codextended.Command.Message.{
  Binary, Input, is_current, finish, custom_sv_execute_client_message,
}
use codextended.Command.Talk.{
  KeepsNumber, is_broken, conversation, fresh, all_due, Talks, silent, elsewhere, heard, broken_off,
  Conversed,
}
use codextended.Command.Number.{resend-number, finish-actions, finish-after, finish-last}

Ends-whole :
    (h : Handlers) (l : ℕ) (cs rest : List Command) (before : Client) (acts : List Action)
    (done : Bool) (last : Client) (actions : List Action)
    → done ≡ true
    → Ends h l cs rest before acts done last actions
    → (rest ≡ []) × (last ≡ before) × (actions ≡ acts)
Ends-whole h l cs rest before acts done last actions d (whole r n) = (r, refl, refl)
Ends-whole h l cs rest before acts done last actions d (zombie z) = absurd (ground arith)
Ends-whole h l cs rest before acts done last actions d (lost r y) = absurd (ground arith)

-- What one message comes to.
record Heard (h : Handlers) (b : Binary) (x : Input) (cl : Client) (commands : List Command) (l : ℕ)
    (due_now : List Command) (broken : Bool) (after : Client) (actions : List Action) : Type 0 where
  executed : List Command
  rest : List Command
  split : executed ++ rest ≡ due_now
  numbers : map (λ (c : Command). c.seq) executed ≡ up_from (suc l) (length executed)
  ended :
      broken ≡ true
      → (messages : List (Input × List Command))
      → Talks h b cl ((x, commands) ∷ messages) executed actions
  whole_rest : broken ≡ false → rest ≡ []
  number : broken ≡ false → after.last_client_command ≡ pos (l + length executed)
  joined :
      broken ≡ false
      → (messages : List (Input × List Command)) (ds : List Command) (more : List Action)
      → Talks h b after messages ds more
      → Talks h b cl ((x, commands) ∷ messages) (executed ++ ds) (actions ++ more)

module _ (h : Handlers) (b : Binary) (k : KeepsNumber h b) where
  Delivered-Heard :
      (x : Input) (cl : Client) (l : ℕ) (commands : List Command) (r : Bool × Client × List Action)
      → is_current x ≡ true
      → cl.last_client_command ≡ pos l
      → Delivered h l cl commands r.0 r.1 r.2
      → Heard h b x cl commands l (due l commands) (not r.0) (finish h b x r).0 r.2
  Delivered-Heard x cl l commands r y at d =
      let e = Ends-whole h l commands d.rest d.before d.acts r.0 r.1 r.2 in
      let runs = d.runs in
      record {
        executed = d.executed;
        rest = d.rest;
        split = d.split;
        numbers = d.numbers;
        ended = λ n messages.
            broken_off cl d.before r.1 x l commands d.rest messages d.executed d.acts r.2 y at
              d.split runs
              (subst (λ (z : Bool). Ends h l commands d.rest d.before d.acts z r.1 r.2)
                (ground arith) d.ends);
        whole_rest = λ n. (e (ground arith) d.ends).0;
        number = λ n.
            let done : r.0 ≡ true = ground arith in
            finish-last h b k x r done
            ∙ ap (λ (c : Client). c.last_client_command) (e done d.ends).1
            ∙ d.number;
        joined = λ n messages ds more m.
            let done : r.0 ≡ true = ground arith in
            let at_end : Runs h cl d.executed r.2 r.1 =
              subst (λ (xs : List Action). Runs h cl d.executed xs r.1) (sym (e done d.ends).2)
                (subst (λ (c : Client). Runs h cl d.executed d.acts c) (sym (e done d.ends).1)
                  runs) in
            heard cl r.1 x commands messages d.executed ds r.2 more y at_end (
              subst (λ (c : Client). Talks h b c messages ds more) (finish-after h b k x r done) m);
      }

  message-Heard :
      (x : Input) (cl : Client) (l : ℕ) (commands : List Command)
      → cl.last_client_command ≡ pos l
      → Heard h b x cl commands l
          (fresh x l commands)
          (is_broken h x cl commands)
          (custom_sv_execute_client_message h b x cl commands).0
          (custom_sv_execute_client_message h b x cl commands).1
  unfolding custom_sv_execute_client_message
  message-Heard x cl l commands e = elim (Bool-cases (is_current x)) [
    | inl y ↦
        rw (y, finish-actions h b k x (command_loop h cl commands))
          (Delivered-Heard x cl l commands (command_loop h cl commands) y e
            (command_loop-Delivered h cl l commands e))
    | inr n ↦ rw n (record {
      executed = [];
      rest = [];
      split = refl;
      numbers = unfold up_from in refl;
      ended = λ q messages. absurd (ground (arith, n));
      whole_rest = λ q. refl;
      number = λ q. resend-number h b k x cl ∙ e ∙ ap pos (omega arith);
      joined = λ q messages ds more m. elsewhere cl x commands messages ds more n m;
    })
  ]

up_from-append : (l m n : ℕ) → up_from l m ++ up_from (l + m) n ≡ up_from l (m + n)
unfolding up_from
up_from-append l zero n =
    let a : l + 0 ≡ l = omega arith in let b : 0 + n ≡ n = omega arith in rw (a, b) refl
up_from-append l (suc m) n =
    let q : l + suc m ≡ suc l + m = omega arith in
    let c : suc m + n ≡ suc (m + n) = omega arith in
    rw (c, q) (ap (λ xs. pos l ∷ xs) (up_from-append (suc l) m n))

map-append :
    (xs ys : List Command)
    → map (λ (c : Command). c.seq) (xs ++ ys)
      ≡ map (λ (c : Command). c.seq) xs ++ map (λ (c : Command). c.seq) ys
map-append [] ys = refl
map-append (x ∷ xs) ys = ap (λ zs. x.seq ∷ zs) (map-append xs ys)

up_from-joined :
    (l : ℕ) (xs ys : List Command)
    → map (λ (c : Command). c.seq) xs ≡ up_from (suc l) (length xs)
    → map (λ (c : Command). c.seq) ys ≡ up_from (suc (l + length xs)) (length ys)
    → map (λ (c : Command). c.seq) (xs ++ ys) ≡ up_from (suc l) (length (xs ++ ys))
up_from-joined l xs ys p q =
    let c : suc (l + length xs) ≡ suc l + length xs = omega arith in
    let n : length (xs ++ ys) ≡ length xs + length ys = length-append xs ys in
    map-append xs ys
    ∙ ap (λ zs. zs ++ map (λ (c : Command). c.seq) ys) p
    ∙ ap (λ zs. up_from (suc l) (length xs) ++ zs) (q ∙ ap (λ m. up_from m (length ys)) c)
    ∙ up_from-append (suc l) (length xs) (length ys)
    ∙ ap (up_from (suc l)) (sym n)

-- A message that is broken off, and one that is followed by others.
broken-Conversed :
    (h : Handlers) (b : Binary) (cl : Client) (l : ℕ) (x : Input) (commands : List Command)
    (messages : List (Input × List Command)) (after : Client) (actions : List Action)
    → Heard h b x cl commands l (fresh x l commands) true after actions
    → Conversed h b cl l ((x, commands) ∷ messages) false actions
unfolding all_due
broken-Conversed h b cl l x commands messages after actions m =
    let now = fresh x l commands in
    record {
      executed = m.executed;
      rest = m.rest ++ all_due (l + length now) messages;
      split =
          sym (append_assoc m.executed m.rest (all_due (l + length now) messages))
          ∙ ap (λ xs. xs ++ all_due (l + length now) messages) m.split;
      numbers = m.numbers;
      talks = m.ended refl messages;
      all = λ e. absurd (ground arith);
    }

followed-Conversed :
    (h : Handlers) (b : Binary) (cl : Client) (l : ℕ) (x : Input) (commands : List Command)
    (messages : List (Input × List Command)) (after : Client) (actions more : List Action)
    (broken all_read : Bool)
    (m : Heard h b x cl commands l (fresh x l commands) broken after actions)
    → broken ≡ false
    → Conversed h b after (l + length m.executed) messages all_read more
    → Conversed h b cl l ((x, commands) ∷ messages) all_read (actions ++ more)
unfolding all_due
followed-Conversed h b cl l x commands messages after actions more broken all_read m u d =
    let whole_now : m.executed ≡ fresh x l commands =
      sym (append-nil m.executed) ∙ ap (λ xs. m.executed ++ xs) (sym (m.whole_rest u)) ∙ m.split in
    record {
      executed = m.executed ++ d.executed;
      rest = d.rest;
      split =
          append_assoc m.executed d.executed d.rest
          ∙ ap (λ xs. m.executed ++ xs) d.split
          ∙ ap (λ (xs : List Command). xs ++ all_due (l + length xs) messages) whole_now;
      numbers = up_from-joined l m.executed d.executed m.numbers d.numbers;
      talks = m.joined u messages d.executed more d.talks;
      all = d.all;
    }

-- For a client whose last command has number `l`, if the functions outside leave this number alone:
-- over all its messages, up to one that is broken off, the commands that are due, with the numbers
-- from `l + 1` on, are carried out in order and each once, on the client as the earlier commands and
-- messages have left it: each calls the function of its name, or else reaches the game, unless it is
-- held; repeated ones do nothing. If no message is broken off, all that are due are carried out.
pub conversation-consecutive :
    (h : Handlers) (b : Binary) (cl : Client) (l : ℕ) (messages : List (Input × List Command))
    → KeepsNumber h b
    → cl.last_client_command ≡ pos l
    → Conversed h b cl l messages (conversation h b cl messages).0 (conversation h b cl messages).1
unfolding conversation
conversation-consecutive h b cl l [] k e = record {
  executed = [];
  rest = [];
  split = unfold all_due in refl;
  numbers = unfold up_from in refl;
  talks = silent cl;
  all = λ q. refl;
}
conversation-consecutive h b cl l ((x, commands) ∷ messages) k e =
    let m = message-Heard h b k x cl l commands e in
    let after = (custom_sv_execute_client_message h b x cl commands).0 in
    let actions = (custom_sv_execute_client_message h b x cl commands).1 in
    elim (Bool-cases (is_broken h x cl commands)) [
      | inl y ↦ rw y (
          broken-Conversed h b cl l x commands messages after actions (
            subst (λ (z : Bool). Heard h b x cl commands l (fresh x l commands) z after actions) y
              m))
      | inr n ↦ rw n (
          followed-Conversed h b cl l x commands messages after actions _ _ _ m n
            (conversation-consecutive h b after (l + length m.executed) messages k (m.number n)))
    ]
