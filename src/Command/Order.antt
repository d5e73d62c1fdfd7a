-- ===== src/Command/Order.antt =====
-- The commands of a client are carried out in order, each once.
use mathlib.Core.List.{append_assoc, append-nil}
use codextended.Prelude.{
  ℕ, suc, ◌+◌, ◌≡◌, refl, sym, ap, subst, ◌∙◌, Bool, true, false, not, ◌||◌, ◌&&◌, inl, inr, List,
  [], ◌∷◌, ◌++◌, length, arith, Bool-cases, ℤ, pos, negsuc, ◌+ℤ◌, ltb_ℤ, leb_ℤ, Bytes,
  if◌then◌else◌,
}
use codextended.Client.{Client}
use codextended.Command.{
  Handlers, Context, Command, Action, ran, to_game, dropped, execute, client_command, command_loop,
  is_zombie, is_one_of, is_active, ucmds, flood_protect, passes_on,
}
use codextended.Command.Due.{
  up_from, due, has_gap, timed, is_held, noted, Carries, served, played, held, stop, next, Ends,
  whole, zombie, lost, Delivered,
}

carried :
    (h : Handlers) (cl : Client) (c : Command) (known pass : Bool)
    → is_one_of c.word ucmds ≡ known
    → pass ≡ (not known && not (is_held c cl))
    → Carries h cl c
        (noted c (
          if pass
          then h.game (if known then h.ucmd c.word (timed c cl) else timed c cl)
          else if known
          then h.ucmd c.word (timed c cl)
          else timed c cl))
        ((if known then ran c.seq c.word ∷ [] else [])
          ++ (if pass then to_game c.seq c.word ∷ [] else []))
carried h cl c true true k p = absurd (ground arith)
carried h cl c true false k p = served k
carried h cl c false true k p = played k (ground arith)
carried h cl c false false k p = held k (ground arith)

is_held-pass :
    (a b f r p k : Bool)
    → (not (a && b && f) && not k && r && p) ≡ (not k && not (a && b && f || not r || not p))
is_held-pass a b f r p k = ground arith

execute-Carries :
    (h : Handlers) (cl : Client) (c : Command)
    → Carries h cl c
        (execute h c.context cl c.seq c.text c.word).0
        (execute h c.context cl c.seq c.text c.word).1
unfolding execute
execute-Carries h cl c = carried h cl c (is_one_of c.word ucmds) _ refl (
    is_held-pass (is_active cl.state) (ltb_ℤ c.context.now c.context.elsewhere)
      (flood_protect c.text) c.context.running (passes_on c.word c.context.muted)
      (is_one_of c.word ucmds))

execute-last :
    (h : Handlers) (x : Context) (cl : Client) (seq : ℤ) (s cmd : Bytes)
    → (execute h x cl seq s cmd).0.last_client_command ≡ seq
unfolding execute
execute-last h x cl seq s cmd = refl

next-pos :
    (l : ℕ) (z : ℤ) → leb_ℤ z (pos l) ≡ false → ltb_ℤ (pos (suc l)) z ≡ false → z ≡ pos (suc l)
next-pos l (pos n) a b = ground arith
next-pos l (negsuc n) a b = ground arith

pos-next : (l : ℕ) → pos l +ℤ pos 1 ≡ pos (suc l)
unfolding ◌+ℤ◌
pos-next l = ground arith

Ends-more :
    (h : Handlers) (l l' : ℕ) (cs cs' rest : List Command) (before last : Client)
    (pre acts actions : List Action) (done : Bool)
    → has_gap l' cs' ≡ has_gap l cs
    → Ends h l cs rest before acts done last actions
    → Ends h l' cs' rest before (pre ++ acts) done last (pre ++ actions)
Ends-more h l l' cs cs' rest before last pre acts actions done g (whole r n) = whole r (g ∙ n)
Ends-more h l l' cs cs' rest before last pre acts actions done g (zombie z) = zombie z
Ends-more h l l' cs cs' rest before last pre acts actions done g (lost r y) =
    subst (λ xs. Ends h l' cs' rest before (pre ++ acts) false (h.drop before) xs)
      (append_assoc pre acts (dropped ∷ [])) (lost r (g ∙ y))

-- A client that is a zombie, and a command that skips a number: nothing is carried out.
zombie-Delivered :
    (h : Handlers) (l : ℕ) (cl : Client) (cs : List Command)
    → cl.last_client_command ≡ pos l
    → is_zombie cl.state ≡ true
    → Delivered h l cl cs false cl []
unfolding up_from
zombie-Delivered h l cl cs e z = record {
  executed = [];
  rest = due l cs;
  before = cl;
  acts = [];
  split = refl;
  numbers = refl;
  runs = stop cl;
  number = e ∙ ap pos (omega arith);
  ends = zombie z;
}

lost-Delivered :
    (h : Handlers) (l : ℕ) (cl : Client) (cs : List Command)
    → cl.last_client_command ≡ pos l
    → due l cs ≡ []
    → has_gap l cs ≡ true
    → Delivered h l cl cs false (h.drop cl) (dropped ∷ [])
unfolding up_from
lost-Delivered h l cl cs e d g = record {
  executed = [];
  rest = [];
  before = cl;
  acts = [];
  split = sym d;
  numbers = refl;
  runs = stop cl;
  number = e ∙ ap pos (omega arith);
  ends = lost refl g;
}

-- What a repeated command, and one that is due, add in front.
old-Delivered :
    (h : Handlers) (l : ℕ) (cl : Client) (c : Command) (cs : List Command) (done : Bool)
    (last : Client) (actions : List Action)
    → leb_ℤ c.seq (pos l) ≡ true
    → Delivered h l cl cs done last actions
    → Delivered h l cl (c ∷ cs) done last actions
unfolding due has_gap
old-Delivered h l cl c cs done last actions old d = record {
  executed = d.executed;
  rest = d.rest;
  before = d.before;
  acts = d.acts;
  split = rw old d.split;
  numbers = d.numbers;
  runs = d.runs;
  number = d.number;
  ends =
      Ends-more h l l cs (c ∷ cs) d.rest d.before last [] d.acts actions done (rw old refl) d.ends;
}

next-Delivered :
    (h : Handlers) (l : ℕ) (cl mid last : Client) (c : Command) (cs : List Command)
    (pre actions : List Action) (done : Bool)
    → c.seq ≡ pos (suc l)
    → Carries h cl c mid pre
    → Delivered h (suc l) mid cs done last actions
    → Delivered h l cl (c ∷ cs) done last (pre ++ actions)
unfolding due has_gap up_from
next-Delivered h l cl mid last c cs pre actions done e carries d =
    let n : suc l + length d.executed ≡ l + suc (length d.executed) = omega arith in
    let new : leb_ℤ c.seq (pos l) ≡ false = ground (arith, e) in
    let no_gap : ltb_ℤ (pos (suc l)) c.seq ≡ false = ground (arith, e) in
    record {
      executed = c ∷ d.executed;
      rest = d.rest;
      before = d.before;
      acts = pre ++ d.acts;
      split = rw (new, no_gap) (ap (λ xs. c ∷ xs) d.split);
      numbers = rw e (ap (λ xs. pos (suc l) ∷ xs) d.numbers);
      runs = next cl mid d.before c d.executed pre d.acts carries d.runs;
      number = d.number ∙ ap pos n;
      ends =
          Ends-more h (suc l) l cs (c ∷ cs) d.rest d.before last pre d.acts actions done
            (rw (new, no_gap) refl) d.ends;
    }

due-gap :
    (l : ℕ) (c : Command) (cs : List Command)
    → leb_ℤ c.seq (pos l) ≡ false
    → ltb_ℤ (pos (suc l)) c.seq ≡ true
    → (due l (c ∷ cs) ≡ []) × (has_gap l (c ∷ cs) ≡ true)
unfolding due has_gap
due-gap l c cs new gap = rw (new, gap) (refl, refl)

-- For a client whose last command has number `l`, given the commands of a message, whatever they
-- repeat or skip: those due, with the numbers from `l + 1` on, are carried out in order and each
-- once, which means that the function of its name is called on the client, or else the game gets it,
-- unless it is held; repeated ones do nothing. The loop ends with all that are due carried out, or
-- with the client dropped for a skipped number after all before it, or with a client that is a zombie.
pub command_loop-Delivered :
    (h : Handlers) (cl : Client) (l : ℕ) (cs : List Command)
    → cl.last_client_command ≡ pos l
    → Delivered h l cl cs (command_loop h cl cs).0 (command_loop h cl cs).1 (command_loop h cl cs).2
unfolding command_loop client_command
command_loop-Delivered h cl l [] e = record {
  executed = [];
  rest = [];
  before = cl;
  acts = [];
  split = unfold due in refl;
  numbers = unfold up_from in refl;
  runs = stop cl;
  number = e ∙ ap pos (omega arith);
  ends = whole refl (unfold has_gap in refl);
}
command_loop-Delivered h cl l (c ∷ cs) e = elim (Bool-cases (leb_ℤ c.seq cl.last_client_command)) [
  | inl old ↦ rw old (elim (Bool-cases (is_zombie cl.state)) [
    | inl gone ↦ rw gone (zombie-Delivered h l cl (c ∷ cs) e gone)
    | inr here ↦
        rw here
          (old-Delivered h l cl c cs _ _ _ (ground (arith, e)) (command_loop-Delivered h cl l cs e))
  ])
  | inr new ↦
      let fresh : leb_ℤ c.seq (pos l) ≡ false = subst (λ z. leb_ℤ c.seq z ≡ false) e new in
      rw new (elim (Bool-cases (ltb_ℤ (cl.last_client_command +ℤ pos 1) c.seq)) [
        | inl skips ↦
            let g =
              due-gap l c cs fresh
                (subst (λ z. ltb_ℤ z c.seq ≡ true) (ap (λ z. z +ℤ pos 1) e ∙ pos-next l) skips) in
            rw skips (lost-Delivered h l cl (c ∷ cs) e g.0 g.1)
        | inr follows ↦
            let at : c.seq ≡ pos (suc l) =
              next-pos l c.seq fresh (
                subst (λ z. ltb_ℤ z c.seq ≡ false) (ap (λ z. z +ℤ pos 1) e ∙ pos-next l) follows) in
            let after = (execute h c.context cl c.seq c.text c.word).0 in
            let acts = (execute h c.context cl c.seq c.text c.word).1 in
            let carries = execute-Carries h cl c in
            let number : after.last_client_command ≡ pos (suc l) =
              execute-last h c.context cl c.seq c.text c.word ∙ at in
            rw follows (elim (Bool-cases (is_zombie after.state)) [
              | inl gone ↦ rw gone (
                  subst (λ (xs : List Action). Delivered h l cl (c ∷ cs) false after xs)
                    (append-nil acts)
                    (next-Delivered h l cl after after c cs acts [] false at carries
                      (zombie-Delivered h (suc l) after cs number gone)))
              | inr here ↦ rw here (
                  next-Delivered h l cl after _ c cs acts _ _ at carries
                    (command_loop-Delivered h after (suc l) cs number))
            ])
      ])
]
