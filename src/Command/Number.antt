-- ===== src/Command/Number.antt =====
-- What follows the loop over the commands leaves the number of the last one alone.
use codextended.Prelude.{
  ℕ, ◌≡◌, refl, ◌∙◌, Bool, true, false, ◌&&◌, List, pos, Bool-cases, inl, inr, ◌==◌, eqb_ℤ,
}
use codextended.Client.{Client}
use codextended.Command.{Handlers, Action}
use codextended.Command.Message.{
  Binary, Input, is_behind, refuse, check_pure, last_command, after_commands, resend, finish,
}
use codextended.Command.Talk.{KeepsNumber}

module _ (h : Handlers) (b : Binary) (k : KeepsNumber h b) where
  refuse-number : (cl : Client) → (refuse h b cl).last_client_command ≡ cl.last_client_command
  unfolding refuse
  refuse-number cl = k.send_snapshot _ ∙ k.drop _

  check_pure-number :
      (x : Input) (cl : Client)
      → (check_pure h b x cl).0.last_client_command ≡ cl.last_client_command
  unfolding check_pure
  check_pure-number x cl = elim (Bool-cases (x.pure && eqb_ℤ x.pure_authentic (pos 2))) [
    | inl y ↦ rw y (refuse-number cl)
    | inr n ↦ rw n refl
  ]

  last_command-number :
      (c : ℕ) (cl : Client) → (last_command b c cl).0.last_client_command ≡ cl.last_client_command
  unfolding last_command
  last_command-number c cl = elim (Bool-cases (c == 0)) [
    | inl y ↦ rw y (k.user_move true cl)
    | inr n ↦ rw n (elim (Bool-cases (c == 1)) [
      | inl y ↦ rw y (k.user_move false cl)
      | inr n1 ↦ rw n1 (elim (Bool-cases (c == 3)) [ inl y ↦ rw y refl | inr n2 ↦ rw n2 refl ])
    ])
  ]

  after_commands-number :
      (x : Input) (cl : Client)
      → (after_commands h b x cl).0.last_client_command ≡ cl.last_client_command
  unfolding after_commands
  after_commands-number x cl = last_command-number x.last_bits _ ∙ check_pure-number x cl

  pub resend-number :
      (x : Input) (cl : Client) → (resend b x cl).0.last_client_command ≡ cl.last_client_command
  unfolding resend
  resend-number x cl = elim (Bool-cases (is_behind x cl)) [
    | inl y ↦ rw y (k.send_gamestate cl)
    | inr n ↦ rw n refl
  ]

  -- What follows the loop keeps its actions and, if it was not broken off, the client's number.
  pub finish-actions : (x : Input) (r : Bool × Client × List Action) → (finish h b x r).1 ≡ r.2
  finish-actions x r = elim (Bool-cases r.0) [ inl y ↦ rw y refl | inr n ↦ rw n refl ]

  pub finish-after :
      (x : Input) (r : Bool × Client × List Action)
      → r.0 ≡ true
      → (finish h b x r).0 ≡ (after_commands h b x r.1).0
  finish-after x r y = rw y refl

  pub finish-last :
      (x : Input) (r : Bool × Client × List Action)
      → r.0 ≡ true
      → (finish h b x r).0.last_client_command ≡ r.1.last_client_command
  finish-last x r y = rw y (after_commands-number x r.1)
