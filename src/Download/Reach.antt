-- ===== src/Download/Reach.antt =====
-- The states that a transfer reaches, by any calls and acknowledgements.
use codextended.Prelude.{
  ok-injective, ℕ, suc, ◌≡◌, sym, ap, ◌∙◌, true, inl, inr, none, List, join, subst, is_empty, arith,
  Bool-cases, Bytes, ℤ, take_all, ok,
}
use codextended.Download.{Files, Transfer, nothing, Sent, Config, write_download}
use codextended.Download.Window.{IsFile, Window}
use codextended.Download.Whole.{write_download-Returns}

module _ {H : Type 0} (files : Files H) where
  -- The transfers that come from `s` by calls and by acknowledgements. The game binary handles the
  -- client's acknowledgements; the code that `SV_NextDownload_f` has of it, which is not compiled,
  -- takes any acknowledgement of block `downloadClientBlock`, whether the block has been sent or not.
  pub data Reached (s : Transfer H) : Transfer H → Type 0 where
    start : Reached s s
    called :
        (t u : Transfer H) (c : Config) (now : ℤ) (o : Sent)
        → Reached s t
        → write_download files c t now ≡ ok (u, o)
        → Reached s u
    acknowledged :
        (t : Transfer H) (now : ℤ)
        → Reached s t
        → Reached s (record t { client_block = suc t.client_block; send_time = now })

module _ {H : Type 0} (files : Files H) (content : Bytes) (At : H → ℕ → Type 0)
    (f : IsFile files content At) where
  -- The window, with the blocks that it has, and the file once its end is in the window.
  pub record Whole (t : Transfer H) : Type 0 where
    pub full : List Bytes
    pub window : Window files content At t full
    pub complete : t.eof ≡ true → join full ≡ content

  Whole-Window : (t : Transfer H) (full : List Bytes) → Window files content At t full → Whole t
  Whole-Window t full w = record {
    full = full;
    window = w;
    complete = λ e. w.text ∙ take_all t.count content (omega (arith, w.ended e, w.size));
  }

  acknowledged-Window :
      (t : Transfer H) (full : List Bytes) (now : ℤ)
      → Window files content At t full
      → Window files content At
          (record t { client_block = suc t.client_block; send_time = now })
          full
  acknowledged-Window t full now w = record {
    handle = w.handle;
    is_open = w.is_open;
    at = w.at;
    size = w.size;
    count_le = w.count_le;
    text = w.text;
    solid = w.solid;
    number = w.number;
    room = omega (arith, w.room);
    slots = w.slots;
    ended = w.ended;
  }

  unnamed-nothing :
      (c : Config) (t : Transfer H) (now : ℤ)
      → is_empty t.download_name ≡ true
      → write_download files c t now ≡ ok (t, record { notice = none; reply = nothing })
  unfolding write_download
  unnamed-nothing c t now e = ground arith

  -- A call on an open transfer, whatever its name, gives back a window.
  called-Window :
      (c : Config) (t u : Transfer H) (full : List Bytes) (now : ℤ) (o : Sent)
      → Window files content At t full
      → write_download files c t now ≡ ok (u, o)
      → Whole u
  called-Window c t u full now o w e = elim (Bool-cases (is_empty t.download_name)) [
    | inl unnamed ↦
        let same : ok (t, record { notice = none; reply = nothing }) ≡ ok (u, o) =
          sym (unnamed-nothing c t now unnamed) ∙ e in
        Whole-Window u full
          (subst (λ v. Window files content At v full) (ap (λ p. p.0) (ok-injective _ _ same)) w)
    | inr named ↦
        let r = write_download-Returns files content At f c t full now w named in
        Whole-Window u r.answered.full (
          subst (λ v. Window files content At v r.answered.full)
            (ap (λ p. p.0) (ok-injective _ _ (sym r.returned ∙ e))) r.answered.window)
  ]

  -- In every state that a transfer reaches from a window on the file, by any calls and any
  -- acknowledgements of the block that is due: the window holds, so that its slots have the last
  -- eight blocks that were read of the file, and once the end of the file has been read, the
  -- non-empty blocks in their order make up the whole file.
  pub Reached-Whole :
      (s t : Transfer H) (full : List Bytes)
      → Window files content At s full
      → Reached files s t
      → Whole t
  Reached-Whole s t full w start = Whole-Window s full w
  Reached-Whole s t full w (called v _ c now o r e) =
      let before = Reached-Whole s v full w r in
      called-Window c v t before.full now o before.window e
  Reached-Whole s t full w (acknowledged v now r) =
      let before = Reached-Whole s v full w r in
      Whole-Window _ before.full (acknowledged-Window v before.full now before.window)
