-- ===== src/Download/Whole.antt =====
-- A whole transfer: `custom_SV_WriteDownloadToClient` called again and again, with the client's
-- acknowledgements in between.
use codextended.Prelude.{
  ℕ, ◌-◌, ◌≤◌, ◌<◌, ◌≡◌, refl, ap, ◌∙◌, true, false, inl, inr, Option, none, some, List, [],
  if◌then◌else◌, length, ltb, take, subst, is_empty, arith, Bool-cases, Bytes, ℤ, leb_ℤ, pos,
  Outcome, ok, err,
}
use codextended.Strings.{q_strncpyz}
use codextended.Download.{
  Files, Transfer, Reply, refused, refusal, Sent, Config, continue_download, write_download, begin,
  start_notice, open_download, start_download,
}
use codextended.Client.{cs_connected, ClientState}
use codextended.Download.Window.{IsFile, Window}
use codextended.Download.Send.{Answered, continue_download-Answered}

module _ {H : Type 0} (files : Files H) (content : Bytes) (At : H → ℕ → Type 0)
    (f : IsFile files content At) where
  -- A call of the function on `t` returns, with a right answer to the open transfer `before`.
  pub record Returns (c : Config) (t before : Transfer H) (now : ℤ) : Type 0 where
    pub after : Transfer H
    pub sent : Sent
    pub returned : write_download files c t now ≡ ok (after, sent)
    pub answered : Answered files content At before after sent.reply

  -- The fields that the call sets first do not matter to the window.
  touched-Window :
      (t : Transfer H) (full : List Bytes) (s : ClientState) (r m : ℕ)
      → Window files content At t full
      → Window files content At (record t { state = s; rate = r; snapshot_msec = m }) full
  touched-Window t full s r m w = record {
    handle = w.handle;
    is_open = w.is_open;
    at = w.at;
    size = w.size;
    count_le = w.count_le;
    text = w.text;
    solid = w.solid;
    number = w.number;
    room = w.room;
    slots = w.slots;
    ended = w.ended;
  }

  -- An answer depends on three numbers of the transfer before.
  again :
      (s t u : Transfer H) (r : Reply)
      → s.client_block ≡ t.client_block
      → s.xmit_block ≡ t.xmit_block
      → s.current_block ≡ t.current_block
      → Answered files content At s u r
      → Answered files content At t u r
  again s t u r e f g a = record {
    client = a.client ∙ e;
    grown = omega (arith, a.grown, g);
    in_order = λ c x. a.in_order (omega arith) (omega arith);
    full = a.full;
    window = a.window;
    filled = a.filled;
    tells = a.tells;
  }

  -- While a file is open, every call returns, keeps the window (its slots hold the last eight blocks
  -- read of the file, none of them eight or more beyond the acknowledged ones), fills it up or
  -- reaches the end of the file, and sends nothing or one block, under the lowest 16 bits of its
  -- number: with the block's bytes of the file, if it is one of the last eight that have been read. As
  -- long as the client acknowledges no block before it is read, the block is one that has been read.
  pub write_download-Returns :
      (c : Config) (t : Transfer H) (full : List Bytes) (now : ℤ)
      → Window files content At t full
      → is_empty t.download_name ≡ false
      → Returns c t t now
  write_download-Returns c t full now w named =
      let t' : Transfer H = record t { state = cs_connected; rate = 25000; snapshot_msec = 50 } in
      record {
        after = (continue_download files c t' now).0;
        sent = record { notice = none; reply = (continue_download files c t' now).1 };
        returned = unfold write_download in ground (arith, w.is_open);
        answered = again t' t _ _ refl refl refl (
            continue_download-Answered files content At f c t' full now
              (touched-Window t full cs_connected 25000 50 w));
      }

  pub begin-Window :
      (t : Transfer H) (h : H)
      → t.download ≡ some h
      → At h 0
      → Window files content At (begin t (length content)) []
  begin-Window t h e at = record {
    handle = h;
    is_open = e;
    at = at;
    size = refl;
    count_le = omega arith;
    text = refl;
    solid = tt;
    number = refl;
    room = omega arith;
    slots = λ j low high. ground arith;
    ended = λ e. ground arith;
  }

  open_download-begin :
      (c : Config) (t : Transfer H) (h : H)
      → c.allow_download ≡ true
      → 4 ≤ length t.download_name
      → files.iw_pak (take (length t.download_name - 4) t.download_name) ≡ false
      → files.open_read t.download_name ≡ (pos (length content), some h)
      → 0 < length content
      → open_download files c t ≡ ok (begin (record t { download = some h }) (length content), none)
  unfolding open_download q_strncpyz
  open_download-begin c t h allowed long own there some_bytes =
      let e : length t.download_name - 3 - 1 ≡ length t.download_name - 4 = omega arith in
      ground (arith, ap (λ n. take n t.download_name) e)

  -- The call that starts a transfer returns, and answers as above, when downloads are allowed, the
  -- name has four bytes or more, the file is no pak of the game and the file is there, not empty.
  pub write_download-starts :
      (c : Config) (t : Transfer H) (h : H) (now : ℤ)
      → t.download ≡ none
      → c.allow_download ≡ true
      → 4 ≤ length t.download_name
      → files.iw_pak (take (length t.download_name - 4) t.download_name) ≡ false
      → files.open_read t.download_name ≡ (pos (length content), some h)
      → At h 0
      → 0 < length content
      → Returns c t (begin t (length content)) now
  write_download-starts c t h now closed allowed long own there at some_bytes =
      let t' : Transfer H = record t { state = cs_connected; rate = 25000; snapshot_msec = 50 } in
      let u = begin (record t' { download = some h }) (length content) in
      record {
        after = (continue_download files c u now).0;
        sent = record {
          notice = if c.notifications then some (start_notice u) else none;
          reply = (continue_download files c u now).1;
        };
        returned =
            let named : is_empty t.download_name ≡ false = ground arith in
            let opened = open_download-begin c t' h allowed long own there some_bytes in
            unfold write_download start_download in ground arith;
        answered = again u (begin t (length content)) _ _ refl refl refl (
            continue_download-Answered files content At f c u [] now
              (begin-Window (record t' { download = some h }) h refl at));
      }

-- What `custom_SV_WriteDownloadToClient` demands before it opens a file.
pub record Permits {H : Type 0} (files : Files H) (c : Config) (name : Bytes) : Type 0 where
  pub allowed : c.allow_download ≡ true
  pub own : files.iw_pak (take (length name - 4) name) ≡ false
  pub there : leb_ℤ (files.open_read name).0 (pos 0) ≡ false

module _ {H : Type 0} (files : Files H) where
  Opens : Config → Transfer H → Outcome (Transfer H × Option Reply) → Type 0
  Opens c t (err e) = Unit
  Opens c t (ok (u, some r)) = (m : Bytes) × (r ≡ refused m)
  Opens c t (ok (u, none)) = Permits files c t.download_name

  open_download-Opens : (c : Config) (t : Transfer H) → Opens c t (open_download files c t)
  unfolding Opens open_download refusal q_strncpyz
  open_download-Opens c t = elim (Bool-cases c.allow_download) [
    | inr n ↦ rw n (_, refl)
    | inl allowed ↦ rw allowed (elim (Bool-cases (ltb (length t.download_name - 3) 1)) [
      | inl short ↦ rw short tt
      | inr long ↦
          rw long
            (elim (Bool-cases
              (files.iw_pak (take (length t.download_name - 3 - 1) t.download_name))) [
                | inl own ↦ rw own (_, refl)
                | inr other ↦
                    rw other
                      (elim (Bool-cases (leb_ℤ (files.open_read t.download_name).0 (pos 0))) [
                        | inl missing ↦ rw missing (_, refl)
                        | inr there ↦ rw there (record {
                          allowed = refl;
                          own =
                              let e : length t.download_name - 4 ≡ length t.download_name - 3 - 1 =
                                omega arith in
                              rw e other;
                          there = there;
                        })
                      ])
              ])
    ])
  ]

  Sends : Config → Transfer H → Outcome (Transfer H × Sent) → Type 0
  Sends c t (err e) = Unit
  Sends c t (ok (u, o)) =
      (i : ℕ) (s : Option ℕ) (b : Bytes)
      → o.reply ≡ Reply.block i s b
      → Permits files c t.download_name

  start_download-Sends :
      (c : Config) (t : Transfer H) (now : ℤ) (r : Outcome (Transfer H × Option Reply))
      → Opens c t r
      → Sends c t (start_download files c now r)
  unfolding Sends Opens start_download
  start_download-Sends c t now (err e) p = tt
  start_download-Sends c t now (ok (u, some r)) p = λ i s b e. absurd (ground (arith, p.1))
  start_download-Sends c t now (ok (u, none)) p = λ i s b e. p

  write_download-start :
      (c : Config) (t : Transfer H) (now : ℤ)
      → t.download ≡ none
      → is_empty t.download_name ≡ false
      → write_download files c t now
        ≡ start_download files c now (
            open_download files c
              (record t { state = cs_connected; rate = 25000; snapshot_msec = 50 }))
  unfolding write_download
  write_download-start c t now closed named = ground arith

  write_download-Sends :
      (c : Config) (t : Transfer H) (now : ℤ)
      → t.download ≡ none
      → Sends c t (write_download files c t now)
  write_download-Sends c t now closed = elim (Bool-cases (is_empty t.download_name)) [
    | inl unnamed ↦ unfold write_download Sends in rw unnamed (λ i s b e. absurd (ground arith))
    | inr named ↦
        let u : Transfer H = record t { state = cs_connected; rate = 25000; snapshot_msec = 50 } in
        rw (write_download-start c t now closed named)
          (unfold Sends in start_download-Sends c u now _ (open_download-Opens c u))
  ]

  -- A block of a file that was not open is sent only if downloads are allowed, the file is no pak
  -- of the game, and the file is there and not empty.
  pub write_download-Permits :
      (c : Config) (t u : Transfer H) (now : ℤ) (o : Sent) (i : ℕ) (s : Option ℕ) (b : Bytes)
      → t.download ≡ none
      → write_download files c t now ≡ ok (u, o)
      → o.reply ≡ Reply.block i s b
      → Permits files c t.download_name
  unfolding Sends
  write_download-Permits c t u now o i s b closed e r =
      subst (Sends c t) e (write_download-Sends c t now closed) i s b r
