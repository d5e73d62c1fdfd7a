-- ===== src/Download/Send.antt =====
-- What `custom_SV_WriteDownloadToClient` sends once a file is open.
use codextended.Prelude.{
  ℕ, suc, ◌+◌, ◌%◌, ◌≤◌, ◌<◌, ◌≡◌, refl, ap, true, false, not, ◌&&◌, ◌⊎◌, inl, inr, none, some,
  List, [], ◌∷◌, ◌==◌, ltb, if◌then◌else◌, length, length-append, get_elem?, write, arith,
  Bool-cases, Bytes, ℤ, ltb_ℤ, pos, ◌-ℤ◌,
}
use codextended.Download.{
  Files, Transfer, Reply, nothing, refused, block, can_load, add_eof, send_block, transmit, Config,
  continue_download,
}
use codextended.Download.Window.{IsFile, Window, loaded, Filled, load_blocks-Filled, push-slots}

-- A reply to a client that downloads a file of this size, of which `blocks` are the blocks read, and
-- `after` the number to be sent next: block `i` under the lowest 16 bits of its number, block 0 with
-- the size. The bytes are those of block `i`, if it is one of the last eight that have been read.
abbrev pub Tells : List Bytes → ℕ → ℕ → Reply → Type 0
Tells blocks after size nothing = Unit
Tells blocks after size (refused message) = true ≡ false
Tells blocks after size (block n s bytes) =
    (i : ℕ) × (suc i ≡ after)
    × (n ≡ i % 65536)
    × (s ≡ (if i == 0 then some size else none))
    × (i < length blocks → length blocks ≤ i + 8 → get_elem? blocks i ≡ some bytes)

module _ {H : Type 0} (files : Files H) (content : Bytes) (At : H → ℕ → Type 0) where
  -- The window holds, and it is full or holds the end of the file; `t` is the transfer before.
  record Ready (t u : Transfer H) : Type 0 where
    client : u.client_block ≡ t.client_block
    xmit : u.xmit_block ≡ t.xmit_block
    grown : t.current_block ≤ u.current_block
    full : List Bytes
    window : Window files content At u full
    filled : (u.current_block ≡ u.client_block + 8) ⊎ (u.eof ≡ true)

  -- After a call on `t`: the window holds as above, and the reply is right. If neither the block that
  -- is due from the client nor the one to be sent was beyond those read, this is so afterwards.
  pub record Answered (t u : Transfer H) (r : Reply) : Type 0 where
    pub client : u.client_block ≡ t.client_block
    pub grown : t.current_block ≤ u.current_block
    pub in_order :
        t.client_block ≤ t.current_block
        → t.xmit_block ≤ t.current_block
        → u.xmit_block ≤ u.current_block
    pub full : List Bytes
    pub window : Window files content At u full
    pub filled : (u.current_block ≡ u.client_block + 8) ⊎ (u.eof ≡ true)
    pub tells : Tells (loaded files content At u full) u.xmit_block (length content) r

  ended-Window :
      (t : Transfer H) (full : List Bytes)
      → Window files content At t full
      → t.eof ≡ false
      → t.count ≡ t.size
      → t.current_block < t.client_block + 8
      → Window files content At
          (record t {
            blocks = write t.blocks (t.current_block % 8) [];
            current_block = suc t.current_block;
            eof = true;
          })
          full
  ended-Window t full w going end room = record {
    handle = w.handle;
    is_open = w.is_open;
    at = w.at;
    size = w.size;
    count_le = w.count_le;
    text = w.text;
    solid = w.solid;
    number = omega (arith, length-append full ([] ∷ []), rw going at w.number);
    room = omega arith;
    slots =
        push-slots full [] t.blocks t.current_block (rw going at w.number) (rw going at w.slots);
    ended = λ e. end;
  }

  add_eof-Ready : (t u : Transfer H) → Filled files content At t u → Ready t (add_eof u)
  unfolding add_eof can_load
  add_eof-Ready t u f =
      elim (Bool-cases
        (u.count == u.size && not u.eof && ltb u.current_block (u.client_block + 8))) [
          | inl c ↦ rw c (record {
            client = f.client;
            xmit = f.xmit;
            grown = omega (arith, f.grown);
            full = f.full;
            window = ended-Window u f.full f.window (ground arith) (ground arith) (ground arith);
            filled = inr refl;
          })
          | inr n ↦ rw n (record {
            client = f.client;
            xmit = f.xmit;
            grown = f.grown;
            full = f.full;
            window = f.window;
            filled = elim (Bool-cases u.eof) [
              | inl e ↦ inr e
              | inr going ↦ inl (ground (arith, f.done, f.window.room))
            ];
          })
        ]

  sent-Window :
      (t : Transfer H) (full : List Bytes) (now : ℤ) (i : ℕ)
      → Window files content At t full
      → Window files content At (record t { xmit_block = suc i; send_time = now }) full
  sent-Window t full now i w = record {
    handle = w.handle;
    is_open = w.is_open;
    at = w.at;
    size = w.size;
    count_le = w.count_le;
    text = w.text;
    solid = w.solid;
    number = w.number;
    room = w.room;
    slots = w.slots;
    ended = w.ended;
  }

  send_block-Answered :
      (s t : Transfer H) (now : ℤ) (i : ℕ)
      → Ready s t
      → (s.client_block ≤ s.current_block → s.xmit_block ≤ s.current_block → i < t.current_block)
      → Answered s
          (send_block (record t { xmit_block = i }) now).0
          (send_block (record t { xmit_block = i }) now).1
  unfolding send_block
  send_block-Answered s t now i r below = record {
    client = r.client;
    grown = r.grown;
    in_order = λ c x. below c x;
    full = r.full;
    window = sent-Window t r.full now i r.window;
    filled = r.filled;
    tells = (
      i,
      refl,
      refl,
      ap (λ n. if i == 0 then some n else none) r.window.size,
      λ high low.
          r.window.slots i (omega (arith, r.window.number, low))
            (omega (arith, r.window.number, high)),
    );
  }

  transmit-Answered :
      (s t : Transfer H) (now : ℤ) → Ready s t → Answered s (transmit t now).0 (transmit t now).1
  unfolding transmit
  transmit-Answered s t now r = elim (Bool-cases (t.client_block == t.current_block)) [
    | inl e ↦ rw e idle
    | inr some_left ↦ rw some_left (elim (Bool-cases (t.xmit_block == t.current_block)) [
      | inl all_sent ↦ rw all_sent (elim (Bool-cases (ltb_ℤ (pos 1000) (now -ℤ t.send_time))) [
        | inl late ↦ rw late (
            send_block-Answered s t now t.client_block r
              (λ c x. ground (arith, some_left, r.client, r.grown)))
        | inr wait ↦ rw wait idle
      ])
      | inr more ↦ rw more (
          send_block-Answered s t now t.xmit_block r (λ c x. ground (arith, more, r.xmit, r.grown)))
    ])
  ]
    where
      idle : Answered s t nothing
      idle = record {
        client = r.client;
        grown = r.grown;
        in_order = λ c x. omega (arith, r.xmit, r.grown);
        full = r.full;
        window = r.window;
        filled = r.filled;
        tells = tt;
      }

  pub continue_download-Answered :
      (f : IsFile files content At) (c : Config) (t : Transfer H) (full : List Bytes) (now : ℤ)
      → Window files content At t full
      → Answered t (continue_download files c t now).0 (continue_download files c t now).1
  unfolding continue_download
  continue_download-Answered f c t full now w =
      transmit-Answered t _ now
        (add_eof-Ready t _ (load_blocks-Filled files content At f t full c.fast w))
