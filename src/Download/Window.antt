-- ===== src/Download/Window.antt =====
-- The window of a download: its slots hold the last eight blocks that have been read of the file.
use codextended.Prelude.{
  ℕ, zero, suc, ◌+◌, ◌%◌, ◌≤◌, ◌<◌, ◌≡◌, refl, sym, ap, ◌∙◌, Bool, true, false, inl, inr, some,
  List, [], ◌∷◌, ◌++◌, ◌==◌, if◌then◌else◌, length, take, drop, join, All, All-append, join-snoc,
  take-add, length-drop, length-append, get_elem?, get_elem?-snoc_below, get_elem?-snoc_end,
  is_empty, is_empty-take, take-length-take, write, arith, Bool-cases, Bytes,
}
use codextended.Download.{Files, Transfer, load_block, can_load, load_loop, load_blocks}

-- A block stays in its slot while its number is in the window.
slot_ne : (j c : ℕ) → j < c → c < j + 8 → ((j % 8) == (c % 8)) ≡ false
slot_ne j c h k = ground arith

pub push-slots :
    (xs : List Bytes) (b : Bytes) (blocks : ℕ → Bytes) (c : ℕ)
    → length xs ≡ c
    → ((j : ℕ) → c ≤ j + 8 → j < c → get_elem? xs j ≡ some (blocks (j % 8)))
    → (j : ℕ) → suc c ≤ j + 8
    → j < suc c
    → get_elem? (xs ++ b ∷ []) j ≡ some (write blocks (c % 8) b (j % 8))
push-slots xs b blocks c e h j low high = elim (Bool-cases (j == c)) [
  | inl here ↦ ground (arith, get_elem?-snoc_end xs b)
  | inr n ↦ ground (arith, h j (omega arith), get_elem?-snoc_below xs b j, slot_ne j c)
]

module _ {H : Type 0} (files : Files H) (content : Bytes) (At : H → ℕ → Type 0) where
  -- What the code relies on in `FS_Read`: `At h k` says that handle `h` stands at byte `k` of a
  -- file with this content, and reading gives the next bytes and moves the handle past them.
  pub record IsFile : Type 0 where
    pub bytes :
        (h : H) (k n : ℕ)
        → At h k
        → k ≤ length content
        → (files.read h n).0 ≡ some (take n (drop k content))
    pub moved :
        (h : H) (k n : ℕ)
        → At h k
        → k ≤ length content
        → At (files.read h n).1 (k + length (take n (drop k content)))

  -- All blocks loaded so far, with the empty one that ends the file.
  abbrev pub loaded : Transfer H → List Bytes → List Bytes
  loaded t full = if t.eof then full ++ [] ∷ [] else full

  -- `full` lists the blocks of the file that have been read, from the first on.
  pub record Window (t : Transfer H) (full : List Bytes) : Type 0 where
    pub handle : H
    pub is_open : t.download ≡ some handle
    pub at : At handle t.count
    pub size : t.size ≡ length content
    pub count_le : t.count ≤ length content
    pub text : join full ≡ take t.count content
    pub solid : All (λ (b : Bytes). is_empty b ≡ false) full
    pub number : length (loaded t full) ≡ t.current_block
    pub room : t.current_block ≤ t.client_block + 8
    pub slots :
        (j : ℕ)
        → t.current_block ≤ j + 8
        → j < t.current_block
        → get_elem? (loaded t full) j ≡ some (t.blocks (j % 8))
    pub ended : t.eof ≡ true → t.count ≡ t.size

  -- The transfer after a block has been read and put into its slot.
  abbrev next : Transfer H → H → Bytes → Transfer H
  next t h chunk = record t {
    download = some h;
    blocks = write t.blocks (t.current_block % 8) chunk;
    count = t.count + length chunk;
    current_block = suc t.current_block;
  }

  next-Window :
      (t : Transfer H) (full : List Bytes) (h : H) (n : ℕ)
      → Window t full
      → t.eof ≡ false
      → t.current_block < t.client_block + 8
      → t.count < length content
      → At h (t.count + length (take (suc n) (drop t.count content)))
      → Window
          (next t h (take (suc n) (drop t.count content)))
          (full ++ take (suc n) (drop t.count content) ∷ [])
  next-Window t full h n w going room more at = record {
    handle = h;
    is_open = refl;
    at = at;
    size = w.size;
    count_le = omega (
      arith,
      (take-length-take (suc n) (drop t.count content)).1,
      length-drop t.count content w.count_le,
    );
    text =
        join-snoc full (take (suc n) (drop t.count content))
        ∙ ap (λ zs. zs ++ take (suc n) (drop t.count content)) w.text
        ∙ ap (λ zs. take t.count content ++ zs)
            (sym (take-length-take (suc n) (drop t.count content)).0)
        ∙ sym (take-add t.count (length (take (suc n) (drop t.count content))) content);
    solid =
        All-append (λ (b : Bytes). is_empty b ≡ false) full _ w.solid
          (
            is_empty-take n (drop t.count content)
                (omega (arith, length-drop t.count content w.count_le)),
            tt,
          );
    number = rw going (
        omega (
          arith,
          length-append full (take (suc n) (drop t.count content) ∷ []),
          rw going at w.number,
        ));
    room = omega arith;
    slots =
        rw going
          (push-slots full _ t.blocks t.current_block (rw going at w.number) (rw going at w.slots));
    ended = λ e. ground arith;
  }

  -- The transfer `u` comes from `t` by reading one more block.
  record Loaded (t : Transfer H) (full : List Bytes) (u : Transfer H) : Type 0 where
    chunk : Bytes
    window : Window u (full ++ chunk ∷ [])
    one_more : u.current_block ≡ suc t.current_block
    client : u.client_block ≡ t.client_block
    xmit : u.xmit_block ≡ t.xmit_block

  -- The transfer `u` comes from `t` by reading as far as the window and the file allow.
  pub record Filled (t u : Transfer H) : Type 0 where
    pub full : List Bytes
    pub window : Window u full
    pub done : can_load u ≡ false
    pub client : u.client_block ≡ t.client_block
    pub xmit : u.xmit_block ≡ t.xmit_block
    pub grown : t.current_block ≤ u.current_block

  next-Loaded :
      (t : Transfer H) (full : List Bytes) (n : ℕ) (f : IsFile) (w : Window t full)
      → t.eof ≡ false
      → t.current_block < t.client_block + 8
      → t.count < length content
      → Loaded t full (next t (files.read w.handle (suc n)).1 (take (suc n) (drop t.count content)))
  next-Loaded t full n f w going room more = record {
    chunk = take (suc n) (drop t.count content);
    window =
        next-Window t full _ n w going room more (f.moved w.handle t.count (suc n) w.at w.count_le);
    one_more = refl;
    client = refl;
    xmit = refl;
  }

  module _ (f : IsFile) where
    load_block-next :
        (t : Transfer H) (fast : Bool) (h : H) (chunk : Bytes)
        → (files.read h (if fast then 8192 else 2048)).0 ≡ some chunk
        → load_block files fast h t ≡ next t (files.read h (if fast then 8192 else 2048)).1 chunk
    unfolding load_block
    load_block-next t true h chunk e = ground arith
    load_block-next t false h chunk e = ground arith

    load_block-Loaded :
        (t : Transfer H) (full : List Bytes) (fast : Bool) (w : Window t full)
        → t.eof ≡ false
        → t.current_block < t.client_block + 8
        → t.count < length content
        → Loaded t full (load_block files fast w.handle t)
    load_block-Loaded t full true w going room more =
        rw (load_block-next t true w.handle _ (f.bytes w.handle t.count 8192 w.at w.count_le))
          (next-Loaded t full 8191 f w going room more)
    load_block-Loaded t full false w going room more =
        rw (load_block-next t false w.handle _ (f.bytes w.handle t.count 2048 w.at w.count_le))
          (next-Loaded t full 2047 f w going room more)

    load_loop-step :
        (left : ℕ) (t : Transfer H) (fast : Bool) (h : H)
        → t.download ≡ some h
        → load_loop (suc left) files fast t
          ≡ (if can_load t then load_loop left files fast (load_block files fast h t) else t)
    unfolding load_loop
    load_loop-step left t fast h e = ground arith

    load_loop-Filled :
        (left : ℕ) (t : Transfer H) (full : List Bytes) (fast : Bool)
        → Window t full
        → left + t.current_block ≡ t.client_block + 8
        → Filled t (load_loop left files fast t)
    unfolding can_load
    load_loop-Filled zero t full fast w e =
        unfold load_loop in
        record {
          full = full;
          window = w;
          done = ground arith;
          client = refl;
          xmit = refl;
          grown = omega arith;
        }
    load_loop-Filled (suc left) t full fast w e =
        rw (load_loop-step left t fast w.handle w.is_open) (elim (Bool-cases (can_load t)) [
          | inl more ↦
              let going : t.eof ≡ false = ground (arith, w.ended) in
              let b =
                load_block-Loaded t full fast w going (ground arith)
                  (ground (arith, w.size, w.count_le)) in
              let rest =
                load_loop-Filled left (load_block files fast w.handle t) (full ++ b.chunk ∷ []) fast
                  b.window (omega (arith, b.one_more, b.client, e)) in
              rw more (record {
                full = rest.full;
                window = rest.window;
                done = rest.done;
                client = rest.client ∙ b.client;
                xmit = rest.xmit ∙ b.xmit;
                grown = omega (arith, b.one_more, rest.grown);
              })
          | inr stop ↦ rw stop (record {
            full = full;
            window = w;
            done = stop;
            client = refl;
            xmit = refl;
            grown = omega arith;
          })
        ])

    -- The reading loop ends with the window full or the file at its end, and keeps the window.
    pub load_blocks-Filled :
        (t : Transfer H) (full : List Bytes) (fast : Bool)
        → Window t full
        → Filled t (load_blocks files fast t)
    unfolding load_blocks
    load_blocks-Filled t full fast w = load_loop-Filled _ t full fast w (omega (arith, w.room))
