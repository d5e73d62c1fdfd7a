-- ===== src/Admin/Search.antt =====
-- Whom `SV_Kick_f` kicks.
use codextended.Prelude.{
  ℕ, zero, suc, ◌+◌, ◌≤◌, ◌<◌, ◌≡◌, refl, ap, subst, ◌∙◌, sym, inl, inr, Bool, true, false, not,
  ◌&&◌, List, [], ◌∷◌, ◌==◌, ==_iff, ==_refl, ltb, leb, if◌then◌else◌, length, arith, Bytes,
  Bool-cases, write, codes,
}
use codextended.Client.{Client}
use codextended.Connect.{is_free}
use codextended.Bans.{Drop, Running, argv}
use codextended.Admin.{
  name_has, search_loop, clear_from, x_get_players_by_name, count_found, affected, kicks, sv_kick_f,
}

-- A client that is there and whose name has the text in it.
abbrev pub is_match : (ℕ → Client) → Bytes → ℕ → Bool
is_match clients s i = not (is_free (clients i)) && name_has (clients i).name s

abbrev marked : (ℕ → Client) → Bytes → (ℕ → Bool) → ℕ → ℕ → Bool
marked clients s found i =
    if is_free (clients i)
    then found
    else if name_has (clients i).name s
    then write found i true
    else found

abbrev within : ℕ → ℕ → ℕ → Bool
within i left j = leb i j && ltb j (i + left)

marked_here :
    (left i : ℕ) (clients : ℕ → Client) (s : Bytes) (found : ℕ → Bool)
    → (if within (suc i) left i && is_match clients s i then true else marked clients s found i i)
      ≡ (if within i (suc left) i && is_match clients s i then true else found i)
marked_here left i clients s found = ground (arith, ==_refl i)

marked_there :
    (left i : ℕ) (clients : ℕ → Client) (s : Bytes) (found : ℕ → Bool) (j : ℕ)
    → (j == i) ≡ false
    → (if within (suc i) left j && is_match clients s j then true else marked clients s found i j)
      ≡ (if within i (suc left) j && is_match clients s j then true else found j)
marked_there left i clients s found j n = ground (arith, n)

search_loop-found :
    (left i : ℕ) (clients : ℕ → Client) (s : Bytes) (found : ℕ → Bool) (j : ℕ)
    → search_loop left i clients s found j
      ≡ (if within i left j && is_match clients s j then true else found j)
unfolding search_loop
search_loop-found zero i clients s found j = ground arith
search_loop-found (suc left) i clients s found j =
    search_loop-found left (suc i) clients s (marked clients s found i) j
    ∙ elim (Bool-cases (j == i)) [
      | inl e ↦ let same = (==_iff j i).0 e in rw same (marked_here left i clients s found)
      | inr n ↦ marked_there left i clients s found j n
    ]

-- No place from `i` on, `left` of them, or one only, or two.
pub data Found (p : ℕ → Bool) (i left : ℕ) (acc result : ℕ × ℕ) : Type 0 where
  nobody : result ≡ acc → ((j : ℕ) → i ≤ j → j < i + left → p j ≡ false) → Found p i left acc result
  only :
      (k : ℕ)
      → result ≡ (suc acc.0, k)
      → i ≤ k
      → k < i + left
      → p k ≡ true
      → ((j : ℕ) → i ≤ j → j < i + left → p j ≡ true → j ≡ k)
      → Found p i left acc result
  several :
      (k l : ℕ)
      → suc (suc acc.0) ≤ result.0
      → k < l
      → l < i + left
      → p k ≡ true
      → p l ≡ true
      → Found p i left acc result

Found-here :
    (left i : ℕ) (p : ℕ → Bool) (acc result : ℕ × ℕ)
    → p i ≡ true
    → Found p (suc i) left (suc acc.0, i) result
    → Found p i (suc left) acc result
Found-here left i p acc result h (nobody e none_left) =
    only i e (omega arith) (omega arith) h (λ j above below hit. elim (Bool-cases (j == i)) [
      | inl same ↦ (==_iff j i).0 same
      | inr other ↦ absurd (cc (none_left j (ground arith) (omega arith), hit))
    ])
Found-here left i p acc result h (only k e above below hit unique) =
    several i k (omega (arith, ap (λ (x : ℕ × ℕ). x.0) e)) (omega arith) (omega arith) h hit
Found-here left i p acc result h (several k l count less below hit hit') =
    several k l (omega arith) less (omega arith) hit hit'

Found-there :
    (left i : ℕ) (p : ℕ → Bool) (acc result : ℕ × ℕ)
    → p i ≡ false
    → Found p (suc i) left acc result
    → Found p i (suc left) acc result
Found-there left i p acc result h (nobody e none_left) = nobody e (λ j above below.
    elim (Bool-cases (j == i)) [
      | inl same ↦ let e : j ≡ i = (==_iff j i).0 same in rw e h
      | inr other ↦ none_left j (ground arith) (omega arith)
    ])
Found-there left i p acc result h (only k e above below hit unique) =
    only k e (omega arith) (omega arith) hit (λ j above' below' hit'. elim (Bool-cases (j == i)) [
      | inl same ↦ let e : j ≡ i = (==_iff j i).0 same in absurd (cc (rw e at hit', h))
      | inr other ↦ unique j (ground arith) (omega arith) hit'
    ])
Found-there left i p acc result h (several k l count less below hit hit') =
    several k l count less (omega arith) hit hit'

count_found-Found :
    (left i : ℕ) (p : ℕ → Bool) (acc : ℕ × ℕ) → Found p i left acc (count_found left i p acc)
unfolding count_found
count_found-Found zero i p acc = nobody refl (λ j above below. absurd (omega arith))
count_found-Found (suc left) i p acc = elim (Bool-cases (p i)) [
  | inl h ↦ rw h (Found-here left i p acc _ h (count_found-Found left (suc i) p (suc acc.0, i)))
  | inr h ↦ rw h (Found-there left i p acc _ h (count_found-Found left (suc i) p acc))
]

affected-nobody : (p : ℕ → Bool) → count_found 64 0 p (0, 0) ≡ (0, 0) → affected false p ≡ []
unfolding affected
affected-nobody p e = rw e refl

affected-only :
    (p : ℕ → Bool) (k : ℕ) → count_found 64 0 p (0, 0) ≡ (1, k) → affected false p ≡ k ∷ []
unfolding affected
affected-only p k e = rw e refl

affected-several : (p : ℕ → Bool) → 2 ≤ (count_found 64 0 p (0, 0)).0 → affected false p ≡ []
unfolding affected
affected-several p h = ground arith

-- The clients below `n` that match, and the clients that are kicked: the only one, or nobody.
pub data Kicked (match : ℕ → Bool) (n : ℕ) (drops : List Drop) : Type 0 where
  nobody : drops ≡ [] → ((j : ℕ) → j < n → match j ≡ false) → Kicked match n drops
  only :
      (k : ℕ)
      → drops ≡ record { client = k; reason = codes "EXE_PLAYERKICKED" } ∷ []
      → k < n
      → match k ≡ true
      → ((j : ℕ) → j < n → match j ≡ true → j ≡ k)
      → Kicked match n drops
  several :
      (k l : ℕ)
      → drops ≡ []
      → k < l
      → l < n
      → match k ≡ true
      → match l ≡ true
      → Kicked match n drops

found_now :
    (v : Running) (clients : ℕ → Client) (args : List Bytes) (found : ℕ → Bool) (j : ℕ)
    → v.running ≡ true
    → length args ≡ 2
    → j < 64
    → x_get_players_by_name 0 v clients args found j
      ≡ (ltb j v.max_clients && is_match clients (argv args 1) j)
unfolding x_get_players_by_name clear_from
found_now v clients args found j r two below =
    ground (arith, search_loop-found v.max_clients 0 clients (argv args 1) (clear_from 0 found) j)

kicked_of :
    (match after : ℕ → Bool) (n : ℕ)
    → n ≤ 64
    → ((j : ℕ) → j < 64 → after j ≡ (ltb j n && match j))
    → Found after 0 64 (0, 0) (count_found 64 0 after (0, 0))
    → Kicked match n (kicks (affected false after))
unfolding kicks
kicked_of match after n small same (nobody e none_left) =
    nobody (rw (affected-nobody after e) refl)
      (λ j below. ground (arith, same j (omega arith), none_left j (omega arith) (omega arith)))
kicked_of match after n small same (only k e above below hit unique) =
    only k (rw (affected-only after k e) refl) (ground (arith, same k below))
      (ground (arith, same k below))
      (λ j less m. unique j (omega arith) (omega arith) (ground (arith, same j (omega arith))))
kicked_of match after n small same (several k l count less below hit hit') =
    several k l (rw (affected-several after (omega arith)) refl) less (ground (arith, same l below))
      (ground (arith, same k (omega arith))) (ground (arith, same l below))

kicks_now :
    (v : Running) (clients : ℕ → Client) (args : List Bytes) (found : ℕ → Bool)
    → v.running ≡ true
    → length args ≡ 2
    → (sv_kick_f 0 v clients args found).1
      ≡ kicks (affected false (x_get_players_by_name 0 v clients args found))
unfolding sv_kick_f
kicks_now v clients args found r two = ground (arith, r, two)

-- When the search starts with nothing found (its loop that clears begins at 0), and there are at
-- most 64 clients: `SV_Kick_f` kicks the only client whose name, with or without its colours, has
-- the text in it, and nobody when there is none or when there are several.
pub sv_kick_f-Kicked :
    (v : Running) (clients : ℕ → Client) (args : List Bytes) (found : ℕ → Bool)
    → v.running ≡ true
    → length args ≡ 2
    → v.max_clients ≤ 64
    → Kicked (is_match clients (argv args 1)) v.max_clients (sv_kick_f 0 v clients args found).1
sv_kick_f-Kicked v clients args found r two small =
    let after = x_get_players_by_name 0 v clients args found in
    subst (Kicked (is_match clients (argv args 1)) v.max_clients)
      (sym (kicks_now v clients args found r two))
      (kicked_of (is_match clients (argv args 1)) after v.max_clients small
        (λ j below. found_now v clients args found j r two below)
        (count_found-Found 64 0 after (0, 0)))
