-- ===== src/Net/Dotted.antt =====
-- The bytes of an address as text.
use codextended.Prelude.{
  ℕ, zero, suc, ◌+◌, ◌/◌, ◌%◌, ◌≤◌, ◌<◌, [], ◌∷◌, ◌++◌, All, All-append, length, length-append,
  arith, Bytes, pos,
}
use codextended.Net.{Ip}
use codextended.Net.Text.{ip_text}
use codextended.Status.{show_int, show_loop}

-- A digit or a dot.
abbrev pub IsDotted : ℕ → Type 0
IsDotted c = (b'.' ≤ c) × (c ≤ b'9')

show_loop-IsDotted :
    (left n : ℕ) (acc : Bytes) → All IsDotted acc → All IsDotted (show_loop left n acc)
unfolding show_loop
show_loop-IsDotted zero n acc h = h
show_loop-IsDotted (suc left) n acc h =
    ground (arith, show_loop-IsDotted left (n / 10) ((b'0' + n % 10) ∷ acc))

show_loop_more : (left n : ℕ) (acc : Bytes) → length acc ≤ length (show_loop left n acc)
unfolding show_loop
show_loop_more zero n acc = omega arith
show_loop_more (suc left) n acc =
    ground (arith, show_loop_more left (n / 10) ((b'0' + n % 10) ∷ acc))

show_int-IsDotted : (n : ℕ) → All IsDotted (show_int (pos n))
unfolding show_int
show_int-IsDotted n = show_loop-IsDotted 10 n [] tt

pub ip_text-IsDotted : (ip : Ip) → All IsDotted (ip_text ip)
ip_text-IsDotted ip =
    All-append IsDotted _ (b'.' ∷ show_int (pos ip.b3))
      (All-append IsDotted _ (b'.' ∷ show_int (pos ip.b2))
        (All-append IsDotted _ (b'.' ∷ show_int (pos ip.b1)) (show_int-IsDotted ip.b0)
          (omega arith, show_int-IsDotted ip.b1))
        (omega arith, show_int-IsDotted ip.b2))
      (omega arith, show_int-IsDotted ip.b3)

show_loop_below : (left n : ℕ) (acc : Bytes) → length (show_loop left n acc) ≤ left + length acc
unfolding show_loop
show_loop_below zero n acc = omega arith
show_loop_below (suc left) n acc =
    ground (arith, show_loop_below left (n / 10) ((b'0' + n % 10) ∷ acc))

show_int_below : (n : ℕ) → length (show_int (pos n)) ≤ 10
unfolding show_int
show_int_below n = omega (arith, show_loop_below 10 n [])

pub length-ip_text : (ip : Ip) → (0 < length (ip_text ip)) × (length (ip_text ip) ≤ 43)
length-ip_text ip =
    let n3 = length-append {0} (show_int (pos ip.b0)) (b'.' ∷ show_int (pos ip.b1)) in
    let n2 =
      length-append {0} (show_int (pos ip.b0) ++ b'.' ∷ show_int (pos ip.b1))
        (b'.' ∷ show_int (pos ip.b2)) in
    let n1 =
      length-append {0}
        (show_int (pos ip.b0) ++ b'.' ∷ show_int (pos ip.b1) ++ b'.' ∷ show_int (pos ip.b2))
        (b'.' ∷ show_int (pos ip.b3)) in
    (
      omega (arith, n1, n2, n3),
      omega (
        arith,
        n1,
        n2,
        n3,
        show_int_below ip.b0,
        show_int_below ip.b1,
        show_int_below ip.b2,
        show_int_below ip.b3,
      ),
    )
