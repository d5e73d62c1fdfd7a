-- ===== src/Examples/StringsAt.antt =====
-- The string routines and address tests at concrete inputs.
use codextended.Prelude.{◌≡◌, refl, some, [], ◌∷◌, Bytes, codes}
use codextended.Net.Text.{big_short, net_adr_to_string}
use codextended.Status.{show_int}
use codextended.Bits.{bit_place, has_bit, com_bit_set}
use codextended.Strings.{
  to_upper, q_strrchr, q_stristr, q_clean_str, sanitize_string, q_stricmpn, to_lower,
}
use codextended.Net.{type_eq, Adr, na_ip}

abbrev alias : Bytes
alias = codes "^1Al^^7 b"

clean_alias : q_clean_str alias ≡ codes "Al^ b"
unfolding q_clean_str
clean_alias = refl

strrchr_slash : q_strrchr (codes "a/b/c") b'/' ≡ some (codes "/c")
unfolding q_strrchr
strrchr_slash = refl

stristr_word : q_stristr (codes "The QUICK fox") (codes "quick") ≡ some (codes "QUICK fox")
unfolding q_stristr q_stricmpn to_upper
stristr_word = refl

sanitize_word : sanitize_string (27 ∷ b'x' ∷ codes "AbC") ≡ codes "abc"
unfolding sanitize_string to_lower
sanitize_word = refl

abbrev host : Adr
host = record {
  type = na_ip;
  ip = record { b0 = 10; b1 = 0; b2 = 0; b3 = 7 };
  ipx = [];
  port = 28960;
}

-- The port stands in network order: 0x2071 is 8305.
host_text : net_adr_to_string (record host { port = 0x7120 }) ≡ codes "10.0.0.7:8305"
unfolding net_adr_to_string big_short show_int type_eq
host_text = refl

bit_of_second_word : com_bit_set (λ i. 0) 35 1 ≡ 8
unfolding com_bit_set bit_place has_bit
bit_of_second_word = refl
