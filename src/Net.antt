-- ===== src/Net.antt =====
-- Network addresses: `netadr_t` of src/server.h and the comparisons of src/net_chan.c.
-- `NET_CompareBaseAdr` is code of the game binary, and a parameter where it is used.
pub mod Laws
pub mod Text
pub mod Dotted
use codextended.Prelude.{
  ℕ, Bool, true, false, not, ◌&&◌, List, [], ◌∷◌, ◌==◌, if◌then◌else◌, Bytes, ◌≡◌, refl, arith,
}

-- `netadrtype_t`, in the order of its numbers.
pub data AdrType : Type 0 where
  na_bot na_bad na_loopback na_broadcast na_ip na_ipx na_broadcast_ipx : AdrType

unfoldable pub type_eq : AdrType → AdrType → Bool
type_eq na_bot na_bot = true
type_eq na_bad na_bad = true
type_eq na_loopback na_loopback = true
type_eq na_broadcast na_broadcast = true
type_eq na_ip na_ip = true
type_eq na_ipx na_ipx = true
type_eq na_broadcast_ipx na_broadcast_ipx = true
type_eq _ _ = false

-- The four bytes of `ip`.
pub record Ip : Type 0 where
  pub b0 : ℕ
  pub b1 : ℕ
  pub b2 : ℕ
  pub b3 : ℕ

unfoldable pub ip_eq : Ip → Ip → Bool
ip_eq a b = a.b0 == b.b0 && a.b1 == b.b1 && a.b2 == b.b2 && a.b3 == b.b3

pub record Adr : Type 0 where
  pub type : AdrType
  pub ip : Ip
  pub ipx : Bytes
  pub port : ℕ

-- `memcmp` of two arrays of one length.
unfoldable pub bytes_eq : Bytes → Bytes → Bool
bytes_eq [] [] = true
bytes_eq (x ∷ s) (y ∷ t) = x == y && bytes_eq s t
bytes_eq _ _ = false

-- The message on a bad address type is not modelled.
unfoldable pub net_compare_adr : Adr → Adr → Bool
unfolding type_eq ip_eq
net_compare_adr a b =
    if not (type_eq a.type b.type)
    then false
    else if type_eq a.type na_loopback
    then true
    else if type_eq a.type na_ip
    then ip_eq a.ip b.ip && a.port == b.port
    else if type_eq a.type na_ipx
    then bytes_eq a.ipx b.ipx && a.port == b.port
    else false

unfoldable pub net_is_local_address : Adr → Bool
unfolding type_eq
net_is_local_address a = type_eq a.type na_loopback
