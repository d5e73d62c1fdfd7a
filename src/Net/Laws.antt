-- ===== src/Net/Laws.antt =====
-- When two addresses compare equal.
use codextended.Prelude.{◌≡◌, ◌↔◌, ◌⊎◌, true, ◌∷◌, arith, Bytes}
use codextended.Net.{
  AdrType, na_loopback, na_ip, na_ipx, Ip, Adr, type_eq, ip_eq, bytes_eq, net_compare_adr,
}

pub type_eq_iff : (a b : AdrType) → (type_eq a b ≡ true) ↔ (a ≡ b)
unfolding type_eq
type_eq_iff a b = ground arith

pub ip_eq_iff : (a b : Ip) → (ip_eq a b ≡ true) ↔ (a ≡ b)
unfolding ip_eq
ip_eq_iff a b = ground arith

pub bytes_eq_iff : (s t : Bytes) → (bytes_eq s t ≡ true) ↔ (s ≡ t)
unfolding bytes_eq
bytes_eq_iff (x ∷ s) (y ∷ t) = ground (arith, bytes_eq_iff s t)
bytes_eq_iff _ _ = ground arith

-- `NET_CompareAdr` holds exactly for two addresses of one type that are loopback, or agree in the
-- address bytes of that type and in the port; of the other types it holds for none.
pub net_compare_adr_iff :
    (a b : Adr)
    → (net_compare_adr a b ≡ true) ↔ (
        (a.type ≡ b.type)
        × ((a.type ≡ na_loopback)
            ⊎ ((a.type ≡ na_ip) × (a.ip ≡ b.ip) × (a.port ≡ b.port))
            ⊎ ((a.type ≡ na_ipx) × (a.ipx ≡ b.ipx) × (a.port ≡ b.port))))
unfolding net_compare_adr
net_compare_adr_iff a b =
    ground (arith, type_eq_iff a.type b.type, ip_eq_iff a.ip b.ip, bytes_eq_iff a.ipx b.ipx)
