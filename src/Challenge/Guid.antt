-- ===== src/Challenge/Guid.antt =====
-- `CL_GetGuid` of src/sv_client.c: the guid that was kept with the challenge of an address.
use codextended.Prelude.{ℕ, zero, suc, if◌then◌else◌, ℤ, pos}
use codextended.Net.{Adr, net_compare_adr}
use codextended.Challenge.{Tables, max_challenges}

-- The loop: `left` places to go from place `j` on.
unfoldable pub guid_loop : ℕ → ℕ → Tables → Adr → ℤ
guid_loop zero j s remote_address = pos 0
guid_loop (suc left) j s remote_address =
    let rest = guid_loop left (suc j) s remote_address in
    if net_compare_adr remote_address (s.challenges j).adr then (s.x_challenges j).guid else rest

unfoldable pub cl_get_guid : Tables → Adr → ℤ
cl_get_guid s remote_address = guid_loop max_challenges 0 s remote_address
