-- ===== src/NetworkPolicy/Tests.antt =====
-- The network policy at concrete addresses.
use duckdb_fdw.Base.{ℕ, ◌+◌, ◌*◌, ◌≡◌, refl, true, false, not, List, [], ◌∷◌, arith}
use duckdb_fdw.NetworkPolicy.{
  ipv4, is_globally_routable_ipv4, is_globally_routable_ipv6, is_ipv4_mapped_ipv6, are_zero,
  has_ipv4_prefix, is_public_socket_address, is_public_socket_address_for_port,
}
use duckdb_fdw.NetworkPolicy.Blocks.{
  dotted, special_blocks, is_in_any, is_globally_routable_ipv4-special_blocks,
}
use duckdb_fdw.NetworkPolicy.Groups.{is_unicast, is_globally_routable_ipv6-is_unicast}

-- Metadata services of clouds are not public, a public resolver is, on the port that was asked for.
metadata_blocked :
    is_public_socket_address_for_port (ipv4 (dotted 169 254 169 254) 80) 16 80 ≡ false
unfolding is_public_socket_address_for_port is_public_socket_address is_globally_routable_ipv4
    has_ipv4_prefix
metadata_blocked = refl

resolver_allowed : is_public_socket_address_for_port (ipv4 (dotted 8 8 8 8) 443) 16 443 ≡ true
unfolding is_public_socket_address_for_port is_public_socket_address is_globally_routable_ipv4
    has_ipv4_prefix
resolver_allowed = refl

is_globally_routable_ipv4-special_blocks_example :
    is_globally_routable_ipv4 (dotted 172 31 0 1)
    ≡ not (is_in_any special_blocks (dotted 172 31 0 1))
is_globally_routable_ipv4-special_blocks_example =
    is_globally_routable_ipv4-special_blocks (dotted 172 31 0 1) (omega arith)

-- 2606:4700::/32 with the rest zero.
abbrev tail_of_unicast : List ℕ
tail_of_unicast = 0 ∷ 0 ∷ 0 ∷ 0 ∷ 0 ∷ 0 ∷ 0 ∷ 0 ∷ 17 ∷ 17 ∷ []

not_mapped : is_ipv4_mapped_ipv6 (38 ∷ 6 ∷ 71 ∷ 0 ∷ 0 ∷ 0 ∷ tail_of_unicast) ≡ false
unfolding is_ipv4_mapped_ipv6 are_zero
not_mapped = refl

is_globally_routable_ipv6-is_unicast_example :
    is_globally_routable_ipv6 (38 ∷ 6 ∷ 71 ∷ 0 ∷ 0 ∷ 0 ∷ tail_of_unicast)
    ≡ is_unicast (38 * 256 + 6) (71 * 256 + 0)
is_globally_routable_ipv6-is_unicast_example =
    is_globally_routable_ipv6-is_unicast 38 6 71 0 0 0 tail_of_unicast (omega arith) (omega arith)
      (omega arith) (omega arith) not_mapped
