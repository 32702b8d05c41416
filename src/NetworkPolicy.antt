-- ===== src/NetworkPolicy.antt =====
-- Which socket addresses a request may go to, src/runtime/policy/network_policy.cpp. An IPv4 address
-- is its 32 bits in host order, an IPv6 address the list of its 16 bytes. `&` with a mask of leading
-- ones sets the low bits to zero by a division and a product; where both sides are masked, a
-- comparison of quotients; `|` of the bytes of a mapped address is a sum.
pub mod Blocks
pub mod Groups
mod Tests
use duckdb_fdw.Base.{
  ℕ, zero, suc, ◌+◌, ◌-◌, ◌*◌, ◌/◌, ◌%◌, ◌^◌, Bool, true, false, ◌&&◌, ◌||◌, not, List, [], ◌∷◌,
  ◌==◌, ltb, leb, if◌then◌else◌,
}

-- `HasIpv4Prefix` with the mask of this many leading ones.
unfoldable pub has_ipv4_prefix : ℕ → ℕ → ℕ → Bool
has_ipv4_prefix address prefix ones = address / 2 ^ (32 - ones) * 2 ^ (32 - ones) == prefix

unfoldable pub is_globally_routable_ipv4 : ℕ → Bool
is_globally_routable_ipv4 address =
    not (has_ipv4_prefix address 0 8)
    && not (has_ipv4_prefix address 167772160 8)
    && not (has_ipv4_prefix address 1681915904 10)
    && not (has_ipv4_prefix address 2130706432 8)
    && not (has_ipv4_prefix address 2851995648 16)
    && not (has_ipv4_prefix address 2886729728 12)
    && not (has_ipv4_prefix address 3221225472 24)
    && not (has_ipv4_prefix address 3221225984 24)
    && not (has_ipv4_prefix address 3227017984 24)
    && not (has_ipv4_prefix address 3232235520 16)
    && not (has_ipv4_prefix address 3323068416 15)
    && not (has_ipv4_prefix address 3325256704 24)
    && not (has_ipv4_prefix address 3405803776 24)
    && not (has_ipv4_prefix address 3758096384 4)
    && ltb address 4026531840

-- `s6_addr[index]`; the arrays are long enough for every index that is used.
unfoldable pub byte_at : ℕ → List ℕ → ℕ
byte_at index [] = 0
byte_at zero (b ∷ bytes) = b
byte_at (suc index) (b ∷ bytes) = byte_at index bytes

unfoldable pub are_zero : ℕ → List ℕ → Bool
are_zero zero bytes = true
are_zero (suc count) [] = true
are_zero (suc count) (b ∷ bytes) = b == 0 && are_zero count bytes

unfoldable pub is_ipv4_mapped_ipv6 : List ℕ → Bool
is_ipv4_mapped_ipv6 address =
    are_zero 10 address && byte_at 10 address == 255 && byte_at 11 address == 255

-- The loop of `HasIpv6Prefix` over complete bytes.
unfoldable pub same_bytes : ℕ → List ℕ → List ℕ → Bool
same_bytes zero address prefix = true
same_bytes (suc count) (a ∷ address) (p ∷ prefix) = a == p && same_bytes count address prefix
same_bytes (suc count) _ _ = false

unfoldable pub has_ipv6_prefix : List ℕ → List ℕ → ℕ → Bool
has_ipv6_prefix address prefix prefix_bits =
    let complete_bytes = prefix_bits / 8 in
    let remaining_bits = prefix_bits % 8 in
    same_bytes complete_bytes address prefix
    && (remaining_bits == 0
        || byte_at complete_bytes address / 2 ^ (8 - remaining_bits)
          == byte_at complete_bytes prefix / 2 ^ (8 - remaining_bits))

unfoldable pub read_mapped_ipv4 : List ℕ → ℕ
read_mapped_ipv4 address =
    byte_at 12 address * 2 ^ 24
    + byte_at 13 address * 2 ^ 16
    + byte_at 14 address * 2 ^ 8
    + byte_at 15 address

unfoldable pub is_globally_routable_ipv6 : List ℕ → Bool
is_globally_routable_ipv6 address =
    if is_ipv4_mapped_ipv6 address
    then is_globally_routable_ipv4 (read_mapped_ipv4 address)
    else if not (byte_at 0 address / 32 == 1)
    then false
    else not (has_ipv6_prefix address (32 ∷ 1 ∷ 0 ∷ []) 23)
      && not (has_ipv6_prefix address (32 ∷ 1 ∷ 0 ∷ 2 ∷ 0 ∷ 0 ∷ []) 48)
      && not (has_ipv6_prefix address (32 ∷ 1 ∷ 0 ∷ 32 ∷ []) 28)
      && not (has_ipv6_prefix address (32 ∷ 1 ∷ 13 ∷ 184 ∷ []) 32)
      && not (has_ipv6_prefix address (32 ∷ 2 ∷ []) 16)
      && not (has_ipv6_prefix address (63 ∷ 255 ∷ 0 ∷ []) 20)

-- A socket address with its length: none, of the two families with a port, or of another family.
pub data SocketAddress : Type 0 where
  no_address : SocketAddress
  ipv4 : ℕ → ℕ → SocketAddress
  ipv6 : List ℕ → ℕ → SocketAddress
  other_family : SocketAddress

-- `sizeof(sockaddr_in)` and `sizeof(sockaddr_in6)`
abbrev pub sockaddr_in_size : ℕ
sockaddr_in_size = 16

abbrev pub sockaddr_in6_size : ℕ
sockaddr_in6_size = 28

unfoldable pub is_public_socket_address : SocketAddress → ℕ → Bool
is_public_socket_address no_address address_length = false
is_public_socket_address (ipv4 address port) address_length =
    if ltb address_length sockaddr_in_size then false else is_globally_routable_ipv4 address
is_public_socket_address (ipv6 address port) address_length =
    if ltb address_length sockaddr_in6_size then false else is_globally_routable_ipv6 address
is_public_socket_address other_family address_length = false

abbrev pub has_port : SocketAddress → ℕ → ℕ → Bool
has_port (ipv4 address own) address_length port = leb sockaddr_in_size address_length && own == port
has_port (ipv6 address own) address_length port =
    leb sockaddr_in6_size address_length && own == port
has_port _ address_length port = false

unfoldable pub is_public_socket_address_for_port : SocketAddress → ℕ → ℕ → Bool
is_public_socket_address_for_port address address_length port =
    if port == 0 || not (is_public_socket_address address address_length)
    then false
    else has_port address address_length port
