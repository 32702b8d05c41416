-- ===== src/NetworkPolicy/Blocks.antt =====
-- The IPv4 filter against a table of the special-purpose blocks, by their first and last addresses.
use duckdb_fdw.Base.{
  ℕ, ◌+◌, ◌*◌, ◌^◌, ◌<◌, ◌≡◌, Bool, false, ◌&&◌, ◌||◌, not, List, [], ◌∷◌, arith, leb,
}
use duckdb_fdw.NetworkPolicy.{has_ipv4_prefix, is_globally_routable_ipv4}

-- An address in dotted form.
abbrev pub dotted : ℕ → ℕ → ℕ → ℕ → ℕ
dotted a b c d = a * 2 ^ 24 + b * 2 ^ 16 + c * 2 ^ 8 + d

abbrev pub is_in_any : List (ℕ × ℕ) → ℕ → Bool
is_in_any [] address = false
is_in_any ((first, last) ∷ blocks) address =
    (leb first address && leb address last) || is_in_any blocks address

-- This network, private use, shared space, loopback, link local, private use, protocol assignments,
-- documentation, 6to4 relays, private use, benchmarking, documentation twice, multicast, reserved.
abbrev pub special_blocks : List (ℕ × ℕ)
special_blocks =
    (dotted 0 0 0 0, dotted 0 255 255 255)
    ∷ (dotted 10 0 0 0, dotted 10 255 255 255)
    ∷ (dotted 100 64 0 0, dotted 100 127 255 255)
    ∷ (dotted 127 0 0 0, dotted 127 255 255 255)
    ∷ (dotted 169 254 0 0, dotted 169 254 255 255)
    ∷ (dotted 172 16 0 0, dotted 172 31 255 255)
    ∷ (dotted 192 0 0 0, dotted 192 0 0 255)
    ∷ (dotted 192 0 2 0, dotted 192 0 2 255)
    ∷ (dotted 192 88 99 0, dotted 192 88 99 255)
    ∷ (dotted 192 168 0 0, dotted 192 168 255 255)
    ∷ (dotted 198 18 0 0, dotted 198 19 255 255)
    ∷ (dotted 198 51 100 0, dotted 198 51 100 255)
    ∷ (dotted 203 0 113 0, dotted 203 0 113 255)
    ∷ (dotted 224 0 0 0, dotted 239 255 255 255)
    ∷ (dotted 240 0 0 0, dotted 255 255 255 255)
    ∷ []

this_network :
    (address : ℕ)
    → has_ipv4_prefix address 0 8
      ≡ (leb (dotted 0 0 0 0) address && leb address (dotted 0 255 255 255))
unfolding has_ipv4_prefix
this_network address = ground arith

private_ten :
    (address : ℕ)
    → has_ipv4_prefix address 167772160 8
      ≡ (leb (dotted 10 0 0 0) address && leb address (dotted 10 255 255 255))
unfolding has_ipv4_prefix
private_ten address = ground arith

shared_space :
    (address : ℕ)
    → has_ipv4_prefix address 1681915904 10
      ≡ (leb (dotted 100 64 0 0) address && leb address (dotted 100 127 255 255))
unfolding has_ipv4_prefix
shared_space address = ground arith

loopback :
    (address : ℕ)
    → has_ipv4_prefix address 2130706432 8
      ≡ (leb (dotted 127 0 0 0) address && leb address (dotted 127 255 255 255))
unfolding has_ipv4_prefix
loopback address = ground arith

link_local :
    (address : ℕ)
    → has_ipv4_prefix address 2851995648 16
      ≡ (leb (dotted 169 254 0 0) address && leb address (dotted 169 254 255 255))
unfolding has_ipv4_prefix
link_local address = ground arith

private_twelve :
    (address : ℕ)
    → has_ipv4_prefix address 2886729728 12
      ≡ (leb (dotted 172 16 0 0) address && leb address (dotted 172 31 255 255))
unfolding has_ipv4_prefix
private_twelve address = ground arith

assignments :
    (address : ℕ)
    → has_ipv4_prefix address 3221225472 24
      ≡ (leb (dotted 192 0 0 0) address && leb address (dotted 192 0 0 255))
unfolding has_ipv4_prefix
assignments address = ground arith

documentation_one :
    (address : ℕ)
    → has_ipv4_prefix address 3221225984 24
      ≡ (leb (dotted 192 0 2 0) address && leb address (dotted 192 0 2 255))
unfolding has_ipv4_prefix
documentation_one address = ground arith

relays :
    (address : ℕ)
    → has_ipv4_prefix address 3227017984 24
      ≡ (leb (dotted 192 88 99 0) address && leb address (dotted 192 88 99 255))
unfolding has_ipv4_prefix
relays address = ground arith

private_sixteen :
    (address : ℕ)
    → has_ipv4_prefix address 3232235520 16
      ≡ (leb (dotted 192 168 0 0) address && leb address (dotted 192 168 255 255))
unfolding has_ipv4_prefix
private_sixteen address = ground arith

benchmarking :
    (address : ℕ)
    → has_ipv4_prefix address 3323068416 15
      ≡ (leb (dotted 198 18 0 0) address && leb address (dotted 198 19 255 255))
unfolding has_ipv4_prefix
benchmarking address = ground arith

documentation_two :
    (address : ℕ)
    → has_ipv4_prefix address 3325256704 24
      ≡ (leb (dotted 198 51 100 0) address && leb address (dotted 198 51 100 255))
unfolding has_ipv4_prefix
documentation_two address = ground arith

documentation_three :
    (address : ℕ)
    → has_ipv4_prefix address 3405803776 24
      ≡ (leb (dotted 203 0 113 0) address && leb address (dotted 203 0 113 255))
unfolding has_ipv4_prefix
documentation_three address = ground arith

multicast :
    (address : ℕ)
    → has_ipv4_prefix address 3758096384 4
      ≡ (leb (dotted 224 0 0 0) address && leb address (dotted 239 255 255 255))
unfolding has_ipv4_prefix
multicast address = ground arith

-- An IPv4 address is routable exactly where it is in none of the special-purpose blocks.
pub is_globally_routable_ipv4-special_blocks :
    (address : ℕ)
    → address < 2 ^ 32
    → is_globally_routable_ipv4 address ≡ not (is_in_any special_blocks address)
unfolding is_globally_routable_ipv4
is_globally_routable_ipv4-special_blocks address h =
    rw
      (
        this_network address,
        private_ten address,
        shared_space address,
        loopback address,
        link_local address,
        private_twelve address,
        assignments address,
        documentation_one address,
        relays address,
        private_sixteen address,
        benchmarking address,
        documentation_two address,
        documentation_three address,
        multicast address,
      )
      (ground (arith, h))
