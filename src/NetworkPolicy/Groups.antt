-- ===== src/NetworkPolicy/Groups.antt =====
-- The IPv6 filter against the first groups of 16 bits of an address.
use duckdb_fdw.Base.{
  ℕ, ◌+◌, ◌*◌, ◌/◌, ◌<◌, ◌≡◌, refl, Bool, false, ◌&&◌, not, List, [], ◌∷◌, arith, ◌==◌, ltb, leb,
}
use duckdb_fdw.NetworkPolicy.{
  byte_at, are_zero, is_ipv4_mapped_ipv6, same_bytes, has_ipv6_prefix, read_mapped_ipv4,
  is_globally_routable_ipv4, is_globally_routable_ipv6,
}
use duckdb_fdw.NetworkPolicy.Blocks.{dotted}

-- The IPv6 address that maps an IPv4 address.
abbrev pub mapped : ℕ → ℕ → ℕ → ℕ → List ℕ
mapped a b c d = 0 ∷ 0 ∷ 0 ∷ 0 ∷ 0 ∷ 0 ∷ 0 ∷ 0 ∷ 0 ∷ 0 ∷ 255 ∷ 255 ∷ a ∷ b ∷ c ∷ d ∷ []

-- A mapped IPv4 address is filtered as the IPv4 address.
pub is_globally_routable_ipv6-mapped :
    (a b c d : ℕ)
    → is_globally_routable_ipv6 (mapped a b c d) ≡ is_globally_routable_ipv4 (dotted a b c d)
unfolding is_globally_routable_ipv6 is_ipv4_mapped_ipv6 are_zero byte_at read_mapped_ipv4
is_globally_routable_ipv6-mapped a b c d = refl

-- The global unicast space, without protocol assignments, documentation, 6to4 and documentation.
abbrev pub is_unicast : ℕ → ℕ → Bool
is_unicast first second =
    leb 8192 first
    && leb first 16383
    && not (first == 8193 && ltb second 512)
    && not (first == 8193 && second == 3512)
    && not (first == 8194)
    && not (first == 16383 && ltb second 4096)

module _ (b0 b1 b2 b3 b4 b5 : ℕ) (rest : List ℕ) (h0 : b0 < 256) (h1 : b1 < 256) (h2 : b2 < 256)
    (h3 : b3 < 256) where
  abbrev whole : List ℕ
  whole = b0 ∷ b1 ∷ b2 ∷ b3 ∷ b4 ∷ b5 ∷ rest

  prefix_23 : has_ipv6_prefix whole (32 ∷ 1 ∷ 0 ∷ []) 23 ≡ (b0 == 32 && b1 == 1 && ltb b2 2)
  unfolding has_ipv6_prefix same_bytes byte_at
  prefix_23 = ground (arith, h2)

  prefix_48 :
      has_ipv6_prefix whole (32 ∷ 1 ∷ 0 ∷ 2 ∷ 0 ∷ 0 ∷ []) 48
      ≡ (b0 == 32 && b1 == 1 && b2 == 0 && b3 == 2 && b4 == 0 && b5 == 0)
  unfolding has_ipv6_prefix same_bytes byte_at
  prefix_48 = ground arith

  prefix_28 :
      has_ipv6_prefix whole (32 ∷ 1 ∷ 0 ∷ 32 ∷ []) 28
      ≡ (b0 == 32 && b1 == 1 && b2 == 0 && b3 / 16 == 2)
  unfolding has_ipv6_prefix same_bytes byte_at
  prefix_28 = ground arith

  prefix_32 :
      has_ipv6_prefix whole (32 ∷ 1 ∷ 13 ∷ 184 ∷ []) 32
      ≡ (b0 == 32 && b1 == 1 && b2 == 13 && b3 == 184)
  unfolding has_ipv6_prefix same_bytes byte_at
  prefix_32 = ground arith

  prefix_16 : has_ipv6_prefix whole (32 ∷ 2 ∷ []) 16 ≡ (b0 == 32 && b1 == 2)
  unfolding has_ipv6_prefix same_bytes byte_at
  prefix_16 = ground arith

  prefix_20 : has_ipv6_prefix whole (63 ∷ 255 ∷ 0 ∷ []) 20 ≡ (b0 == 63 && b1 == 255 && ltb b2 16)
  unfolding has_ipv6_prefix same_bytes byte_at
  prefix_20 = ground (arith, h2)

  -- An IPv6 address that is not mapped is routable exactly where its first two groups are in global
  -- unicast space and in none of the special-purpose ranges of it.
  pub is_globally_routable_ipv6-is_unicast :
      is_ipv4_mapped_ipv6 whole ≡ false
      → is_globally_routable_ipv6 whole ≡ is_unicast (b0 * 256 + b1) (b2 * 256 + b3)
  unfolding is_globally_routable_ipv6 byte_at
  is_globally_routable_ipv6-is_unicast plain =
      rw (plain, is_globally_routable_ipv6)
        (rw (prefix_23, prefix_48, prefix_28, prefix_32, prefix_16, prefix_20)
          (ground (arith, h0, h1, h2, h3)))
