-- ===== src/Security/Blocks.antt =====
-- The addresses of src/network/security.rs against the blocks of the registries of special addresses.
use plasmate.Common.{
  ℕ, ◌+◌, ◌-◌, ◌*◌, ◌/◌, ◌%◌, ◌^◌, ◌≤◌, ◌<◌, ◌≡◌, ◌⊎◌, ◌↔◌, refl, true, false, ◌&&◌, ◌||◌, none,
  some, List, [], ◌∷◌, arith, All, leb, ◌==◌, Bool-cases, inl, inr,
}
use plasmate.Security.{
  is_private, is_unspecified, is_loopback, is_link_local, is_multicast, is_broadcast, Ipv4Addr,
  Ipv6Addr, is_global_v4, is_global_v6, is_global_unicast, to_ipv4_mapped,
}

-- The addresses from one to another, by their numbers.
pub record Block : Type 0 where
  pub base : ℕ
  pub last : ℕ

abbrev pub number : ℕ → ℕ → ℕ → ℕ → ℕ
number a b c d = a * 2 ^ 24 + b * 2 ^ 16 + c * 2 ^ 8 + d

-- `a.b.c.0` with `2 ^ bits` addresses.
abbrev cidr : ℕ → ℕ → ℕ → ℕ → Block
cidr a b c bits = record { base = number a b c 0; last = number a b c 0 + (2 ^ bits - 1) }

abbrev pub Outside : ℕ → Block → Type 0
Outside n k = (n < k.base) ⊎ (k.last < n)

-- 0/8, 10/8, 100.64/10, 127/8, 169.254/16, 172.16/12, 192.0.0/24, 192.0.2/24, 192.168/16, 198.18/15,
-- 198.51.100/24, 203.0.113/24, 224/4 and 240/4.
abbrev pub special_blocks : List Block
special_blocks =
    cidr 0 0 0 24
    ∷ cidr 10 0 0 24
    ∷ cidr 100 64 0 22
    ∷ cidr 127 0 0 24
    ∷ cidr 169 254 0 16
    ∷ cidr 172 16 0 20
    ∷ cidr 192 0 0 8
    ∷ cidr 192 0 2 8
    ∷ cidr 192 168 0 16
    ∷ cidr 198 18 0 17
    ∷ cidr 198 51 100 8
    ∷ cidr 203 0 113 8
    ∷ cidr 224 0 0 28
    ∷ cidr 240 0 0 28
    ∷ []

pub record IsV4 (ip : Ipv4Addr) : Type 0 where
  pub a_byte : ip.a < 256
  pub b_byte : ip.b < 256
  pub c_byte : ip.c < 256
  pub d_byte : ip.d < 256

abbrev pub IsPublic : Ipv4Addr → Type 0
IsPublic ip = All (Outside (number ip.a ip.b ip.c ip.d)) special_blocks

is_global_v4_sound : (ip : Ipv4Addr) → IsV4 ip → is_global_v4 ip ≡ true → IsPublic ip
unfolding is_global_v4
is_global_v4_sound ip v h = ground arith

-- Each test of the code, off by the blocks that it stands for.
module _ (ip : Ipv4Addr) (v : IsV4 ip) where
  abbrev Off : ℕ → ℕ → ℕ → ℕ → Type 0
  Off a b c bits = Outside (number ip.a ip.b ip.c ip.d) (cidr a b c bits)

  private-Off : Off 10 0 0 24 → Off 172 16 0 20 → Off 192 168 0 16 → is_private ip ≡ false
  private-Off h k l = ground arith

  unspecified-Off : Off 0 0 0 24 → is_unspecified ip ≡ false
  unspecified-Off h = ground arith

  zero-Off : Off 0 0 0 24 → (ip.a == 0) ≡ false
  zero-Off h = ground arith

  loopback-Off : Off 127 0 0 24 → is_loopback ip ≡ false
  loopback-Off h = ground arith

  link_local-Off : Off 169 254 0 16 → is_link_local ip ≡ false
  link_local-Off h = ground arith

  class_d-Off : Off 224 0 0 28 → is_multicast ip ≡ false
  class_d-Off h = ground arith

  broadcast-Off : Off 240 0 0 28 → is_broadcast ip ≡ false
  broadcast-Off h = ground arith

  class_e-Off : Off 224 0 0 28 → Off 240 0 0 28 → leb 224 ip.a ≡ false
  class_e-Off h k = ground arith

  shared-Off : Off 100 64 0 22 → (ip.a == 100 && (leb 64 ip.b && leb ip.b 127)) ≡ false
  shared-Off h = ground arith

  protocol-Off : Off 192 0 0 8 → (ip.a == 192 && (ip.b == 0 && ip.c == 0)) ≡ false
  protocol-Off h = ground arith

  test_one-Off : Off 192 0 2 8 → (ip.a == 192 && (ip.b == 0 && ip.c == 2)) ≡ false
  test_one-Off h = ground arith

  benchmark-Off : Off 198 18 0 17 → (ip.a == 198 && (ip.b == 18 || ip.b == 19)) ≡ false
  benchmark-Off h = ground arith

  test_two-Off : Off 198 51 100 8 → (ip.a == 198 && (ip.b == 51 && ip.c == 100)) ≡ false
  test_two-Off h = ground arith

  test_three-Off : Off 203 0 113 8 → (ip.a == 203 && (ip.b == 0 && ip.c == 113)) ≡ false
  test_three-Off h = ground arith

  is_global_v4_complete : IsPublic ip → is_global_v4 ip ≡ true
  unfolding is_global_v4
  is_global_v4_complete h =
      let (
        b0,
        (b1, (b2, (b3, (b4, (b5, (b6, (b7, (b8, (b9, (b10, (b11, (b12, (b13, tt))))))))))))),
      ) =
        h in
      rw
        (
          unspecified-Off b0,
          broadcast-Off b13,
          private-Off b1 b5 b8,
          zero-Off b0,
          loopback-Off b3,
          link_local-Off b4,
          class_d-Off b12,
          class_e-Off b12 b13,
          shared-Off b2,
          protocol-Off b6,
          test_one-Off b7,
          benchmark-Off b9,
          test_two-Off b10,
          test_three-Off b11,
        )
        refl

-- An IPv4 address may be connected to exactly if it lies in none of the special blocks.
pub is_global_v4_iff : (ip : Ipv4Addr) → IsV4 ip → (is_global_v4 ip ≡ true) ↔ IsPublic ip
is_global_v4_iff ip v = (is_global_v4_sound ip v, is_global_v4_complete ip v)

abbrev pub mapped : Ipv6Addr → Ipv4Addr
mapped ip = record { a = ip.s6 / 256; b = ip.s6 % 256; c = ip.s7 / 256; d = ip.s7 % 256 }

-- `::ffff:0:0/96`
abbrev pub IsMapped : Ipv6Addr → Type 0
IsMapped ip = (ip.s0 ≡ 0) × (ip.s1 ≡ 0) × (ip.s2 ≡ 0) × (ip.s3 ≡ 0) × (ip.s4 ≡ 0) × (ip.s5 ≡ 65535)

pub record IsV6 (ip : Ipv6Addr) : Type 0 where
  pub s0_word : ip.s0 < 65536
  pub s6_word : ip.s6 < 65536
  pub s7_word : ip.s7 < 65536

to_ipv4_mapped-cases :
    (ip : Ipv6Addr)
    → (IsMapped ip × (to_ipv4_mapped ip ≡ some (mapped ip)))
      ⊎ ((¬ IsMapped ip) × (to_ipv4_mapped ip ≡ none))
unfolding to_ipv4_mapped
to_ipv4_mapped-cases ip =
    elim (Bool-cases (
      ip.s0 == 0
      && (ip.s1 == 0 && (ip.s2 == 0 && (ip.s3 == 0 && (ip.s4 == 0 && ip.s5 == 65535)))))) [
        | inl t ↦ inl (ground arith, rw t refl)
        | inr f ↦ inr (λ m. ground arith, rw f refl)
      ]

is_global_unicast_iff :
    (ip : Ipv6Addr)
    → IsV6 ip
    → (is_global_unicast ip ≡ true)
      ↔ ((8192 ≤ ip.s0) × (ip.s0 < 16384) × (¬ ((ip.s0 ≡ 8193) × (ip.s1 ≡ 3512))))
unfolding is_global_unicast
is_global_unicast_iff ip w = (λ h. (ground arith, ground arith, λ k. ground arith), back)
  where
    back :
        (8192 ≤ ip.s0) × (ip.s0 < 16384) × (¬ ((ip.s0 ≡ 8193) × (ip.s1 ≡ 3512)))
        → is_global_unicast ip ≡ true
    back (from, to, other) =
        let unicast : (ip.s0 / 8192 * 8192 == 8192) ≡ true = ground arith in
        let nonzero : (ip.s0 == 0) ≡ false = ground arith in
        let not_multicast : (ip.s0 / 256 * 256 == 65280) ≡ false = ground arith in
        let not_local : (ip.s0 / 512 * 512 == 64512) ≡ false = ground arith in
        let not_link : (ip.s0 / 64 * 64 == 65152) ≡ false = ground arith in
        let not_document : (ip.s0 == 8193 && ip.s1 == 3512) ≡ false =
          elim (Bool-cases (ip.s0 == 8193 && ip.s1 == 3512)) [
            | inl t ↦ absurd (other (ground arith, ground arith))
            | inr f ↦ f
          ] in
        rw (unicast, nonzero, not_multicast, not_local, not_link, not_document) refl

-- An IPv6 address is taken for global exactly if it is an IPv4-mapped address whose IPv4 address lies in
-- none of the special blocks, or lies in 2000::/3 outside 2001:db8::/32. So a mapped address is not
-- rejected as such, although SECURITY.md says that mapped addresses are.
pub is_global_v6_iff :
    (ip : Ipv6Addr)
    → IsV6 ip
    → (is_global_v6 ip ≡ true) ↔ (
        (IsMapped ip × IsPublic (mapped ip))
        ⊎ ((8192 ≤ ip.s0) × (ip.s0 < 16384) × (¬ ((ip.s0 ≡ 8193) × (ip.s1 ≡ 3512)))))
unfolding is_global_v6
is_global_v6_iff ip w = elim (to_ipv4_mapped-cases ip) [
  | inl (m, e) ↦
      let v : IsV4 (mapped ip) = record {
        a_byte = omega arith;
        b_byte = omega arith;
        c_byte = omega arith;
        d_byte = omega arith;
      } in
      let known = is_global_v4_iff (mapped ip) v in
      (
        λ h. inl (m, known.0 (rw (e, is_global_v6) at h)),
        λ h. elim h [
          | inl (k, public) ↦ rw (e, is_global_v6) (known.1 public)
          | inr (from, to, other) ↦ absurd (omega (arith, m.0))
        ],
      )
  | inr (n, e) ↦
      let known = is_global_unicast_iff ip w in
      (
        λ h. inr (known.0 (rw (e, is_global_v6) at h)),
        λ h. elim h [
          | inl (m, public) ↦ absurd (n m)
          | inr unicast ↦ rw (e, is_global_v6) (known.1 unicast)
        ],
      )
]
