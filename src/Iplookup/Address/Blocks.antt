-- ===== src/Iplookup/Address/Blocks.antt =====
-- What `net.ParseCIDR` promises of a network, and that its walk stays inside the address.
use traefik_middleware_utili.Prelude.{
  ℕ, Bool, Bytes, List, false, length, length-take_le, some, take, true, ◌*◌, ◌<◌, ◌≡◌, ◌≤◌, ◌⊎◌,
  Bool-cases, ap, arith, drop, get_elem?, get_elem?-take, inl, inr, length-drop_le, ltb, none,
  same_text, same_text→eq, sym, ◌&&◌, ◌==◌, ◌∙◌, ◌≢◌,
}
use traefik_middleware_utili.Iplookup.Address.{
  Block, bit_at, family_walk, prefix_walk, to4, mapped_prefix,
}
use traefik_middleware_utili.Iplookup.Address.Bits.{
  address_bits, Reads, address_bits-Reads, length-address_bits,
}

-- An IPv4 network of four bytes, or an IPv6 one of sixteen whose bits behind the mask are clear.
pub data IsBlock (b : Block) : Type 0 where
  of_ipv4 : length b.ip ≡ 4 → b.bits ≡ 32 → b.ones ≤ 32 → IsBlock b
  of_ipv6 :
      length b.ip ≡ 16
      → b.bits ≡ 128
      → b.ones ≤ 128
      → ((i : ℕ) → b.ones ≤ i → i < 128 → bit_at b.ip i ≡ some false)
      → IsBlock b

-- The prefix that a network stands for, as bits of its walk.
abbrev pub prefix_bits : Block → List Bool
prefix_bits b = take (prefix_walk b).1 (address_bits (prefix_walk b).0)

-- The two ways in which an address is IPv4, and the other.
pub data To4 (ip : Bytes) : Type 0 where
  four : length ip ≡ 4 → to4 ip ≡ some ip → To4 ip
  mapped : length ip ≡ 16 → take 12 ip ≡ mapped_prefix → to4 ip ≡ some (drop 12 ip) → To4 ip
  six : length ip ≢ 4 → to4 ip ≡ none → To4 ip

pub To4-cases : (ip : Bytes) → To4 ip
unfolding to4
To4-cases ip = elim (Bool-cases (length ip == 4)) [
  | inl short ↦ four (ground arith) (rw short)
  | inr long ↦ elim (Bool-cases (length ip == 16 && same_text (take 12 ip) mapped_prefix)) [
    | inl both ↦
        mapped (ground arith) (same_text→eq (take 12 ip) mapped_prefix (ground arith))
          (rw (long, both))
    | inr neither ↦ six (ground arith) (rw (long, neither))
  ]
]

mapped_bit : (ip : Bytes) → take 12 ip ≡ mapped_prefix → bit_at ip 95 ≡ some true
unfolding bit_at
mapped_bit ip h =
    let byte : get_elem? ip 11 ≡ some 255 =
      sym (get_elem?-take 12 11 ip (omega arith)) ∙ ap (λ s. get_elem? s 11) h in
    rw byte

-- A mapped network of sixteen bytes has a mask of at least 96 bits, since the address bits behind
-- the mask are clear.
mapped_ones :
    (b : Block)
    → ((i : ℕ) → b.ones ≤ i → i < 128 → bit_at b.ip i ≡ some false)
    → take 12 b.ip ≡ mapped_prefix
    → 96 ≤ b.ones
mapped_ones b clear h = elim (Bool-cases (ltb b.ones 96)) [
  | inl few ↦ ground (arith, mapped_bit b.ip h, clear 95 (ground arith) (omega arith))
  | inr enough ↦ ground arith
]

-- The prefix is never longer than the bytes that are walked: no bit is read out of range.
pub prefix_walk_within : (b : Block) → IsBlock b → (prefix_walk b).1 ≤ 8 * length (prefix_walk b).0
unfolding prefix_walk family_walk
prefix_walk_within b (of_ipv4 len bits ones) = elim (To4-cases b.ip) [
  | four _ e ↦ rw (e, bits) (omega arith)
  | mapped len' _ e ↦ absurd (omega arith)
  | six ne e ↦ absurd (ne len)
]
prefix_walk_within b (of_ipv6 len bits ones clear) = elim (To4-cases b.ip) [
  | four len' e ↦ absurd (omega arith)
  | mapped _ pre e ↦ rw (e, bits) (ground (arith, mapped_ones b clear pre, length-drop_le 12 b.ip))
  | six ne e ↦ rw e (omega arith)
]

pub prefix_bits-Reads : (b : Block) → Reads (prefix_walk b).0 0 (prefix_bits b)
prefix_bits-Reads b = address_bits-Reads (prefix_walk b).0 (prefix_walk b).1

pub length-prefix_bits : (b : Block) → IsBlock b → length (prefix_bits b) ≡ (prefix_walk b).1
length-prefix_bits b h =
    length-take_le (prefix_walk b).1 (address_bits (prefix_walk b).0)
      (rw length-address_bits (prefix_walk_within b h))

-- An address of four or sixteen bytes.
abbrev pub IsIp : Bytes → Type 0
IsIp ip = (length ip ≡ 4) ⊎ (length ip ≡ 16)

abbrev pub ip_bits : Bytes → List Bool
ip_bits ip = take (family_walk ip).1 (address_bits (family_walk ip).0)

pub family_walk_within : (ip : Bytes) → IsIp ip → (family_walk ip).1 ≤ 8 * length (family_walk ip).0
unfolding family_walk
family_walk_within ip h = elim (To4-cases ip) [
  | four len e ↦ rw e (omega arith)
  | mapped len _ e ↦ rw e (omega (arith, length-drop_le 12 ip))
  | six ne e ↦ rw e (omega arith)
]

pub ip_bits-Reads : (ip : Bytes) → Reads (family_walk ip).0 0 (ip_bits ip)
ip_bits-Reads ip = address_bits-Reads (family_walk ip).0 (family_walk ip).1

pub length-ip_bits : (ip : Bytes) → IsIp ip → length (ip_bits ip) ≡ (family_walk ip).1
length-ip_bits ip h =
    length-take_le (family_walk ip).1 (address_bits (family_walk ip).0)
      (rw length-address_bits (family_walk_within ip h))
