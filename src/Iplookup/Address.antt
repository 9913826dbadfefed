-- ===== src/Iplookup/Address.antt =====
-- Addresses of Go's `net` as iplookup/tree.go reads them: an IP is its bytes.
pub mod Bits
pub mod Blocks
use traefik_middleware_utili.Prelude.{
  ℕ, Bool, Bytes, Option, [], drop, false, get_elem?, if◌then◌else◌, leb, length, none, same_text,
  some, take, true, ◌%◌, ◌&&◌, ◌-◌, ◌/◌, ◌==◌, ◌^◌, ◌∷◌,
}

-- `net.IPNet`: the network address, and `Mask.Size()` as `ones` and `bits`.
pub record Block : Type 0 where
  pub ip : Bytes
  pub ones : ℕ
  pub bits : ℕ

-- `::ffff:0:0/96`, the first twelve bytes of an IPv4-mapped address.
abbrev pub mapped_prefix : Bytes
mapped_prefix = 0 ∷ 0 ∷ 0 ∷ 0 ∷ 0 ∷ 0 ∷ 0 ∷ 0 ∷ 0 ∷ 0 ∷ 255 ∷ 255 ∷ []

-- `ip.To4()`: four bytes, or sixteen with the IPv4-mapped prefix.
unfoldable pub to4 : Bytes → Option Bytes
to4 ip =
    if length ip == 4
    then some ip
    else if length ip == 16 && same_text (take 12 ip) mapped_prefix
    then some (drop 12 ip)
    else none

abbrev pub is_some {ℓ} : {A : Type ℓ} → Option A → Bool
is_some none = false
is_some (some a) = true

abbrev pub walk_of : Bytes → Option Bytes → Bytes × ℕ
walk_of ip (some v4) = (v4, 32)
walk_of ip none = (ip, 128)

-- The bytes to walk, and the longest prefix.
unfoldable pub family_walk : Bytes → Bytes × ℕ
family_walk ip = walk_of ip (to4 ip)

-- An IPv4-mapped network is walked on its last four bytes.
unfoldable pub prefix_walk : Block → Bytes × ℕ
prefix_walk b = (
  (family_walk b.ip).0,
  if is_some (to4 b.ip) && b.bits == 128 && leb 96 b.ones then b.ones - 96 else b.ones,
)

abbrev pub bit_of : ℕ → Option ℕ → Option Bool
bit_of place none = none
bit_of place (some byte) = some ((byte / 2 ^ (7 - place % 8)) % 2 == 1)

-- The bit at `place`, most significant first; `none` is Go's index panic.
unfoldable pub bit_at : Bytes → ℕ → Option Bool
bit_at walk place = bit_of place (get_elem? walk (place / 8))
