-- ===== src/Iplookup/Helper/Hosts.antt =====
-- `AddEntry` of a bare address, and the lookup of that address.
use traefik_middleware_utili.Prelude.{
  Bool, Bytes, List, Option, [], ap, arith, drop, false, length, length-drop_le, none, refl, some,
  take, true, ◌∷◌, ◌≡◌, ◌⊎◌, inl, inr, ◌≢◌, Bool-cases, if◌then◌else◌, ltb, ltb→le, ltb→lt, sym,
  ◌&&◌, ◌∙◌,
}
use traefik_middleware_utili.Prelude.Result.{ok, Result}
use traefik_middleware_utili.Iplookup.Address.{Block, to4, family_walk, prefix_walk}
use traefik_middleware_utili.Iplookup.Address.Blocks.{
  IsBlock, IsIp, ip_bits, prefix_bits, of_ipv4, of_ipv6, To4-cases, four, mapped, six,
  length-ip_bits,
}
use traefik_middleware_utili.Iplookup.Tree.{Found, not_found}
use traefik_middleware_utili.Iplookup.Tree.Entries.{same_bits, metadata_at}
use traefik_middleware_utili.Iplookup.Tree.Longest.{IsLongest, NoneStored}
use traefik_middleware_utili.Iplookup.Helper.{
  Helper, Net, add_cidr, add_entry, contains_ip, entry_cidr, has_slash, host_cidr, is_v4, tree_for,
  Error,
}
use traefik_middleware_utili.Iplookup.Helper.Sound.{IsSound, add_block-IsSound}
use traefik_middleware_utili.Iplookup.Helper.Stored.{
  same_family, stored, add_block_stores, contains-IsLongest,
}

abbrev pub host_block_of : Bytes → Option Bytes → Block
host_block_of ip (some v4) = record { ip = v4; ones = 32; bits = 32 }
host_block_of ip none = record { ip = ip; ones = 128; bits = 128 }

-- The network of one address.
unfoldable pub host_block : Bytes → Block
host_block ip = host_block_of ip (to4 ip)

-- The network of an address is a network, of its family, and with its bits.
record IsHost (ip : Bytes) (b : Block) : Type 0 where
  is_block : IsBlock b
  family : is_v4 b.ip ≡ is_v4 ip
  host_bits : prefix_bits b ≡ ip_bits ip

to4_short : (ip : Bytes) → length ip ≡ 4 → to4 ip ≡ some ip
unfolding to4
to4_short ip h = ground (arith, h)

ipv4-IsHost :
    (ip v4 : Bytes)
    → to4 ip ≡ some v4
    → length v4 ≡ 4
    → IsHost ip (record { ip = v4; ones = 32; bits = 32 })
unfolding prefix_walk family_walk
ipv4-IsHost ip v4 e len = record {
  is_block = of_ipv4 len refl (omega arith);
  family = rw (e, to4_short v4 len) refl;
  host_bits = rw (e, to4_short v4 len) refl;
}

host_block-IsHost : (ip : Bytes) → IsIp ip → IsHost ip (host_block ip)
unfolding host_block prefix_walk family_walk
host_block-IsHost ip h = elim (To4-cases ip) [
  | four len e ↦ rw e (ipv4-IsHost ip ip e len)
  | mapped len _ e ↦ rw e (ipv4-IsHost ip (drop 12 ip) e (omega (arith, length-drop_le 12 ip)))
  | six ne e ↦ rw e (record {
    is_block = of_ipv6 (long h ne) refl (omega arith) (λ i p q. absurd (omega arith));
    family = refl;
    host_bits = rw e refl;
  })
]
  where
    long : IsIp ip → length ip ≢ 4 → length ip ≡ 16
    long (inl q) ne = absurd (ne q)
    long (inr q) ne = q

same_bits_refl : (q : List Bool) → same_bits q q ≡ true
unfolding same_bits
same_bits_refl [] = refl
same_bits_refl (true ∷ q) = same_bits_refl q
same_bits_refl (false ∷ q) = same_bits_refl q

same_family_refl : (v4 : Bool) → same_family v4 v4 ≡ true
unfolding same_family
same_family_refl true = refl
same_family_refl false = refl

take_whole : {A : Type 0} (xs : List A) → take (length xs) xs ≡ xs
take_whole [] = refl
take_whole (x ∷ xs) = ap (◌∷◌ x) (take_whole xs)

stored_whole :
    (ip md : Bytes) (h : Helper)
    → stored (is_v4 ip) (ip_bits ip) h ≡ some md
    → metadata_at (take (length (ip_bits ip)) (ip_bits ip)) (tree_for (is_v4 ip) h) ≡ some md
stored_whole ip md h s = rw (take_whole (ip_bits ip)) s

absurd_none : {A B : Type 0} {a : A} → ◌≡◌ {A = Option A} none (some a) → B
absurd_none q = cc

some_injective : {A : Type 0} {a b : A} → ◌≡◌ {A = Option A} (some a) (some b) → a ≡ b
some_injective q = cc

-- What `Contains` finds for an address that is stored itself.
found_whole :
    (ip md : Bytes) (h : Helper) (f : Found)
    → stored (is_v4 ip) (ip_bits ip) h ≡ some md
    → ((f ≡ not_found) × NoneStored (ip_bits ip) (tree_for (is_v4 ip) h))
      ⊎ IsLongest 0 (ip_bits ip) (tree_for (is_v4 ip) h) f
    → (f.found ≡ true) × (f.prefix_len ≡ length (ip_bits ip)) × (f.metadata ≡ md)
found_whole ip md h f s (inl (e, absent)) =
    absurd_none (sym (absent (length (ip_bits ip)) (omega arith)) ∙ stored_whole ip md h s)
found_whole ip md h f s (inr l) = elim (Bool-cases (ltb l.depth (length (ip_bits ip)))) [
  | inl q ↦ absurd_none (
      sym (l.longest (length (ip_bits ip)) (ltb→lt l.depth (length (ip_bits ip)) q) (omega arith))
      ∙ stored_whole ip md h s)
  | inr q ↦
      let last : length (ip_bits ip) ≡ l.depth =
        omega (arith, l.within, ltb→le l.depth (length (ip_bits ip)) q) in
      (
        l.found,
        l.at_depth ∙ omega (arith, last),
        some_injective (sym l.stored ∙ (rw last at (stored_whole ip md h s))),
      )
]

ok_injective : {A : Type 0} {a b : A} → ◌≡◌ {A = Result Error A} (ok a) (ok b) → a ≡ b
ok_injective q = cc

own_entry :
    (b : Block) (ip md : Bytes) (h : Helper)
    → IsHost ip b
    → (if same_family (is_v4 b.ip) (is_v4 ip) && same_bits (prefix_bits b) (ip_bits ip)
        then some md
        else stored (is_v4 ip) (ip_bits ip) h)
      ≡ some md
own_entry b ip md h host =
    rw (host.family, host.host_bits, same_family_refl (is_v4 ip), same_bits_refl (ip_bits ip)) refl

-- A bare address that is added is found with the whole address as its prefix, 32 bits for IPv4 and
-- IPv4-mapped addresses and 128 for others, and with its own metadata, whatever was stored before.
-- Go's `net` is asked to parse the address, and the network that `HostCIDR` prints, to that address.
pub add_entry_finds :
    (net : Net) (entry ip md : Bytes) (h : Helper)
    → has_slash (net.trim_space entry) ≡ false
    → net.parse_ip (net.trim_space entry) ≡ some ip
    → IsIp ip
    → net.parse_cidr (host_cidr net ip) ≡ some (host_block ip)
    → IsSound h
    → (h' : Helper) × (f : Found) × (add_entry net entry md h ≡ ok h')
      × (contains_ip (some ip) h' ≡ ok f)
      × (f.found ≡ true)
      × (f.prefix_len ≡ (family_walk ip).1)
      × (f.metadata ≡ md)
unfolding add_entry add_cidr entry_cidr
add_entry_finds net entry ip md h slash addr k parse s =
    let b : Block = host_block ip in
    let host = host_block-IsHost ip k in
    let added = add_block_stores b md h (is_v4 ip) (ip_bits ip) host.is_block s in
    let sound = add_block-IsSound b md h host.is_block s in
    let same : sound.0 ≡ added.0 = ok_injective (sym sound.1 ∙ added.1) in
    let is_stored : stored (is_v4 ip) (ip_bits ip) added.0 ≡ some md =
      added.2 ∙ own_entry b ip md h host in
    let answer = contains-IsLongest ip added.0 k (rw (← same) sound.2) in
    let whole = found_whole ip md added.0 answer.0 is_stored answer.2 in
    (
      added.0,
      answer.0,
      rw (slash, addr) (rw parse added.1),
      answer.1,
      whole.0,
      whole.1 ∙ length-ip_bits ip k,
      whole.2,
    )
