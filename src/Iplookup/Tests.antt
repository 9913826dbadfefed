-- ===== src/Iplookup/Tests.antt =====
-- Witnesses of the properties of iplookup/, on one helper.
use traefik_middleware_utili.Iplookup.Helper.Hosts.{add_entry_finds, host_block}
use traefik_middleware_utili.Iplookup.Helper.{Net, add_entry, host_cidr}
use traefik_middleware_utili.Prelude.{
  Bytes, [], codes, none, refl, some, true, false, ◌∷◌, ◌≡◌, arith, inl, ◌⊎◌, if◌then◌else◌,
  same_text,
}
use traefik_middleware_utili.Prelude.Result.{err, ok}
use traefik_middleware_utili.Iplookup.Address.{Block, bit_at, family_walk, prefix_walk, to4}
use traefik_middleware_utili.Iplookup.Address.Blocks.{IsBlock, of_ipv4, ip_bits}
use traefik_middleware_utili.Iplookup.Tree.{
  Found, nil, node, empty_node, not_found, contains, insert, remove, contains_at, insert_at,
  remove_at,
}
use traefik_middleware_utili.Iplookup.Tree.Longest.{IsLongest, NoneStored}
use traefik_middleware_utili.Iplookup.Helper.{
  Helper, new_helper, add_block, remove_block, contains_ip, index_panic,
}
use traefik_middleware_utili.Iplookup.Helper.Sound.{IsSound, add_block-IsSound}
use traefik_middleware_utili.Iplookup.Helper.Stored.{contains_empty_panics, contains-IsLongest}

-- 128.0.0.0/1.
abbrev upper_half : Block
upper_half = record { ip = 128 ∷ 0 ∷ 0 ∷ 0 ∷ []; ones = 1; bits = 32 }

upper_half-IsBlock : IsBlock upper_half
upper_half-IsBlock = of_ipv4 refl refl (omega arith)

abbrev one_block : Helper
one_block = record {
  ipv4_tree = node false 0 [] nil (node true 1 (codes "upper") nil nil);
  ipv6_tree = empty_node;
  count = 1;
}

add_one_block : add_block upper_half (codes "upper") new_helper ≡ ok one_block
unfolding add_block insert insert_at bit_at family_walk prefix_walk to4 new_helper
add_one_block = refl

remove_one_block : remove_block upper_half one_block ≡ ok (new_helper, true)
unfolding remove_block remove remove_at bit_at family_walk prefix_walk to4 new_helper
remove_one_block = refl

find_in_one_block :
    contains_ip (some (200 ∷ 1 ∷ 2 ∷ 3 ∷ [])) one_block
    ≡ ok (record { found = true; prefix_len = 1; metadata = codes "upper" })
unfolding contains_ip contains contains_at bit_at family_walk to4
find_in_one_block = refl

one_block-IsSound : IsSound one_block
one_block-IsSound = record {
  v4_root = record {
    is_node = tt;
    depths = (λ q. cc, tt, ((λ q. refl), tt, tt));
    pruned = (tt, (refl, tt, tt));
  };
  v6_root = record { is_node = tt; depths = (λ q. cc, tt, tt); pruned = (tt, tt) };
  counted = refl;
}

add_block-IsSound_example : (h' : Helper) × (add_block upper_half [] one_block ≡ ok h') × IsSound h'
add_block-IsSound_example =
    add_block-IsSound upper_half [] one_block upper_half-IsBlock one_block-IsSound

abbrev inside : Bytes
inside = 200 ∷ 1 ∷ 2 ∷ 3 ∷ []

contains-IsLongest_example :
    (f : Found) × (contains_ip (some inside) one_block ≡ ok f)
    × (((f ≡ not_found) × NoneStored (ip_bits inside) one_block.ipv4_tree)
        ⊎ IsLongest 0 (ip_bits inside) one_block.ipv4_tree f)
unfolding to4
contains-IsLongest_example = contains-IsLongest inside one_block (inl refl) one_block-IsSound

contains_empty_panics_example : contains_ip (some []) one_block ≡ err index_panic
contains_empty_panics_example = contains_empty_panics one_block one_block-IsSound

-- A network library that knows one address.
abbrev one_address_net : Net
one_address_net = record {
  parse_cidr = λ s.
      if same_text s (codes "200.1.2.3/32")
      then some (record { ip = inside; ones = 32; bits = 32 })
      else none;
  parse_ip = λ s. if same_text s (codes "200.1.2.3") then some inside else none;
  ip_string = λ ip. codes "200.1.2.3";
  trim_space = λ s. s;
}

add_entry_finds_example :
    (h' : Helper) × (f : Found) × (add_entry one_address_net
        (codes "200.1.2.3")
        (codes "host")
        one_block
      ≡ ok h')
    × (contains_ip (some inside) h' ≡ ok f)
    × (f.found ≡ true)
    × (f.prefix_len ≡ 32)
    × (f.metadata ≡ codes "host")
unfolding same_text host_cidr host_block to4 family_walk
add_entry_finds_example =
    add_entry_finds one_address_net (codes "200.1.2.3") inside (codes "host") one_block refl refl
      (inl refl) refl one_block-IsSound
