-- ===== src/Iplookup/Helper/Stored.antt =====
-- What the helper's methods do to the stored prefixes, and what `Contains` finds.
use traefik_middleware_utili.Iplookup.Tree.Longest.{
  contains_at-scan, scan, NoneStored, IsLongest, scan-IsLongest,
}
use traefik_middleware_utili.Prelude.{
  Bool, Bytes, List, Option, [], ap, false, if◌then◌else◌, length, none, refl, some, sym, true,
  ◌&&◌, ◌∙◌, ◌≡◌, ◌⊎◌,
}
use traefik_middleware_utili.Prelude.Result.{err, ok}
use traefik_middleware_utili.Iplookup.Address.{Block, to4, bit_at, family_walk, prefix_walk}
use traefik_middleware_utili.Iplookup.Address.Blocks.{
  IsBlock, IsIp, ip_bits, ip_bits-Reads, length-ip_bits, prefix_bits,
}
use traefik_middleware_utili.Iplookup.Tree.{
  Tree, nil, Found, contains, contains_at, node, not_found,
}
use traefik_middleware_utili.Iplookup.Tree.Entries.{
  put, IsNode, metadata_at, metadata_at-put, same_bits,
}
use traefik_middleware_utili.Iplookup.Helper.{
  Helper, add_block, after_insert, contains_ip, count_added, found_or_panic, index_panic, is_v4,
  tree_for, with_tree,
}
use traefik_middleware_utili.Iplookup.Helper.Sound.{IsSound, IsRoot, insert_lem, tree_for-IsRoot}

unfoldable pub same_family : Bool → Bool → Bool
same_family true true = true
same_family false false = true
same_family _ _ = false

-- The metadata stored for a family under the bits of a prefix.
abbrev pub stored : Bool → List Bool → Helper → Option Bytes
stored v4 q h = metadata_at q (tree_for v4 h)

-- `stored` of a helper whose tree for one family was replaced.
stored-count_added :
    (added v4 : Bool) (q : List Bool) (h : Helper)
    → stored v4 q (count_added added h) ≡ stored v4 q h
stored-count_added true true q h = refl
stored-count_added true false q h = refl
stored-count_added false v4 q h = refl

module _ (f : Bool → Option Bytes → Option Bytes) where
  stored-with_tree :
      (v4 v4' same : Bool) (q : List Bool) (t : Tree) (h : Helper)
      → metadata_at q t ≡ f same (stored v4 q h)
      → ((o : Option Bytes) → f false o ≡ o)
      → stored v4' q (with_tree v4 t h) ≡ f (same_family v4 v4' && same) (stored v4' q h)
  unfolding same_family
  stored-with_tree true true same q t h e keep = e
  stored-with_tree false false same q t h e keep = e
  stored-with_tree true false same q t h e keep = sym (keep _)
  stored-with_tree false true same q t h e keep = sym (keep _)

abbrev pub stored_after : Option Bytes → Bool → Option Bytes → Option Bytes
stored_after new same old = if same then new else old

pub add_block_stores :
    (b : Block) (md : Bytes) (h : Helper) (v4 : Bool) (q : List Bool)
    → IsBlock b
    → IsSound h
    → (h' : Helper) × (add_block b md h ≡ ok h')
      × (stored v4 q h' ≡ (
          if same_family (is_v4 b.ip) v4 && same_bits (prefix_bits b) q
          then some md
          else stored v4 q h))
unfolding add_block
add_block_stores b md h v4 q k s =
    let t : Tree = tree_for (is_v4 b.ip) h in
    let root : IsRoot t = tree_for-IsRoot (is_v4 b.ip) h s in
    let p : Tree × Bool = put (prefix_walk b).1 md (prefix_bits b) t in
    (
      count_added p.1 (with_tree (is_v4 b.ip) p.0 h),
      ap (after_insert (is_v4 b.ip) h) (insert_lem b md t k),
      stored-count_added p.1 v4 q (with_tree (is_v4 b.ip) p.0 h)
          ∙ stored-with_tree (stored_after (some md)) (is_v4 b.ip) v4 (same_bits (prefix_bits b) q)
              q p.0 h (metadata_at-put (prefix_walk b).1 md (prefix_bits b) q t root.is_node)
              (λ o. refl),
    )

contains_lem :
    (ip : Bytes) (t : Tree) → IsIp ip → contains ip t ≡ some (scan (ip_bits ip) t not_found)
unfolding contains
contains_lem ip t k =
    let e : (family_walk ip).1 ≡ length (ip_bits ip) = sym (length-ip_bits ip k) in
    ap (λ n. contains_at (family_walk ip).0 n 0 t not_found) e
    ∙ contains_at-scan (family_walk ip).0 0 (ip_bits ip) t not_found (ip_bits-Reads ip)

-- `Contains` of an address of four or sixteen bytes never panics. It finds nothing where no prefix
-- of the address is stored in its family, and otherwise the longest one with its length and metadata.
pub contains-IsLongest :
    (ip : Bytes) (h : Helper)
    → IsIp ip
    → IsSound h
    → (f : Found) × (contains_ip (some ip) h ≡ ok f)
      × (((f ≡ not_found) × NoneStored (ip_bits ip) (tree_for (is_v4 ip) h))
          ⊎ IsLongest 0 (ip_bits ip) (tree_for (is_v4 ip) h) f)
unfolding contains_ip
contains-IsLongest ip h k s =
    let t : Tree = tree_for (is_v4 ip) h in
    (
      scan (ip_bits ip) t not_found,
      ap found_or_panic (contains_lem ip t k),
      scan-IsLongest (ip_bits ip) t (tree_for-IsRoot (is_v4 ip) h s).depths,
    )

contains_empty : (t : Tree) → IsNode t → contains [] t ≡ none
unfolding contains contains_at family_walk to4 bit_at
contains_empty nil h = absurd h
contains_empty (node e p m l r) h = refl

-- The nil check of `Contains` lets the empty slice through, and every helper then panics on it.
pub contains_empty_panics : (h : Helper) → IsSound h → contains_ip (some []) h ≡ err index_panic
unfolding contains_ip to4
contains_empty_panics h s = ap found_or_panic (contains_empty h.ipv6_tree s.v6_root.is_node)
