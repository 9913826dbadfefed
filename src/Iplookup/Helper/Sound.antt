-- ===== src/Iplookup/Helper/Sound.antt =====
-- What every method of the helper keeps: both trees store depths, hold no dead node, and `Count` is
-- the number of their endpoints.
use traefik_middleware_utili.Prelude.{
  ℕ, Bool, Bytes, List, [], ap, arith, false, length, refl, some, sym, true, ◌+◌, ◌-◌, ◌∙◌, ◌∷◌,
  ◌≡◌,
}
use traefik_middleware_utili.Prelude.Result.{ok}
use traefik_middleware_utili.Iplookup.Address.{Block, is_some, prefix_walk}
use traefik_middleware_utili.Iplookup.Address.Blocks.{
  IsBlock, length-prefix_bits, prefix_bits, prefix_bits-Reads,
}
use traefik_middleware_utili.Iplookup.Tree.{
  Tree, nil, child, empty_node, insert, insert_at, node, remove, remove_at,
}
use traefik_middleware_utili.Iplookup.Tree.Shape.{
  StoresDepth, KeepsPruned, cut-KeepsPruned, cut-StoresDepth, endpoints, endpoints-cut,
  endpoints-put, is_endpoint, put-KeepsPruned, put-StoresDepth,
}
use traefik_middleware_utili.Iplookup.Tree.Entries.{
  put, cut, IsNode, cut_under, insert_at-put, metadata_at, remove_at-cut, removed-cut,
}
use traefik_middleware_utili.Iplookup.Helper.{
  Helper, add_block, after_insert, after_remove, count_added, is_v4, new_helper, remove_block,
  tree_for, with_tree,
}

pub record IsRoot (t : Tree) : Type 0 where
  pub is_node : IsNode t
  pub depths : StoresDepth 0 t
  pub pruned : KeepsPruned t

pub record IsSound (h : Helper) : Type 0 where
  pub v4_root : IsRoot h.ipv4_tree
  pub v6_root : IsRoot h.ipv6_tree
  pub counted : h.count ≡ endpoints h.ipv4_tree + endpoints h.ipv6_tree

put-IsNode :
    (len : ℕ) (md : Bytes) (bs : List Bool) (t : Tree) → IsNode t → IsNode (put len md bs t).0
put-IsNode len md bs nil h = absurd h
put-IsNode len md [] (node true p m l r) h = tt
put-IsNode len md [] (node false p m l r) h = tt
put-IsNode len md (true ∷ bs) (node e p m l r) h = tt
put-IsNode len md (false ∷ bs) (node e p m l r) h = tt

cut_under-IsNode :
    (b e : Bool) (p : ℕ) (m : Bytes) (l r : Tree) (c : Tree × Bool)
    → IsNode (cut_under b (node e p m l r) c).0
cut_under-IsNode b e p m l r (c, false) = tt
cut_under-IsNode true e p m l r (c, true) = tt
cut_under-IsNode false e p m l r (c, true) = tt

cut-IsNode : (bs : List Bool) (t : Tree) → IsNode t → IsNode (cut bs t).0
cut-IsNode bs nil h = absurd h
cut-IsNode [] (node true p m l r) h = tt
cut-IsNode [] (node false p m l r) h = tt
cut-IsNode (b ∷ bs) (node e p m l r) h =
    cut_under-IsNode b e p m l r (cut bs (child b (node e p m l r)))

-- `insert` of a network never panics, and is `put` of its bits.
pub insert_lem :
    (b : Block) (md : Bytes) (t : Tree)
    → IsBlock b
    → insert b md t ≡ some (put (prefix_walk b).1 md (prefix_bits b) t)
unfolding insert
insert_lem b md t h =
    let e : (prefix_walk b).1 ≡ length (prefix_bits b) = sym (length-prefix_bits b h) in
    ap (λ n. insert_at (prefix_walk b).0 (prefix_walk b).1 md n 0 t) e
    ∙ insert_at-put (prefix_walk b).0 (prefix_walk b).1 md 0 (prefix_bits b) t (prefix_bits-Reads b)

pub remove_lem : (b : Block) (t : Tree) → IsBlock b → remove b t ≡ some (cut (prefix_bits b) t)
unfolding remove
remove_lem b t h =
    let e : (prefix_walk b).1 ≡ length (prefix_bits b) = sym (length-prefix_bits b h) in
    ap (λ n. remove_at (prefix_walk b).0 n 0 t) e
    ∙ remove_at-cut (prefix_walk b).0 0 (prefix_bits b) t (prefix_bits-Reads b)

put-IsRoot :
    (b : Block) (md : Bytes) (t : Tree)
    → IsBlock b
    → IsRoot t
    → IsRoot (put (prefix_walk b).1 md (prefix_bits b) t).0
put-IsRoot b md t h r = record {
  is_node = put-IsNode (prefix_walk b).1 md (prefix_bits b) t r.is_node;
  depths =
      put-StoresDepth (prefix_walk b).1 md (prefix_bits b) 0 t
        (omega (arith, length-prefix_bits b h)) r.depths;
  pruned = put-KeepsPruned (prefix_walk b).1 md (prefix_bits b) t r.pruned;
}

cut-IsRoot : (bs : List Bool) (t : Tree) → IsRoot t → IsRoot (cut bs t).0
cut-IsRoot bs t r = record {
  is_node = cut-IsNode bs t r.is_node;
  depths = cut-StoresDepth bs 0 t r.depths;
  pruned = cut-KeepsPruned bs t r.pruned;
}

pub tree_for-IsRoot : (v4 : Bool) (h : Helper) → IsSound h → IsRoot (tree_for v4 h)
tree_for-IsRoot true h s = s.v4_root
tree_for-IsRoot false h s = s.v6_root

after_insert-IsSound :
    (v4 : Bool) (h : Helper) (p : Tree × Bool)
    → IsSound h
    → IsRoot p.0
    → endpoints p.0 ≡ endpoints (tree_for v4 h) + is_endpoint p.1
    → IsSound (count_added p.1 (with_tree v4 p.0 h))
after_insert-IsSound true h (t, true) s r e = record {
  v4_root = r;
  v6_root = s.v6_root;
  counted = omega (arith, s.counted);
}
after_insert-IsSound true h (t, false) s r e = record {
  v4_root = r;
  v6_root = s.v6_root;
  counted = omega (arith, s.counted);
}
after_insert-IsSound false h (t, true) s r e = record {
  v4_root = s.v4_root;
  v6_root = r;
  counted = omega (arith, s.counted);
}
after_insert-IsSound false h (t, false) s r e = record {
  v4_root = s.v4_root;
  v6_root = r;
  counted = omega (arith, s.counted);
}

abbrev pub Removed : Tree × Bool → Bool → Helper → Helper
Removed (t, false) v4 h = with_tree v4 t h
Removed (t, true) v4 h = record (with_tree v4 t h) { count = h.count - 1 }

after_remove-IsSound :
    (v4 : Bool) (h : Helper) (p : Tree × Bool)
    → IsSound h
    → IsRoot p.0
    → endpoints p.0 + is_endpoint p.1 ≡ endpoints (tree_for v4 h)
    → IsSound (Removed p v4 h)
after_remove-IsSound true h (t, true) s r e = record {
  v4_root = r;
  v6_root = s.v6_root;
  counted = omega (arith, s.counted);
}
after_remove-IsSound true h (t, false) s r e = record {
  v4_root = r;
  v6_root = s.v6_root;
  counted = omega (arith, s.counted);
}
after_remove-IsSound false h (t, true) s r e = record {
  v4_root = s.v4_root;
  v6_root = r;
  counted = omega (arith, s.counted);
}
after_remove-IsSound false h (t, false) s r e = record {
  v4_root = s.v4_root;
  v6_root = r;
  counted = omega (arith, s.counted);
}

-- Storing a network never panics, and keeps the trees well formed and `Count` the number of stored
-- prefixes, whether the prefix is new or replaced.
pub add_block-IsSound :
    (b : Block) (md : Bytes) (h : Helper)
    → IsBlock b
    → IsSound h
    → (h' : Helper) × (add_block b md h ≡ ok h') × IsSound h'
unfolding add_block
add_block-IsSound b md h k s =
    let t : Tree = tree_for (is_v4 b.ip) h in
    let root : IsRoot t = tree_for-IsRoot (is_v4 b.ip) h s in
    let p : Tree × Bool = put (prefix_walk b).1 md (prefix_bits b) t in
    (
      count_added p.1 (with_tree (is_v4 b.ip) p.0 h),
      ap (after_insert (is_v4 b.ip) h) (insert_lem b md t k),
      after_insert-IsSound (is_v4 b.ip) h p s (put-IsRoot b md t k root)
          (endpoints-put (prefix_walk b).1 md (prefix_bits b) t root.is_node),
    )

pub after_remove-Removed :
    (v4 : Bool) (h : Helper) (p : Tree × Bool)
    → after_remove v4 h (some p) ≡ ok (Removed p v4 h, p.1)
after_remove-Removed v4 h (t, true) = refl
after_remove-Removed v4 h (t, false) = refl

-- Dropping a network never panics and reports whether it was stored; the trees stay well formed and
-- `Count` the number of stored prefixes.
pub remove_block-IsSound :
    (b : Block) (h : Helper)
    → IsBlock b
    → IsSound h
    → (h' : Helper) × (remove_block b h
        ≡ ok (h', is_some (metadata_at (prefix_bits b) (tree_for (is_v4 b.ip) h))))
      × IsSound h'
unfolding remove_block
remove_block-IsSound b h k s =
    let t : Tree = tree_for (is_v4 b.ip) h in
    let p : Tree × Bool = cut (prefix_bits b) t in
    (
      Removed p (is_v4 b.ip) h,
      rw (remove_lem b t k, ← removed-cut (prefix_bits b) t)
          (after_remove-Removed (is_v4 b.ip) h p),
      after_remove-IsSound (is_v4 b.ip) h p s
          (cut-IsRoot (prefix_bits b) t (tree_for-IsRoot (is_v4 b.ip) h s))
          (endpoints-cut (prefix_bits b) t),
    )

empty-IsRoot : IsRoot empty_node
empty-IsRoot = record { is_node = tt; depths = (λ q. cc, tt, tt); pruned = (tt, tt) }

pub new_helper-IsSound : IsSound new_helper
unfolding new_helper
new_helper-IsSound = record { v4_root = empty-IsRoot; v6_root = empty-IsRoot; counted = refl }
