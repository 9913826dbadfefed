-- ===== src/Iplookup/Tree.antt =====
-- iplookup/tree.go: the radix tree. A nil pointer is `nil`; `none` as a result is Go's index panic.
pub mod Entries
pub mod Shape
pub mod Longest
use traefik_middleware_utili.Prelude.{
  ℕ, Bool, Bytes, Option, [], false, none, some, suc, true, zero, ◌+◌,
}
use traefik_middleware_utili.Iplookup.Address.{bit_at, Block, family_walk, prefix_walk}

-- A node: whether it is an endpoint, its prefix length and metadata, and its children for 0 and 1.
pub data Tree : Type 0 where
  nil : Tree
  node : Bool → ℕ → Bytes → Tree → Tree → Tree

-- `&radixNode{}`.
abbrev pub empty_node : Tree
empty_node = node false 0 [] nil nil

-- A missing child is created before the walk enters it.
abbrev pub or_empty : Tree → Tree
or_empty nil = empty_node
or_empty (node e p m l r) = node e p m l r

-- At the end of the walk; the flag is `added`.
abbrev pub mark : ℕ → Bytes → Tree → Tree × Bool
mark len metadata nil = (nil, false)
mark len metadata (node true p m l r) = (node true p metadata l r, false)
mark len metadata (node false p m l r) = (node true len metadata l r, true)

abbrev pub set_child : Bool → Tree → Tree → Tree
set_child b c nil = nil
set_child false c (node e p m l r) = node e p m c r
set_child true c (node e p m l r) = node e p m l c

abbrev pub child : Bool → Tree → Tree
child b nil = nil
child false (node e p m l r) = l
child true (node e p m l r) = r

abbrev pub in_child : Bool → Tree → Option (Tree × Bool) → Option (Tree × Bool)
in_child b t none = none
in_child b t (some (c, added)) = some (set_child b c t, added)

abbrev pub with_bit {ℓ} : {A : Type ℓ} → Option Bool → (Bool → Option A) → Option A
with_bit none k = none
with_bit (some b) k = k b

-- The walk of `insert` from bit `i` on, `n` bits to go, at a node.
unfoldable pub insert_at : Bytes → ℕ → Bytes → ℕ → ℕ → Tree → Option (Tree × Bool)
insert_at ip len metadata zero i t = some (mark len metadata t)
insert_at ip len metadata (suc n) i t =
    with_bit (bit_at ip i)
      λ b. in_child b t (insert_at ip len metadata n (i + 1) (or_empty (child b t)))

pub record Found : Type 0 where
  pub found : Bool
  pub prefix_len : ℕ
  pub metadata : Bytes

abbrev pub not_found : Found
not_found = record { found = false; prefix_len = 0; metadata = [] }

-- An endpoint takes the place of what was found above it.
abbrev pub note : Tree → Found → Found
note nil best = best
note (node true p m l r) best = record { found = true; prefix_len = p; metadata = m }
note (node false p m l r) best = best

-- The loop of `contains`: `n` bits to go, and the check after it.
unfoldable pub contains_at : Bytes → ℕ → ℕ → Tree → Found → Option Found
contains_at ip zero i t best = some (note t best)
contains_at ip (suc n) i nil best = some best
contains_at ip (suc n) i (node e p m l r) best =
    with_bit (bit_at ip i)
      λ b. contains_at ip n (i + 1) (child b (node e p m l r)) (note (node e p m l r) best)

-- A node that holds nothing is dropped from its parent.
abbrev pub prune : Tree → Tree
prune (node false p m nil nil) = nil
prune t = t

abbrev pub in_pruned : Bool → Tree → Option (Tree × Bool) → Option (Tree × Bool)
in_pruned b t none = none
in_pruned b t (some (c, false)) = some (t, false)
in_pruned b t (some (c, true)) = some (set_child b (prune c) t, true)

abbrev pub unmark : Tree → Tree × Bool
unmark nil = (nil, false)
unmark (node true p m l r) = (node false 0 [] l r, true)
unmark (node false p m l r) = (node false p m l r, false)

-- The walk of `remove`, and its way back: the path is pruned from below, and the root stays.
unfoldable pub remove_at : Bytes → ℕ → ℕ → Tree → Option (Tree × Bool)
remove_at ip n i nil = some (nil, false)
remove_at ip zero i (node e p m l r) = some (unmark (node e p m l r))
remove_at ip (suc n) i (node e p m l r) =
    with_bit (bit_at ip i)
      λ b. in_pruned b (node e p m l r) (remove_at ip n (i + 1) (child b (node e p m l r)))

unfoldable pub insert : Block → Bytes → Tree → Option (Tree × Bool)
insert cidr metadata t = let walk = prefix_walk cidr in insert_at walk.0 walk.1 metadata walk.1 0 t

unfoldable pub contains : Bytes → Tree → Option Found
contains ip t = let walk = family_walk ip in contains_at walk.0 walk.1 0 t not_found

unfoldable pub remove : Block → Tree → Option (Tree × Bool)
remove cidr t = let walk = prefix_walk cidr in remove_at walk.0 walk.1 0 t
