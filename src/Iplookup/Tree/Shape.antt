-- ===== src/Iplookup/Tree/Shape.antt =====
-- The shape of a tree: every endpoint stores its own depth, no dead leaf is kept, and the number of
-- endpoints changes with the flags that `insert` and `remove` return.
use traefik_middleware_utili.Prelude.{
  ℕ, Bool, Bytes, List, [], arith, false, length, refl, true, ◌+◌, ◌∷◌, ◌≡◌,
}
use traefik_middleware_utili.Iplookup.Tree.{Tree, child, nil, node, or_empty, prune, set_child}
use traefik_middleware_utili.Iplookup.Tree.Entries.{put, cut, IsNode, cut_under, or_empty-IsNode}

-- Endpoints of a tree whose root is at depth `d`.
abbrev pub StoresDepth : ℕ → Tree → Type 0
StoresDepth d nil = Unit {0}
StoresDepth d (node e p m l r) = (e ≡ true → p ≡ d) × StoresDepth (d + 1) l × StoresDepth (d + 1) r

abbrev pub holds : Tree → Bool
holds nil = false
holds (node e p m nil nil) = e
holds (node e p m nil (node e' p' m' l' r')) = true
holds (node e p m (node e' p' m' l' r') r) = true

-- Below the root a node is an endpoint or has a child.
abbrev pub IsPruned : Tree → Type 0
IsPruned nil = Unit {0}
IsPruned (node e p m l r) = (holds (node e p m l r) ≡ true) × IsPruned l × IsPruned r

abbrev pub is_endpoint : Bool → ℕ
is_endpoint true = 1
is_endpoint false = 0

abbrev pub endpoints : Tree → ℕ
endpoints nil = 0
endpoints (node e p m l r) = is_endpoint e + endpoints l + endpoints r

StoresDepth-or_empty : (d : ℕ) (t : Tree) → StoresDepth d t → StoresDepth d (or_empty t)
StoresDepth-or_empty d nil h = (λ q. cc, tt, tt)
StoresDepth-or_empty d (node e p m l r) h = h

endpoints-or_empty : (t : Tree) → endpoints (or_empty t) ≡ endpoints t
endpoints-or_empty nil = refl
endpoints-or_empty (node e p m l r) = refl

pub put-StoresDepth :
    (len : ℕ) (md : Bytes) (bs : List Bool) (d : ℕ) (t : Tree)
    → len ≡ d + length bs
    → StoresDepth d t
    → StoresDepth d (put len md bs t).0
put-StoresDepth len md [] d nil e h = tt
put-StoresDepth len md (b ∷ bs) d nil e h = tt
put-StoresDepth len md [] d (node true p m l r) e h = h
put-StoresDepth len md [] d (node false p m l r) e h = (λ q. omega arith, h.1, h.2)
put-StoresDepth len md (true ∷ bs) d (node b p m l r) e h = (
  h.0,
  h.1,
  put-StoresDepth len md bs (d + 1) (or_empty r) (omega arith) (StoresDepth-or_empty (d + 1) r h.2),
)
put-StoresDepth len md (false ∷ bs) d (node b p m l r) e h = (
  h.0,
  put-StoresDepth len md bs (d + 1) (or_empty l) (omega arith) (StoresDepth-or_empty (d + 1) l h.1),
  h.2,
)

pub endpoints-put :
    (len : ℕ) (md : Bytes) (bs : List Bool) (t : Tree)
    → IsNode t
    → endpoints (put len md bs t).0 ≡ endpoints t + is_endpoint (put len md bs t).1
endpoints-put len md bs nil h = absurd h
endpoints-put len md [] (node true p m l r) h = omega arith
endpoints-put len md [] (node false p m l r) h = omega arith
endpoints-put len md (true ∷ bs) (node e p m l r) h =
    omega (arith, endpoints-put len md bs (or_empty r) (or_empty-IsNode r), endpoints-or_empty r)
endpoints-put len md (false ∷ bs) (node e p m l r) h =
    omega (arith, endpoints-put len md bs (or_empty l) (or_empty-IsNode l), endpoints-or_empty l)

StoresDepth-prune : (d : ℕ) (t : Tree) → StoresDepth d t → StoresDepth d (prune t)
StoresDepth-prune d nil h = tt
StoresDepth-prune d (node true p m l r) h = h
StoresDepth-prune d (node false p m nil nil) h = tt
StoresDepth-prune d (node false p m nil (node e' p' m' l' r')) h = h
StoresDepth-prune d (node false p m (node e' p' m' l' r') r) h = h

endpoints-prune : (t : Tree) → endpoints (prune t) ≡ endpoints t
endpoints-prune nil = refl
endpoints-prune (node true p m l r) = refl
endpoints-prune (node false p m nil nil) = refl
endpoints-prune (node false p m nil (node e' p' m' l' r')) = refl
endpoints-prune (node false p m (node e' p' m' l' r') r) = refl

cut_under-StoresDepth :
    (b : Bool) (d : ℕ) (e : Bool) (p : ℕ) (m : Bytes) (l r : Tree) (c : Tree × Bool)
    → StoresDepth d (node e p m l r)
    → StoresDepth (d + 1) c.0
    → StoresDepth d (cut_under b (node e p m l r) c).0
cut_under-StoresDepth b d e p m l r (c, false) h k = h
cut_under-StoresDepth true d e p m l r (c, true) h k = (h.0, h.1, StoresDepth-prune (d + 1) c k)
cut_under-StoresDepth false d e p m l r (c, true) h k = (h.0, StoresDepth-prune (d + 1) c k, h.2)

pub cut-StoresDepth :
    (bs : List Bool) (d : ℕ) (t : Tree) → StoresDepth d t → StoresDepth d (cut bs t).0
cut-StoresDepth bs d nil h = tt
cut-StoresDepth [] d (node true p m l r) h = (λ q. cc, h.1, h.2)
cut-StoresDepth [] d (node false p m l r) h = h
cut-StoresDepth (true ∷ bs) d (node e p m l r) h =
    cut_under-StoresDepth true d e p m l r (cut bs r) h (cut-StoresDepth bs (d + 1) r h.2)
cut-StoresDepth (false ∷ bs) d (node e p m l r) h =
    cut_under-StoresDepth false d e p m l r (cut bs l) h (cut-StoresDepth bs (d + 1) l h.1)

cut_under-endpoints :
    (b : Bool) (e : Bool) (p : ℕ) (m : Bytes) (l r : Tree) (c : Tree × Bool)
    → endpoints c.0 + is_endpoint c.1 ≡ endpoints (child b (node e p m l r))
    → endpoints (cut_under b (node e p m l r) c).0 + is_endpoint c.1 ≡ endpoints (node e p m l r)
cut_under-endpoints b e p m l r (c, false) h = omega arith
cut_under-endpoints true e p m l r (c, true) h = omega (arith, endpoints-prune c)
cut_under-endpoints false e p m l r (c, true) h = omega (arith, endpoints-prune c)

cut_under-flag : (b : Bool) (t : Tree) (c : Tree × Bool) → (cut_under b t c).1 ≡ c.1
cut_under-flag b t (c, true) = refl
cut_under-flag b t (c, false) = refl

pub endpoints-cut :
    (bs : List Bool) (t : Tree) → endpoints (cut bs t).0 + is_endpoint (cut bs t).1 ≡ endpoints t
endpoints-cut bs nil = omega arith
endpoints-cut [] (node true p m l r) = omega arith
endpoints-cut [] (node false p m l r) = omega arith
endpoints-cut (b ∷ bs) (node e p m l r) =
    let c : Tree × Bool = cut bs (child b (node e p m l r)) in
    rw (cut_under-flag b (node e p m l r) c)
      (cut_under-endpoints b e p m l r c (endpoints-cut bs (child b (node e p m l r))))

-- Below the root, too, a removal leaves no dead leaf.
holds-set :
    (b e : Bool) (p : ℕ) (m : Bytes) (l r c : Tree)
    → holds c ≡ true
    → holds (set_child b c (node e p m l r)) ≡ true
holds-set true e p m nil r nil h = cc
holds-set true e p m (node e' p' m' l' r') r nil h = cc
holds-set true e p m nil r (node e' p' m' l' r') h = refl
holds-set true e p m (node e'' p'' m'' l'' r'') r (node e' p' m' l' r') h = refl
holds-set false e p m l r nil h = cc
holds-set false e p m l r (node e' p' m' l' r') h = refl

-- What the root of a tree, which is never dropped, says of its children.
abbrev pub KeepsPruned : Tree → Type 0
KeepsPruned nil = Unit {0}
KeepsPruned (node e p m l r) = IsPruned l × IsPruned r

KeepsPruned-or_empty : (t : Tree) → IsPruned t → KeepsPruned (or_empty t)
KeepsPruned-or_empty nil h = (tt, tt)
KeepsPruned-or_empty (node e p m l r) h = (h.1, h.2)

IsPruned-of : (t : Tree) → holds t ≡ true → KeepsPruned t → IsPruned t
IsPruned-of nil h k = tt
IsPruned-of (node e p m l r) h k = (h, k.0, k.1)

holds_endpoint : (p : ℕ) (m : Bytes) (l r : Tree) → holds (node true p m l r) ≡ true
holds_endpoint p m nil nil = refl
holds_endpoint p m nil (node e' p' m' l' r') = refl
holds_endpoint p m (node e' p' m' l' r') r = refl

put-holds :
    (len : ℕ) (md : Bytes) (bs : List Bool) (t : Tree) → IsNode t → holds (put len md bs t).0 ≡ true
put-holds len md bs nil h = absurd h
put-holds len md [] (node true p m l r) h = holds_endpoint p md l r
put-holds len md [] (node false p m l r) h = holds_endpoint len md l r
put-holds len md (b ∷ bs) (node e p m l r) h =
    let c : Tree = or_empty (child b (node e p m l r)) in
    holds-set b e p m l r _ (put-holds len md bs c (or_empty-IsNode (child b (node e p m l r))))

pub put-KeepsPruned :
    (len : ℕ) (md : Bytes) (bs : List Bool) (t : Tree)
    → KeepsPruned t
    → KeepsPruned (put len md bs t).0
put-KeepsPruned len md [] nil h = tt
put-KeepsPruned len md (b ∷ bs) nil h = tt
put-KeepsPruned len md [] (node true p m l r) h = h
put-KeepsPruned len md [] (node false p m l r) h = h
put-KeepsPruned len md (true ∷ bs) (node e p m l r) h = (
  h.0,
  IsPruned-of _ (put-holds len md bs (or_empty r) (or_empty-IsNode r))
      (put-KeepsPruned len md bs (or_empty r) (KeepsPruned-or_empty r h.1)),
)
put-KeepsPruned len md (false ∷ bs) (node e p m l r) h = (
  IsPruned-of _ (put-holds len md bs (or_empty l) (or_empty-IsNode l))
      (put-KeepsPruned len md bs (or_empty l) (KeepsPruned-or_empty l h.0)),
  h.1,
)

prune-IsPruned : (t : Tree) → KeepsPruned t → IsPruned (prune t)
prune-IsPruned nil h = tt
prune-IsPruned (node true p m l r) h = (holds_endpoint p m l r, h.0, h.1)
prune-IsPruned (node false p m nil nil) h = tt
prune-IsPruned (node false p m nil (node e' p' m' l' r')) h = (refl, h.0, h.1)
prune-IsPruned (node false p m (node e' p' m' l' r') r) h = (refl, h.0, h.1)

KeepsPruned-of : (t : Tree) → IsPruned t → KeepsPruned t
KeepsPruned-of nil h = tt
KeepsPruned-of (node e p m l r) h = (h.1, h.2)

cut_under-KeepsPruned :
    (b e : Bool) (p : ℕ) (m : Bytes) (l r : Tree) (c : Tree × Bool)
    → IsPruned l × IsPruned r
    → KeepsPruned c.0
    → KeepsPruned (cut_under b (node e p m l r) c).0
cut_under-KeepsPruned b e p m l r (c, false) h k = h
cut_under-KeepsPruned true e p m l r (c, true) h k = (h.0, prune-IsPruned c k)
cut_under-KeepsPruned false e p m l r (c, true) h k = (prune-IsPruned c k, h.1)

pub cut-KeepsPruned : (bs : List Bool) (t : Tree) → KeepsPruned t → KeepsPruned (cut bs t).0
cut-KeepsPruned bs nil h = tt
cut-KeepsPruned [] (node true p m l r) h = h
cut-KeepsPruned [] (node false p m l r) h = h
cut-KeepsPruned (true ∷ bs) (node e p m l r) h =
    cut_under-KeepsPruned true e p m l r (cut bs r) h (cut-KeepsPruned bs r (KeepsPruned-of r h.1))
cut-KeepsPruned (false ∷ bs) (node e p m l r) h =
    cut_under-KeepsPruned false e p m l r (cut bs l) h (cut-KeepsPruned bs l (KeepsPruned-of l h.0))
