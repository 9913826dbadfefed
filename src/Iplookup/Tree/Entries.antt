-- ===== src/Iplookup/Tree/Entries.antt =====
-- The tree as a map from prefixes to metadata: `insert` and `remove` change one prefix.
use traefik_middleware_utili.Prelude.{
  ℕ, Bool, Bytes, List, Option, [], false, if◌then◌else◌, length, none, not, refl, some, true, ◌+◌,
  ◌∷◌, ◌≡◌, ap, sym, ◌∙◌, ◌≢◌,
}
use traefik_middleware_utili.Iplookup.Address.{is_some}
use traefik_middleware_utili.Iplookup.Address.Bits.{Reads}
use traefik_middleware_utili.Iplookup.Tree.{
  Tree, child, in_pruned, insert_at, mark, nil, node, or_empty, prune, remove_at, set_child, unmark,
}

-- What is stored under a prefix.
abbrev pub metadata_at : List Bool → Tree → Option Bytes
metadata_at q nil = none
metadata_at [] (node true p m l r) = some m
metadata_at [] (node false p m l r) = none
metadata_at (b ∷ q) (node e p m l r) = metadata_at q (child b (node e p m l r))

unfoldable pub same_bits : List Bool → List Bool → Bool
same_bits [] [] = true
same_bits (true ∷ bs) (true ∷ cs) = same_bits bs cs
same_bits (false ∷ bs) (false ∷ cs) = same_bits bs cs
same_bits _ _ = false

-- The walks on a list of bits.
abbrev pub put : ℕ → Bytes → List Bool → Tree → Tree × Bool
put len md [] t = mark len md t
put len md (b ∷ bs) t =
    let below = put len md bs (or_empty (child b t)) in (set_child b below.0 t, below.1)

pub insert_at-put :
    (ip : Bytes) (len : ℕ) (md : Bytes) (i : ℕ) (bs : List Bool) (t : Tree)
    → Reads ip i bs
    → insert_at ip len md (length bs) i t ≡ some (put len md bs t)
unfolding insert_at
insert_at-put ip len md i [] t h = refl
insert_at-put ip len md i (b ∷ bs) t h =
    rw (h.0, insert_at-put ip len md (i + 1) bs (or_empty (child b t)) h.1)

-- A node, not a nil pointer.
abbrev pub IsNode : Tree → Type 0
IsNode nil = ⊥
IsNode (node e p m l r) = Unit

pub or_empty-IsNode : (t : Tree) → IsNode (or_empty t)
or_empty-IsNode nil = tt
or_empty-IsNode (node e p m l r) = tt

metadata_at-or_empty : (q : List Bool) (t : Tree) → metadata_at q (or_empty t) ≡ metadata_at q t
metadata_at-or_empty [] nil = refl
metadata_at-or_empty (false ∷ q) nil = refl
metadata_at-or_empty (true ∷ q) nil = refl
metadata_at-or_empty q (node e p m l r) = refl

pub metadata_at-put :
    (len : ℕ) (md : Bytes) (bs q : List Bool) (t : Tree)
    → IsNode t
    → metadata_at q (put len md bs t).0 ≡ (if same_bits bs q then some md else metadata_at q t)
unfolding same_bits
metadata_at-put len md bs q nil h = absurd h
metadata_at-put len md [] [] (node true p m l r) h = refl
metadata_at-put len md [] [] (node false p m l r) h = refl
metadata_at-put len md [] (false ∷ q) (node true p m l r) h = refl
metadata_at-put len md [] (false ∷ q) (node false p m l r) h = refl
metadata_at-put len md [] (true ∷ q) (node true p m l r) h = refl
metadata_at-put len md [] (true ∷ q) (node false p m l r) h = refl
metadata_at-put len md (false ∷ bs) [] (node true p m l r) h = refl
metadata_at-put len md (false ∷ bs) [] (node false p m l r) h = refl
metadata_at-put len md (true ∷ bs) [] (node true p m l r) h = refl
metadata_at-put len md (true ∷ bs) [] (node false p m l r) h = refl
metadata_at-put len md (false ∷ bs) (true ∷ q) (node e p m l r) h = refl
metadata_at-put len md (true ∷ bs) (false ∷ q) (node e p m l r) h = refl
metadata_at-put len md (false ∷ bs) (false ∷ q) (node e p m l r) h =
    rw (← metadata_at-or_empty q l) (metadata_at-put len md bs q (or_empty l) (or_empty-IsNode l))
metadata_at-put len md (true ∷ bs) (true ∷ q) (node e p m l r) h =
    rw (← metadata_at-or_empty q r) (metadata_at-put len md bs q (or_empty r) (or_empty-IsNode r))

pub added-put :
    (len : ℕ) (md : Bytes) (bs : List Bool) (t : Tree)
    → IsNode t
    → (put len md bs t).1 ≡ not (is_some (metadata_at bs t))
added-put len md bs nil h = absurd h
added-put len md [] (node true p m l r) h = refl
added-put len md [] (node false p m l r) h = refl
added-put len md (b ∷ bs) (node e p m l r) h =
    let c : Tree = child b (node e p m l r) in
    rw (← metadata_at-or_empty bs c) (added-put len md bs (or_empty c) (or_empty-IsNode c))

abbrev pub cut_under : Bool → Tree → Tree × Bool → Tree × Bool
cut_under b t (c, false) = (t, false)
cut_under b t (c, true) = (set_child b (prune c) t, true)

abbrev pub cut : List Bool → Tree → Tree × Bool
cut bs nil = (nil, false)
cut [] (node e p m l r) = unmark (node e p m l r)
cut (b ∷ bs) (node e p m l r) = cut_under b (node e p m l r) (cut bs (child b (node e p m l r)))

in_pruned-cut :
    (b : Bool) (t : Tree) (c : Tree × Bool) → in_pruned b t (some c) ≡ some (cut_under b t c)
in_pruned-cut b t (c, true) = refl
in_pruned-cut b t (c, false) = refl

pub remove_at-cut :
    (ip : Bytes) (i : ℕ) (bs : List Bool) (t : Tree)
    → Reads ip i bs
    → remove_at ip (length bs) i t ≡ some (cut bs t)
unfolding remove_at
remove_at-cut ip i [] nil h = refl
remove_at-cut ip i (b ∷ bs) nil h = refl
remove_at-cut ip i [] (node e p m l r) h = refl
remove_at-cut ip i (b ∷ bs) (node e p m l r) h =
    rw (h.0, remove_at-cut ip (i + 1) bs (child b (node e p m l r)) h.1)
      (in_pruned-cut b (node e p m l r) (cut bs (child b (node e p m l r))))

metadata_at-prune : (q : List Bool) (t : Tree) → metadata_at q (prune t) ≡ metadata_at q t
metadata_at-prune q nil = refl
metadata_at-prune q (node true p m l r) = refl
metadata_at-prune [] (node false p m nil nil) = refl
metadata_at-prune (false ∷ q) (node false p m nil nil) = refl
metadata_at-prune (true ∷ q) (node false p m nil nil) = refl
metadata_at-prune q (node false p m nil (node e' p' m' l' r')) = refl
metadata_at-prune q (node false p m (node e' p' m' l' r') r) = refl

metadata_at-nil : (q : List Bool) → metadata_at q nil ≡ none
metadata_at-nil [] = refl
metadata_at-nil (b ∷ q) = refl

if_same : (b : Bool) → ◌≡◌ {A = Option Bytes} (if b then none else none) none
if_same true = refl
if_same false = refl

-- Nothing was stored where `cut` reports nothing.
pub removed-cut : (bs : List Bool) (t : Tree) → (cut bs t).1 ≡ is_some (metadata_at bs t)
removed-cut bs nil = refl
removed-cut [] (node true p m l r) = refl
removed-cut [] (node false p m l r) = refl
removed-cut (b ∷ bs) (node e p m l r) =
    cut_under-flag b (node e p m l r) (cut bs (child b (node e p m l r)))
    ∙ removed-cut bs (child b (node e p m l r))
  where
    cut_under-flag : (b : Bool) (t : Tree) (c : Tree × Bool) → (cut_under b t c).1 ≡ c.1
    cut_under-flag b t (c, true) = refl
    cut_under-flag b t (c, false) = refl

-- Below the child that the walk enters.
metadata_at-cut_under :
    (b : Bool) (q : List Bool) (e : Bool) (p : ℕ) (m : Bytes) (l r : Tree) (c : Tree × Bool)
    → (c.1 ≡ false → metadata_at q c.0 ≡ metadata_at q (child b (node e p m l r)))
    → metadata_at (b ∷ q) (cut_under b (node e p m l r) c).0 ≡ metadata_at q c.0
metadata_at-cut_under b q e p m l r (c, false) h = sym (h refl)
metadata_at-cut_under true q e p m l r (c, true) h = metadata_at-prune q c
metadata_at-cut_under false q e p m l r (c, true) h = metadata_at-prune q c

cut_unchanged : (bs : List Bool) (t : Tree) → (cut bs t).1 ≡ false → (cut bs t).0 ≡ t
cut_unchanged bs nil h = refl
cut_unchanged [] (node true p m l r) h = cc
cut_unchanged [] (node false p m l r) h = refl
cut_unchanged (b ∷ bs) (node e p m l r) h = under (cut bs (child b (node e p m l r))) h
  where
    under :
        (c : Tree × Bool)
        → (cut_under b (node e p m l r) c).1 ≡ false
        → (cut_under b (node e p m l r) c).0 ≡ node e p m l r
    under (c, true) k = cc
    under (c, false) k = refl

-- Beside it, and at the node itself.
metadata_at-cut_beside :
    (b b' : Bool) (q : List Bool) (e : Bool) (p : ℕ) (m : Bytes) (l r : Tree) (c : Tree × Bool)
    → b ≢ b'
    → metadata_at (b' ∷ q) (cut_under b (node e p m l r) c).0
      ≡ metadata_at (b' ∷ q) (node e p m l r)
metadata_at-cut_beside b b' q e p m l r (c, false) h = refl
metadata_at-cut_beside true true q e p m l r (c, true) h = absurd (h refl)
metadata_at-cut_beside true false q e p m l r (c, true) h = refl
metadata_at-cut_beside false true q e p m l r (c, true) h = refl
metadata_at-cut_beside false false q e p m l r (c, true) h = absurd (h refl)

metadata_at-cut_above :
    (b e : Bool) (p : ℕ) (m : Bytes) (l r : Tree) (c : Tree × Bool)
    → metadata_at [] (cut_under b (node e p m l r) c).0 ≡ metadata_at [] (node e p m l r)
metadata_at-cut_above b e p m l r (c, false) = refl
metadata_at-cut_above true true p m l r (c, true) = refl
metadata_at-cut_above true false p m l r (c, true) = refl
metadata_at-cut_above false true p m l r (c, true) = refl
metadata_at-cut_above false false p m l r (c, true) = refl

pub metadata_at-cut :
    (bs q : List Bool) (t : Tree)
    → metadata_at q (cut bs t).0 ≡ (if same_bits bs q then none else metadata_at q t)
unfolding same_bits
metadata_at-cut bs q nil = rw metadata_at-nil (sym (if_same (same_bits bs q)))
metadata_at-cut [] [] (node true p m l r) = refl
metadata_at-cut [] [] (node false p m l r) = refl
metadata_at-cut [] (false ∷ q) (node true p m l r) = refl
metadata_at-cut [] (false ∷ q) (node false p m l r) = refl
metadata_at-cut [] (true ∷ q) (node true p m l r) = refl
metadata_at-cut [] (true ∷ q) (node false p m l r) = refl
metadata_at-cut (false ∷ bs) [] (node e p m l r) = metadata_at-cut_above false e p m l r (cut bs l)
metadata_at-cut (true ∷ bs) [] (node e p m l r) = metadata_at-cut_above true e p m l r (cut bs r)
metadata_at-cut (false ∷ bs) (true ∷ q) (node e p m l r) =
    metadata_at-cut_beside false true q e p m l r (cut bs l) (λ h. cc)
metadata_at-cut (true ∷ bs) (false ∷ q) (node e p m l r) =
    metadata_at-cut_beside true false q e p m l r (cut bs r) (λ h. cc)
metadata_at-cut (false ∷ bs) (false ∷ q) (node e p m l r) =
    metadata_at-cut_under false q e p m l r (cut bs l)
      (λ h. ap (metadata_at q) (cut_unchanged bs l h))
    ∙ metadata_at-cut bs q l
metadata_at-cut (true ∷ bs) (true ∷ q) (node e p m l r) =
    metadata_at-cut_under true q e p m l r (cut bs r)
      (λ h. ap (metadata_at q) (cut_unchanged bs r h))
    ∙ metadata_at-cut bs q r
