-- ===== src/Iplookup/Tree/Longest.antt =====
-- `contains` returns the longest stored prefix of an address.
use native.Mathlib.Nat.{add-zero}
use traefik_middleware_utili.Iplookup.Address.Bits.{Reads}
use traefik_middleware_utili.Prelude.{
  ℕ, Bool, Bytes, List, [], arith, false, length, none, refl, some, suc, take, true, zero, ◌+◌, ◌<◌,
  ◌∙◌, ◌∷◌, ◌≡◌, ◌≤◌, ◌⊎◌, ap, inl, inr, sym,
}
use traefik_middleware_utili.Iplookup.Tree.{
  Tree, Found, child, contains_at, nil, node, note, not_found,
}
use traefik_middleware_utili.Iplookup.Tree.Entries.{metadata_at}
use traefik_middleware_utili.Iplookup.Tree.Shape.{StoresDepth}

abbrev pub scan : List Bool → Tree → Found → Found
scan [] t best = note t best
scan (b ∷ bs) nil best = best
scan (b ∷ bs) (node e p m l r) best =
    scan bs (child b (node e p m l r)) (note (node e p m l r) best)

pub contains_at-scan :
    (ip : Bytes) (i : ℕ) (bs : List Bool) (t : Tree) (best : Found)
    → Reads ip i bs
    → contains_at ip (length bs) i t best ≡ some (scan bs t best)
unfolding contains_at
contains_at-scan ip i [] t best h = refl
contains_at-scan ip i (b ∷ bs) nil best h = refl
contains_at-scan ip i (b ∷ bs) (node e p m l r) best h =
    rw h.0 (contains_at-scan ip (i + 1) bs (child b (node e p m l r)) _ h.1)

-- No prefix of `bs` is stored.
abbrev pub NoneStored : List Bool → Tree → Type 0
NoneStored bs t = (j : ℕ) → j ≤ length bs → metadata_at (take j bs) t ≡ none

-- `f` is the longest stored prefix of `bs`, whose first bit is at depth `d`.
pub record IsLongest (d : ℕ) (bs : List Bool) (t : Tree) (f : Found) : Type 0 where
  pub depth : ℕ
  pub found : f.found ≡ true
  pub within : depth ≤ length bs
  pub at_depth : f.prefix_len ≡ d + depth
  pub stored : metadata_at (take depth bs) t ≡ some f.metadata
  pub longest : (j : ℕ) → depth < j → j ≤ length bs → metadata_at (take j bs) t ≡ none

abbrev Scanned : ℕ → List Bool → Tree → Found → Found → Type 0
Scanned d bs t best f = ((f ≡ best) × NoneStored bs t) ⊎ IsLongest d bs t f

metadata_at-nil : (q : List Bool) → metadata_at q nil ≡ none
metadata_at-nil [] = refl
metadata_at-nil (b ∷ q) = refl

-- The node itself is stored at depth 0.
none_below :
    (b : Bool) (bs : List Bool) (e : Bool) (p : ℕ) (m : Bytes) (l r : Tree)
    → NoneStored bs (child b (node e p m l r))
    → (j : ℕ) → 0 < j
    → j ≤ length (b ∷ bs)
    → metadata_at (take j (b ∷ bs)) (node e p m l r) ≡ none
none_below b bs e p m l r h zero q k = absurd (omega arith)
none_below true bs e p m l r h (suc j) q k = h j (omega arith)
none_below false bs e p m l r h (suc j) q k = h j (omega arith)

deeper :
    (d : ℕ) (b : Bool) (bs : List Bool) (e : Bool) (p : ℕ) (m : Bytes) (l r : Tree) (f : Found)
    → IsLongest (d + 1) bs (child b (node e p m l r)) f
    → IsLongest d (b ∷ bs) (node e p m l r) f
deeper d b bs e p m l r f h = record {
  depth = suc h.depth;
  found = h.found;
  within = omega (arith, h.within);
  at_depth = omega (arith, h.at_depth);
  stored = step h.depth b ∙ h.stored;
  longest = λ j lt le. later j lt le;
}
  where
    step :
        (j : ℕ) (b : Bool)
        → metadata_at (take (suc j) (b ∷ bs)) (node e p m l r)
          ≡ metadata_at (take j bs) (child b (node e p m l r))
    step j true = refl
    step j false = refl

    later :
        (j : ℕ)
        → suc h.depth < j
        → j ≤ length (b ∷ bs)
        → metadata_at (take j (b ∷ bs)) (node e p m l r) ≡ none
    later zero lt le = absurd (omega arith)
    later (suc j) lt le = step j b ∙ h.longest j (omega arith) (omega arith)

none_at_end : (p : ℕ) (m : Bytes) (l r : Tree) → NoneStored [] (node false p m l r)
none_at_end p m l r zero h = refl
none_at_end p m l r (suc j) h = refl

none_from :
    (b : Bool) (bs : List Bool) (p : ℕ) (m : Bytes) (l r : Tree)
    → NoneStored bs (child b (node false p m l r))
    → NoneStored (b ∷ bs) (node false p m l r)
none_from b bs p m l r h zero k = refl
none_from b bs p m l r h (suc j) k = none_below b bs false p m l r h (suc j) (omega arith) k

child-StoresDepth :
    (b : Bool) (d : ℕ) (e : Bool) (p : ℕ) (m : Bytes) (l r : Tree)
    → StoresDepth d (node e p m l r)
    → StoresDepth (d + 1) (child b (node e p m l r))
child-StoresDepth true d e p m l r h = h.2
child-StoresDepth false d e p m l r h = h.1

through :
    (d : ℕ) (b : Bool) (bs : List Bool) (e : Bool) (p : ℕ) (m : Bytes) (l r : Tree) (best f : Found)
    → StoresDepth d (node e p m l r)
    → Scanned (d + 1) bs (child b (node e p m l r)) (note (node e p m l r) best) f
    → Scanned d (b ∷ bs) (node e p m l r) best f
through d b bs e p m l r best f h (inr found) = inr (deeper d b bs e p m l r f found)
through d b bs false p m l r best f h (inl (same, absent)) =
    inl (same, none_from b bs p m l r absent)
through d b bs true p m l r best f h (inl (same, absent)) = inr (record {
  depth = 0;
  found = ap (λ (g : Found). g.found) same;
  within = omega arith;
  at_depth = ap (λ (g : Found). g.prefix_len) same ∙ h.0 refl ∙ sym (add-zero d);
  stored = ap (λ (g : Found). some g.metadata) (sym same);
  longest = λ j lt le. none_below b bs true p m l r absent j lt le;
})

scan-Scanned :
    (d : ℕ) (bs : List Bool) (t : Tree) (best : Found)
    → StoresDepth d t
    → Scanned d bs t best (scan bs t best)
scan-Scanned d [] nil best h = inl (refl, λ j k. metadata_at-nil (take j []))
scan-Scanned d (b ∷ bs) nil best h = inl (refl, λ j k. metadata_at-nil (take j (b ∷ bs)))
scan-Scanned d [] (node false p m l r) best h = inl (refl, none_at_end p m l r)
scan-Scanned d [] (node true p m l r) best h = inr (record {
  depth = 0;
  found = refl;
  within = omega arith;
  at_depth = h.0 refl ∙ sym (add-zero d);
  stored = refl;
  longest = λ j lt le. absurd (omega arith);
})
scan-Scanned d (b ∷ bs) (node e p m l r) best h = through d b bs e p m l r best _ h (
    scan-Scanned (d + 1) bs (child b (node e p m l r)) (note (node e p m l r) best)
      (child-StoresDepth b d e p m l r h))

-- At the root: nothing is found and no prefix of the bits is stored, or the longest one is found.
pub scan-IsLongest :
    (bs : List Bool) (t : Tree)
    → StoresDepth 0 t
    → ((scan bs t not_found ≡ not_found) × NoneStored bs t) ⊎ IsLongest 0 bs t (scan bs t not_found)
scan-IsLongest bs t h = scan-Scanned 0 bs t not_found h
