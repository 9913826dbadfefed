-- ===== src/Reclaim/System/Behind.antt =====
-- reclaim/table.go: the key and the hooks of an incarnation whose Close runs after it is gone.
pub mod Opens
pub mod Hooks
pub mod Locks
use mathlib.Core.Path.{subst}
use traefik_middleware_utili.Prelude.{
  ℕ, Bool, List, [], false, inl, inr, refl, true, ◌∷◌, ◌≡◌, ◌∙◌, ltb, sym, ap,
}
use traefik_middleware_utili.Keys.{find}
use traefik_middleware_utili.Reclaim.Values.{put_at}
use traefik_middleware_utili.Reclaim.Table.{Slot}
use traefik_middleware_utili.Reclaim.System.{
  Work, creating, waking, dropping, sleeping, expiring, closing, swapped, closing_behind, readying,
  disposing, unbinding, Picked, first, later, System,
}
use traefik_middleware_utili.Reclaim.System.Counts.{==_refl, same_slot}

abbrev pub enforces : System → ℕ → Bool
enforces s i = (s.table.slots i).hooks.enforce_close_before_open

-- A closer has the key of the incarnation that it stands for; an incarnation that is unmapped before
-- its Close does not enforce.
abbrev pub Behind : System → Work → Type 0
Behind s (creating i) = Unit {0}
Behind s (waking i) = Unit {0}
Behind s (dropping i) = Unit {0}
Behind s (sleeping i) = Unit {0}
Behind s (expiring i) = Unit {0}
Behind s (closing i) = Unit {0}
Behind s (swapped i c n) =
    (s.opened c ≡ s.opened i) × (ltb c s.table.next_slot ≡ true) × (ltb i s.table.next_slot ≡ true)
Behind s (closing_behind i c) =
    (s.opened c ≡ s.opened i) × (ltb c s.table.next_slot ≡ true) × (ltb i s.table.next_slot ≡ true)
Behind s (readying i n) = Unit {0}
Behind s (disposing i b) = (enforces s i ≡ false) × (ltb i s.table.next_slot ≡ true)
Behind s (unbinding i) = Unit {0}

abbrev pub EveryWork : (Work → Type 0) → List Work → Type 0
EveryWork P [] = Unit {0}
EveryWork P (w ∷ ws) = P w × EveryWork P ws

pub EveryWork-Picked :
    (P : Work → Type 0) (w : Work) (works rest : List Work)
    → Picked w works rest
    → EveryWork P works
    → P w × EveryWork P rest
EveryWork-Picked P w _ _ (first rest) e = e
EveryWork-Picked P w _ _ (later v works rest p) e =
    let below = EveryWork-Picked P w works rest p e.1 in (below.0, (e.0, below.1))

EveryWork-map :
    (P Q : Work → Type 0) (ws : List Work)
    → ((w : Work) → P w → Q w)
    → EveryWork P ws
    → EveryWork Q ws
EveryWork-map P Q [] f e = tt
EveryWork-map P Q (w ∷ ws) f e = (f w e.0, EveryWork-map P Q ws f e.1)

-- What a step does to the slots that were made before it.
pub record IsFramed (s t : System) : Type 0 where
  pub same_opened : (j : ℕ) → ltb j s.table.next_slot ≡ true → t.opened j ≡ s.opened j
  pub still_made : (j : ℕ) → ltb j s.table.next_slot ≡ true → ltb j t.table.next_slot ≡ true
  pub same_hooks : (j : ℕ) → ltb j s.table.next_slot ≡ true → enforces t j ≡ enforces s j

pub framed-Behind : (s t : System) → IsFramed s t → (w : Work) → Behind s w → Behind t w
framed-Behind s t f (creating i) b = tt
framed-Behind s t f (waking i) b = tt
framed-Behind s t f (dropping i) b = tt
framed-Behind s t f (sleeping i) b = tt
framed-Behind s t f (expiring i) b = tt
framed-Behind s t f (closing i) b = tt
framed-Behind s t f (swapped i c n) b =
    (f.same_opened c b.1 ∙ b.0 ∙ sym (f.same_opened i b.2), f.still_made c b.1, f.still_made i b.2)
framed-Behind s t f (closing_behind i c) b =
    (f.same_opened c b.1 ∙ b.0 ∙ sym (f.same_opened i b.2), f.still_made c b.1, f.still_made i b.2)
framed-Behind s t f (readying i n) b = tt
framed-Behind s t f (disposing i e) b = (f.same_hooks i b.1 ∙ b.0, f.still_made i b.1)
framed-Behind s t f (unbinding i) b = tt

pub framed-EveryWork :
    (s t : System) (ws : List Work)
    → IsFramed s t
    → EveryWork (Behind s) ws
    → EveryWork (Behind t) ws
framed-EveryWork s t ws f e = EveryWork-map (Behind s) (Behind t) ws (framed-Behind s t f) e

-- A write of a slot that keeps its hooks.
pub hooks_put :
    (i : ℕ) (x : Slot) (slots : ℕ → Slot) (j : ℕ)
    → x.hooks ≡ (slots i).hooks
    → (put_at i x slots j).hooks ≡ (slots j).hooks
unfolding put_at
hooks_put i x slots j e = elim (same_slot i j) [
  | inl c ↦ subst (λ j. (put_at i x slots j).hooks ≡ (slots j).hooks) c (rw (==_refl i) e)
  | inr d ↦ rw d refl
]

-- A step that makes no slot and keeps the hooks.
pub writes-IsFramed :
    (s t : System)
    → t.opened ≡ s.opened
    → t.table.next_slot ≡ s.table.next_slot
    → ((j : ℕ) → (t.table.slots j).hooks ≡ (s.table.slots j).hooks)
    → IsFramed s t
writes-IsFramed s t o n w = record {
  same_opened = λ j m. rw o refl;
  still_made = λ j m. rw n m;
  same_hooks = λ j m. ap (λ h. h.enforce_close_before_open) (w j);
}
