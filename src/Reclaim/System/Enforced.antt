-- ===== src/Reclaim/System/Enforced.antt =====
-- reclaim/table.go: while Close of an incarnation that enforces it runs, an Open of its key waits.
use traefik_middleware_utili.Prelude.{◌⊎◌, ==_iff, ap, inl, inr}
use traefik_middleware_utili.Prelude.{
  ℕ, Bool, Bytes, List, false, inl, inr, none, refl, some, true, ◌&&◌, ◌==◌, ◌∷◌, ◌≡◌, ◌∙◌, ltb, ap,
}
use traefik_middleware_utili.Prelude.Int.{ℤ}
use traefik_middleware_utili.Reclaim.Table.{Table, claim_drop, lookup_open, open_park}
use traefik_middleware_utili.Reclaim.System.{
  Work, creating, waking, dropping, sleeping, expiring, closing, swapped, closing_behind, readying,
  disposing, unbinding, Picked, System,
}
use traefik_middleware_utili.Reclaim.System.Counts.{closer, owner, ==_refl}
use traefik_middleware_utili.Reclaim.System.Steps.{IsKept}
use traefik_middleware_utili.Reclaim.System.{
  Step, Reach, at_start, then_step, drop_once, by_open, by_created, by_create_failed, by_woke,
  by_wake_panic, by_done, by_drop, by_slept, by_sleep_panic, by_expire, by_timer, by_closed,
  by_swapped, by_closed_behind, by_readied, by_disposed, by_unbound, by_names,
}
use traefik_middleware_utili.Reclaim.System.Behind.{
  Behind, EveryWork-Picked, enforces, framed-EveryWork, writes-IsFramed,
}
use traefik_middleware_utili.Prelude.{
  ℕ, Bool, List, false, true, ◌≡◌, ◌∷◌, refl, some, none, ◌||◌, ◌&&◌, ◌∙◌, ◌==◌, ltb,
}
use traefik_middleware_utili.Reclaim.System.Behind.Opens.{
  IsBehind, rest-Behind, open_once-IsBehind, release-IsBehind, drop_in-IsBehind,
}
use traefik_middleware_utili.Reclaim.System.Behind.Hooks.{
  created-IsBehind, create_failed-IsBehind, woke-IsBehind, after_panic-IsBehind,
}
use traefik_middleware_utili.Reclaim.System.Reached.{Reach-IsKept}
use traefik_middleware_utili.Reclaim.System.Claims.{Reach-IsMapped, Reach-opens_wait}
use traefik_middleware_utili.Reclaim.System.Mapped.{IsMapped, owner_mapped}
use traefik_middleware_utili.Reclaim.System.Behind.Locks.{
  slept-IsBehind, expire-IsBehind, unmapped-IsBehind, readied-IsBehind, unbound-IsBehind,
  disposed-IsBehind,
}

owner_made :
    (i : ℕ) (w : Work) (rest : List Work) (s : System)
    → Picked w s.works rest
    → owner i w ≡ true
    → IsKept s
    → IsMapped s
    → ltb i s.table.next_slot ≡ true
owner_made i w rest s p o k m = (m.keyed (s.opened i) i (owner_mapped i w rest s p o k m)).1

Step-IsBehind : (s t : System) → Step s t → IsKept s → IsMapped s → IsBehind s → IsBehind t
unfolding owner drop_once claim_drop
Step-IsBehind _ _ (by_open key s) k m b = open_once-IsBehind key s b
Step-IsBehind _ _ (by_created i value hooks rest s p) k m b =
    created-IsBehind i value hooks rest s p k b
Step-IsBehind _ _ (by_create_failed i error rest s p) k m b =
    create_failed-IsBehind i error rest s p b
Step-IsBehind _ _ (by_woke i rest s p) k m b = woke-IsBehind i rest s p b
Step-IsBehind _ _ (by_wake_panic i error rest s p) k m b =
    after_panic-IsBehind i (some error) rest s (owner_made i (waking i) rest s p (==_refl i) k m)
      (rest-Behind (waking i) rest s p b)
Step-IsBehind _ _ (by_done i s h) k m b = release-IsBehind i s b
Step-IsBehind _ _ (by_drop i rest s p) k m b =
    drop_in-IsBehind i rest s (s.table.slots i).state (rest-Behind (dropping i) rest s p b)
Step-IsBehind _ _ (by_slept i rest s p) k m b =
    slept-IsBehind i rest s (rest-Behind (sleeping i) rest s p b)
Step-IsBehind _ _ (by_sleep_panic i rest s p) k m b =
    after_panic-IsBehind i none rest s (owner_made i (sleeping i) rest s p (==_refl i) k m)
      (rest-Behind (sleeping i) rest s p b)
Step-IsBehind _ _ (by_expire i rest s p) k m b =
    expire-IsBehind i rest s k (rest-Behind (expiring i) rest s p b)
Step-IsBehind _ _ (by_timer i s) k m b = expire-IsBehind i s.works s k b
Step-IsBehind _ _ (by_closed i rest s p) k m b =
    unmapped-IsBehind i rest s (rest-Behind (closing i) rest s p b)
Step-IsBehind _ _ (by_swapped i c n rest s p) k m b =
    let all = EveryWork-Picked (Behind s) (swapped i c n) s.works rest p b in
    readied-IsBehind i n (closing_behind i c ∷ rest) s (all.0, all.1)
Step-IsBehind _ _ (by_closed_behind i c rest s p) k m b =
    unmapped-IsBehind c rest s (rest-Behind (closing_behind i c) rest s p b)
Step-IsBehind _ _ (by_readied i n rest s p) k m b =
    readied-IsBehind i n rest s (rest-Behind (readying i n) rest s p b)
Step-IsBehind _ _ (by_disposed i expired rest s p) k m b =
    disposed-IsBehind i expired rest s (rest-Behind (disposing i expired) rest s p b)
Step-IsBehind _ _ (by_unbound i rest s p) k m b =
    unbound-IsBehind i rest s (rest-Behind (unbinding i) rest s p b)
Step-IsBehind _ _ (by_names aliases s) k m b =
    let t = record s { table = record s.table { aliases = aliases } } in
    framed-EveryWork s t s.works (writes-IsFramed s t refl refl (λ j. refl)) b

Reach-IsBehind : (grace : ℤ) (s : System) → Reach grace s → IsBehind s
Reach-IsBehind grace _ at_start = tt
Reach-IsBehind grace _ (then_step s t r q) =
    Step-IsBehind s t q (Reach-IsKept grace s r) (Reach-IsMapped grace s r)
      (Reach-IsBehind grace s r)

-- An Open of the key parks on the channel of some slot, and changes nothing.
abbrev pub Parks : Bytes → Table → Type 0
Parks key t = (c : ℕ) × (n : ℕ) × (lookup_open key t ≡ (open_park c n, t))

either : (a b e : Bool) → (a || (b && e)) ≡ true → (a ≡ true) ⊎ ((b ≡ true) × (e ≡ true))
either true b e h = inl refl
either false true true h = inr (refl, refl)
either false true false h = cc
either false false e h = cc

-- Behind a closer `c`.
closer-Parks :
    (grace : ℤ) (s : System) (i k c : ℕ) (w : Work) (rest : List Work)
    → Reach grace s
    → Picked w s.works rest
    → owner c w ≡ true
    → s.opened c ≡ s.opened k
    → (k == i) ≡ true
    → Parks (s.opened i) s.table
closer-Parks grace s i k c w rest r p o e q =
    let same : k ≡ i = (==_iff k i).0 q in
    let key : s.opened c ≡ s.opened i = e ∙ ap s.opened same in
    (c, (s.table.slots c).ready, rw (← key) (Reach-opens_wait grace s c w rest r p o))

closing-Parks :
    (grace : ℤ) (s : System) (i : ℕ) (w : Work) (rest : List Work)
    → Reach grace s
    → Picked w s.works rest
    → Behind s w
    → closer i w ≡ true
    → enforces s i ≡ true
    → Parks (s.opened i) s.table
unfolding owner closer
closing-Parks grace s i (creating k) rest r p b q e = cc
closing-Parks grace s i (waking k) rest r p b q e = cc
closing-Parks grace s i (dropping k) rest r p b q e = cc
closing-Parks grace s i (sleeping k) rest r p b q e = cc
closing-Parks grace s i (expiring k) rest r p b q e = cc
closing-Parks grace s i (closing k) rest r p b q e =
    closer-Parks grace s i k k (closing k) rest r p (==_refl k) refl q
closing-Parks grace s i (swapped k c n) rest r p b q e =
    closer-Parks grace s i k c (swapped k c n) rest r p (==_refl c) b.0 q
closing-Parks grace s i (closing_behind k c) rest r p b q e =
    closer-Parks grace s i k c (closing_behind k c) rest r p (==_refl c) b.0 q
closing-Parks grace s i (readying k n) rest r p b q e = cc
closing-Parks grace s i (disposing k x) rest r p b q e =
    let same : k ≡ i = (==_iff k i).0 q in
    let lets : enforces s i ≡ false = rw (← same) b.0 in absurd cc
closing-Parks grace s i (unbinding k) rest r p b q e = cc

-- In every interleaving of the steps on a new table, while a goroutine creates, wakes, sleeps or
-- closes with the key still mapped, or Close runs of an incarnation that enforces it, behind a
-- closer too, an Open of the slot's key parks on a channel and changes nothing.
pub Reach-Parks :
    (grace : ℤ) (s : System) (i : ℕ) (w : Work) (rest : List Work)
    → Reach grace s
    → Picked w s.works rest
    → (owner i w || (closer i w && enforces s i)) ≡ true
    → Parks (s.opened i) s.table
Reach-Parks grace s i w rest r p c =
    let b = (EveryWork-Picked (Behind s) w s.works rest p (Reach-IsBehind grace s r)).0 in
    elim (either (owner i w) (closer i w) (enforces s i) c) [
      | inl o ↦ (i, (s.table.slots i).ready, Reach-opens_wait grace s i w rest r p o)
      | inr h ↦ closing-Parks grace s i w rest r p b h.0 h.1
    ]
