-- ===== src/Reclaim/System/Claims.antt =====
-- reclaim/table.go: the keys in every state that the table reaches, and what Open, the hooks and the
-- channels can rely on.
use traefik_middleware_utili.Prelude.{none, ap}
use traefik_middleware_utili.Reclaim.System.Counts.{count-without, ==_refl}
use traefik_middleware_utili.Reclaim.System.Steps.{plain}
use traefik_middleware_utili.Prelude.{ℕ, List, ◌∷◌, ◌≡◌, refl, arith, true, ◌≤◌, ◌+◌}
use traefik_middleware_utili.Prelude.Int.{ℤ}
use traefik_middleware_utili.Reclaim.Values.{member}
use traefik_middleware_utili.Reclaim.Table.{new_table}
use traefik_middleware_utili.Reclaim.System.{
  Work, System, Picked, closing_behind, Step, Reach, at_start, then_step, by_open, by_created,
  by_create_failed, by_woke, by_wake_panic, by_done, by_drop, by_slept, by_sleep_panic, by_expire,
  by_timer, by_closed, by_swapped, by_closed_behind, by_readied, by_disposed, by_unbound, by_names,
}
use traefik_middleware_utili.Reclaim.System.Counts.{owner, hooked, closer, count, tally, ==_refl}
use traefik_middleware_utili.Prelude.{ℕ, ◌+◌, ◌≤◌, some}
use traefik_middleware_utili.Prelude.Int.{pos}
use traefik_middleware_utili.Keys.{find}
use traefik_middleware_utili.Reclaim.Table.{
  slot_awake, slot_busy, SlotState, slot_asleep, slot_gone, lookup_open, open_mapped, open_park,
}
use traefik_middleware_utili.Reclaim.System.{waking, sleeping}
use traefik_middleware_utili.Reclaim.System.Kept.{awake_flag}
use traefik_middleware_utili.Reclaim.System.Steps.{IsKept}
use traefik_middleware_utili.Reclaim.System.Reached.{Reach-IsKept}
use traefik_middleware_utili.Reclaim.System.Mapped.{
  IsMapped, stays_mapped, must_map, owner_busy, owner_mapped,
}
use traefik_middleware_utili.Reclaim.System.Keyed.{
  created-IsMapped, create_failed-IsMapped, woke-IsMapped, after_panic-IsMapped, slept-IsMapped,
}
use traefik_middleware_utili.Reclaim.System.Rekeyed.{
  open_once-IsMapped, release-IsMapped, drop_once-IsMapped, expire-IsMapped, unmapped-IsMapped,
  readied-IsMapped, unbound-IsMapped,
}

Step-IsMapped : (s t : System) → Step s t → IsKept s → IsMapped s → IsMapped t
unfolding owner
Step-IsMapped _ _ (by_open key s) k m = open_once-IsMapped key s m
Step-IsMapped _ _ (by_created i value hooks rest s p) k m =
    created-IsMapped i value hooks rest s p k m
Step-IsMapped _ _ (by_create_failed i error rest s p) k m = create_failed-IsMapped i error rest s m
Step-IsMapped _ _ (by_woke i rest s p) k m = woke-IsMapped i rest s p k m
Step-IsMapped _ _ (by_wake_panic i error rest s p) k m =
    after_panic-IsMapped i (some error) rest s (owner_mapped i (waking i) rest s p (==_refl i) k m)
      m
Step-IsMapped _ _ (by_done i s h) k m = release-IsMapped i s m
Step-IsMapped _ _ (by_drop i rest s p) k m = drop_once-IsMapped i rest s m
Step-IsMapped _ _ (by_slept i rest s p) k m = slept-IsMapped i rest s p k m
Step-IsMapped _ _ (by_sleep_panic i rest s p) k m =
    after_panic-IsMapped i none rest s (owner_mapped i (sleeping i) rest s p (==_refl i) k m) m
Step-IsMapped _ _ (by_expire i rest s p) k m = expire-IsMapped i rest s m
Step-IsMapped _ _ (by_timer i s) k m = expire-IsMapped i s.works s m
Step-IsMapped _ _ (by_closed i rest s p) k m = unmapped-IsMapped i rest s m
Step-IsMapped _ _ (by_swapped i c n rest s p) k m =
    readied-IsMapped i n (closing_behind i c ∷ rest) s m
Step-IsMapped _ _ (by_closed_behind i c rest s p) k m = unmapped-IsMapped c rest s m
Step-IsMapped _ _ (by_readied i n rest s p) k m = readied-IsMapped i n rest s m
Step-IsMapped _ _ (by_disposed i expired rest s p) k m = record { there = m.there; keyed = m.keyed }
Step-IsMapped _ _ (by_unbound i rest s p) k m = unbound-IsMapped i rest s m
Step-IsMapped _ _ (by_names aliases s) k m = record { there = m.there; keyed = m.keyed }

pub Reach-IsMapped : (grace : ℤ) (s : System) → Reach grace s → IsMapped s
unfolding new_table stays_mapped find
Reach-IsMapped grace _ at_start = record { there = λ j l. absurd cc; keyed = λ key j f. absurd cc }
Reach-IsMapped grace _ (then_step s t r q) =
    Step-IsMapped s t q (Reach-IsKept grace s r) (Reach-IsMapped grace s r)

-- In every interleaving of the steps on a new table, at most one of create, Wake, Sleep and Close
-- of an incarnation runs at a time, and its Close is called at most once.
pub Reach-one_hook :
    (grace : ℤ) (s : System) (i : ℕ)
    → Reach grace s
    → (tally (hooked i) s.works + tally (closer i) s.works ≤ 1) × (s.closes i ≤ 1)
Reach-one_hook grace s i r =
    let k = Reach-IsKept grace s r i in (omega (arith, k.once, k.running), omega (arith, k.once))

awake_state : (q : SlotState) → (awake_flag q ≡ 0 → ⊥) → q ≡ slot_awake
awake_state slot_awake h = refl
awake_state slot_busy h = absurd (h refl)
awake_state slot_asleep h = absurd (h refl)
awake_state slot_gone h = absurd (h refl)

-- What an incarnation is to those that hold it.
pub record IsHeld (s : System) (i : ℕ) : Type 0 where
  pub awake : (s.table.slots i).state ≡ slot_awake
  pub no_hook : tally (hooked i) s.works + tally (closer i) s.works ≡ 0
  pub not_closed : s.closes i ≡ 0
  pub mapped : find (s.opened i) s.table.items ≡ some i
  pub counted : (s.table.slots i).holders ≡ pos (count i s.holders)

-- In every interleaving of the steps on a new table, an incarnation that a bound Open holds is
-- awake, mapped under its key, no hook of it runs, its Close was not called, and its count of
-- holders is the number of those Opens.
pub Reach-IsHeld :
    (grace : ℤ) (s : System) (i : ℕ) → Reach grace s → member i s.holders ≡ true → IsHeld s i
unfolding stays_mapped
Reach-IsHeld grace s i r h =
    let k = Reach-IsKept grace s r i in
    let some_held = count-without i s.holders h in
    let awake = awake_state (s.table.slots i).state (λ z. omega (arith, k.unheld z, some_held)) in
    let once : 1 + 0 + tally (hooked i) s.works + s.closes i ≤ 1 = rw awake at k.once in
    let counted = k.counted (rw awake refl) in
    let no_waker = (plain s s.works i).0 in
    record {
      awake = awake;
      no_hook = omega (arith, once, k.running);
      not_closed = omega (arith, once);
      mapped = (Reach-IsMapped grace s r).there i (rw awake refl);
      counted = rw counted (ap pos (omega (arith, once, no_waker)));
    }

pub Reach-one_per_key :
    (grace : ℤ) (s : System) (i j : ℕ)
    → Reach grace s
    → s.opened i ≡ s.opened j
    → must_map (s.table.slots i) ≡ true
    → must_map (s.table.slots j) ≡ true
    → i ≡ j
Reach-one_per_key grace s i j r e a b =
    let m = Reach-IsMapped grace s r in
    let here : find (s.opened j) s.table.items ≡ some i = rw e at (m.there i a) in
    let there = m.there j b in cc

-- In every interleaving of the steps on a new table, while a goroutine owns a slot, that is while
-- it creates, wakes, sleeps or closes with the key still mapped, an Open of the slot's key parks
-- on its channel and changes nothing.
pub Reach-opens_wait :
    (grace : ℤ) (s : System) (i : ℕ) (w : Work) (rest : List Work)
    → Reach grace s
    → Picked w s.works rest
    → owner i w ≡ true
    → lookup_open (s.opened i) s.table ≡ (open_park i (s.table.slots i).ready, s.table)
unfolding lookup_open open_mapped
Reach-opens_wait grace s i w rest r p o =
    let k = Reach-IsKept grace s r in
    let here = owner_mapped i w rest s p o k (Reach-IsMapped grace s r) in
    let busy = owner_busy i w rest s p o k in rw (here, busy) refl
