-- ===== src/Reclaim/System/Reached.antt =====
-- reclaim/table.go: what is kept of every slot in every state that the table reaches.
use traefik_middleware_utili.Prelude.{
  ℕ, Bool, List, ◌∷◌, ◌≡◌, refl, arith, false, true, if◌then◌else◌, ltb, ◌==◌, ◌≤◌, suc, ◌+◌,
}
use traefik_middleware_utili.Prelude.Int.{ℤ}
use traefik_middleware_utili.Reclaim.Values.{put_at, member}
use traefik_middleware_utili.Reclaim.Table.{new_table, write_slot, unbind}
use traefik_middleware_utili.Reclaim.System.{
  Work, System, Picked, readying, swapped, closing_behind, disposing, unbinding, expiring, readied,
  unbound, after_dispose, Step, Reach, start, at_start, then_step, by_open, by_created,
  by_create_failed, by_woke, by_wake_panic, by_done, by_drop, by_slept, by_sleep_panic, by_expire,
  by_timer, by_closed, by_swapped, by_closed_behind, by_readied, by_disposed, by_unbound, by_names,
}
use traefik_middleware_utili.Reclaim.System.Counts.{
  owner, debtor, hooked, closer, waker, count, tally, load_of, ==_refl,
}
use traefik_middleware_utili.Reclaim.System.Kept.{Kept, if_ready}
use traefik_middleware_utili.Reclaim.System.Ends.{fewer-Kept}
use traefik_middleware_utili.Reclaim.System.Starts.{ready-Kept}
use traefik_middleware_utili.Reclaim.System.Steps.{IsKept, one_slot, pick-Kept}
use traefik_middleware_utili.Reclaim.System.Hooked.{
  created-IsKept, create_failed-IsKept, woke-IsKept, wake_panic-IsKept, sleep_panic-IsKept,
  slept-IsKept,
}
use traefik_middleware_utili.Reclaim.System.Locked.{
  open_once-IsKept, release-IsKept, drop_once-IsKept, expire-IsKept, closed-IsKept,
  closed_behind-IsKept,
}

readied-IsKept :
    (i n : ℕ) (rest : List Work) (s : System)
    → Picked (readying i n) s.works rest
    → IsKept s
    → IsKept (readied i n rest s)
unfolding readied write_slot put_at tally owner debtor hooked closer waker
readied-IsKept i n rest s p k =
    let before = pick-Kept (readying i n) rest s p k in
    one_slot (readied i n rest s) i
      (rw (==_refl i)
        (ready-Kept (s.table.slots i) n (load_of s rest i) (rw (==_refl i) at (before i))))
      (λ j q. rw q (rw q at (before j)))

swapped-IsKept :
    (i c n : ℕ) (rest : List Work) (s : System)
    → Picked (swapped i c n) s.works rest
    → IsKept s
    → IsKept (readied i n (closing_behind i c ∷ rest) s)
unfolding readied write_slot put_at tally owner debtor hooked closer waker
swapped-IsKept i c n rest s p k =
    let before = pick-Kept (swapped i c n) rest s p k in
    one_slot (readied i n (closing_behind i c ∷ rest) s) i
      (rw (==_refl i) (
        ready-Kept (s.table.slots i) n
          (record (load_of s rest i) {
            owners = tally (owner i) (closing_behind i c ∷ rest);
            closes_run = suc (tally (closer i) rest);
          })
          (rw (==_refl i) at (before i))))
      (λ j q. rw q (rw q at (before j)))

fewer : (b : Bool) (n : ℕ) → n ≤ (if b then suc n else n)
fewer true n = omega arith
fewer false n = omega arith

disposed-IsKept :
    (i : ℕ) (expired : Bool) (rest : List Work) (s : System)
    → Picked (disposing i expired) s.works rest
    → IsKept s
    → IsKept (record s { works = after_dispose i expired rest })
unfolding tally owner debtor hooked closer waker
disposed-IsKept i true rest s p k j =
    fewer-Kept (s.table.slots j) (load_of s rest j)
      (if i == j then suc (tally (closer j) rest) else tally (closer j) rest)
      (fewer (i == j) (tally (closer j) rest)) (pick-Kept (disposing i true) rest s p k j)
disposed-IsKept i false rest s p k j =
    fewer-Kept (s.table.slots j) (load_of s rest j)
      (if i == j then suc (tally (closer j) rest) else tally (closer j) rest)
      (fewer (i == j) (tally (closer j) rest)) (pick-Kept (disposing i false) rest s p k j)

unbound-IsKept :
    (i : ℕ) (rest : List Work) (s : System)
    → Picked (unbinding i) s.works rest
    → IsKept s
    → IsKept (unbound i rest s)
unfolding unbound unbind tally owner debtor hooked closer waker
unbound-IsKept i rest s p k = pick-Kept (unbinding i) rest s p k

expired-IsKept :
    (i : ℕ) (rest : List Work) (s : System)
    → Picked (expiring i) s.works rest
    → IsKept s
    → (j : ℕ) → Kept (s.table.slots j) (load_of s rest j)
unfolding tally owner debtor hooked closer waker
expired-IsKept i rest s p k = pick-Kept (expiring i) rest s p k

Step-IsKept : (s t : System) → Step s t → IsKept s → IsKept t
Step-IsKept _ _ (by_open key s) k = open_once-IsKept key s k
Step-IsKept _ _ (by_created i value hooks rest s p) k = created-IsKept i value hooks rest s p k
Step-IsKept _ _ (by_create_failed i error rest s p) k = create_failed-IsKept i error rest s p k
Step-IsKept _ _ (by_woke i rest s p) k = woke-IsKept i rest s p k
Step-IsKept _ _ (by_wake_panic i error rest s p) k = wake_panic-IsKept i error rest s p k
Step-IsKept _ _ (by_done i s m) k = release-IsKept i s m k
Step-IsKept _ _ (by_drop i rest s p) k = drop_once-IsKept i rest s p k
Step-IsKept _ _ (by_slept i rest s p) k = slept-IsKept i rest s p k
Step-IsKept _ _ (by_sleep_panic i rest s p) k = sleep_panic-IsKept i rest s p k
Step-IsKept _ _ (by_expire i rest s p) k = expire-IsKept i rest s (expired-IsKept i rest s p k)
Step-IsKept _ _ (by_timer i s) k = expire-IsKept i s.works s k
Step-IsKept _ _ (by_closed i rest s p) k = closed-IsKept i rest s p k
Step-IsKept _ _ (by_swapped i c n rest s p) k = swapped-IsKept i c n rest s p k
Step-IsKept _ _ (by_closed_behind i c rest s p) k = closed_behind-IsKept i c rest s p k
Step-IsKept _ _ (by_readied i n rest s p) k = readied-IsKept i n rest s p k
Step-IsKept _ _ (by_disposed i expired rest s p) k = disposed-IsKept i expired rest s p k
Step-IsKept _ _ (by_unbound i rest s p) k = unbound-IsKept i rest s p k
Step-IsKept _ _ (by_names aliases s) k = k

nothing : (b : Bool) → if_ready b 0 + 0 + 0 ≡ 0
nothing true = omega arith
nothing false = omega arith

start-IsKept : (grace : ℤ) → IsKept (start grace)
unfolding new_table tally count member
start-IsKept grace j =
    let none_made : ltb j 0 ≡ false = ground arith in
    record {
      owned = refl;
      settled = λ n. rw none_made (nothing (n == 0));
      debts_gone = λ n. omega arith;
      once = omega arith;
      running = omega arith;
      counted = λ e. absurd (omega (arith, e));
      unheld = λ _. refl;
      fresh = λ _. (refl, refl);
    }

pub Reach-IsKept : (grace : ℤ) (s : System) → Reach grace s → IsKept s
Reach-IsKept grace _ at_start = start-IsKept grace
Reach-IsKept grace _ (then_step s t r q) = Step-IsKept s t q (Reach-IsKept grace s r)
