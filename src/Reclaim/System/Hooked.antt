-- ===== src/Reclaim/System/Hooked.antt =====
-- reclaim/table.go: what is kept when a hook has ended.
use traefik_middleware_utili.Reclaim.Table.{close_channel}
use traefik_middleware_utili.Keys.{find}
use traefik_middleware_utili.Reclaim.Aliases.{is_at}
use traefik_middleware_utili.Reclaim.Table.{slot_asleep, asleep_at, armed_at, unmapped_at}
use traefik_middleware_utili.Reclaim.System.{after_park}
use traefik_middleware_utili.Prelude.{Bool, not, if◌then◌else◌}
use traefik_middleware_utili.Prelude.{
  ℕ, if_cases, ◌∙◌, ◌&&◌, Bytes, Option, List, false, true, ◌==◌, ◌∷◌, ◌+◌, ◌≡◌, suc, arith, inl,
  inr, some, none, ltb,
}
use mathlib.Core.Path.{subst}
use traefik_middleware_utili.Reclaim.Values.{Any, put_at}
use traefik_middleware_utili.Reclaim.Table.{
  Hooks, publish_put, write_slot, publish_wake, end_busy_slot, unmap, unbind,
}
use traefik_middleware_utili.Reclaim.System.{
  Work, creating, waking, sleeping, closing, Picked, System, created, woke, create_failed,
  ended_first,
}
use traefik_middleware_utili.Reclaim.System.Counts.{
  load_of, tally, count, owner, debtor, hooked, closer, waker, same_slot, ==_refl, ==_swap,
}
use traefik_middleware_utili.Reclaim.System.Kept.{Kept, one_state}
use traefik_middleware_utili.Reclaim.System.Ends.{
  put-Kept, wake-Kept, end-Kept, swap-Kept, go_on-Kept, equal-Kept, park-Kept,
}
use traefik_middleware_utili.Reclaim.System.Starts.{made_of, new-Kept}
use traefik_middleware_utili.Reclaim.System.Steps.{IsKept, one_slot, pick-Kept, plain}
use traefik_middleware_utili.Reclaim.System.{
  one_close, behind_closer, end_busy_after_panic, parked, slept,
}
use traefik_middleware_utili.Reclaim.System.Kept.{owned_more}
use traefik_middleware_utili.Reclaim.Table.{install_closer, park_asleep}

pub created-IsKept :
    (i : ℕ) (value : Any) (hooks : Hooks) (rest : List Work) (s : System)
    → Picked (creating i) s.works rest
    → IsKept s
    → IsKept (created i value hooks rest s)
unfolding created publish_put write_slot put_at count tally owner debtor hooked closer waker
created-IsKept i value hooks rest s p k =
    let before = pick-Kept (creating i) rest s p k in
    one_slot (created i value hooks rest s) i
      (rw (==_refl i) (
        put-Kept (s.table.slots i) value hooks (load_of s rest i) (plain s rest i)
          (rw (==_refl i) at (before i))))
      (λ j q. rw q (rw q at (before j)))

pub create_failed-IsKept :
    (i : ℕ) (error : Bytes) (rest : List Work) (s : System)
    → Picked (creating i) s.works rest
    → IsKept s
    → IsKept (create_failed i error rest s)
unfolding create_failed end_busy_slot unbind unmap write_slot put_at count tally owner debtor hooked
    closer waker
create_failed-IsKept i error rest s p k =
    let before = pick-Kept (creating i) rest s p k in
    let l = load_of s rest i in
    one_slot (create_failed i error rest s) i
      (rw (==_refl i) (
        equal-Kept _ l (0 + l.closes_run) (0 + l.close_calls) (omega arith) (omega arith) (
          end-Kept (s.table.slots i) (some error) 0 l.wakes l (omega arith)
            (rw (==_refl i) at (before i)))))
      (λ j q. rw q (rw q at (before j)))

pub woke-IsKept :
    (i : ℕ) (rest : List Work) (s : System)
    → Picked (waking i) s.works rest
    → IsKept s
    → IsKept (woke i rest s)
unfolding woke publish_wake write_slot put_at count tally owner debtor hooked closer waker
woke-IsKept i rest s p k =
    let before = pick-Kept (waking i) rest s p k in
    one_slot (woke i rest s) i
      (rw (==_refl i) (
        wake-Kept (s.table.slots i) (load_of s rest i) (plain s rest i)
          (rw (==_refl i) at (before i))))
      (λ j q. rw q (rw q at (before j)))

-- The owner of `i` has given it up to a panic, `n` being who woke it.
ended_first-IsKept :
    (i n : ℕ) (create_err : Option Bytes) (rest : List Work) (s : System)
    → Kept (s.table.slots i) (record (owned_more (load_of s rest i)) { wakes = n })
    → ((j : ℕ) → (i == j) ≡ false → Kept (s.table.slots j) (load_of s rest j))
    → IsKept (ended_first i create_err rest s)
unfolding ended_first end_busy_slot unbind unmap write_slot put_at count tally owner debtor hooked
    closer waker
ended_first-IsKept i n create_err rest s here there =
    let l = load_of s rest i in
    one_slot (ended_first i create_err rest s) i
      (rw (==_refl i) (
        equal-Kept _ (record l { closes_run = suc l.closes_run; close_calls = suc l.close_calls })
          (1 + l.closes_run) (1 + l.close_calls) (omega arith) (omega arith)
          (end-Kept (s.table.slots i) create_err 1 n l (omega arith) here)))
      (λ j q. rw q (there j q))

made_same : (j c : ℕ) → (c == j) ≡ false → ltb j (c + 1) ≡ ltb j c
made_same j c q = ground (arith, q)

behind_closer-IsKept :
    (i n : ℕ) (create_err : Option Bytes) (rest : List Work) (s : System)
    → Kept (s.table.slots i) (record (owned_more (load_of s rest i)) { wakes = n })
    → ((j : ℕ) → (i == j) ≡ false → Kept (s.table.slots j) (load_of s rest j))
    → IsKept (behind_closer i create_err rest s)
unfolding behind_closer install_closer unbind write_slot put_at count tally owner debtor hooked
    closer waker
behind_closer-IsKept i n create_err rest s here there =
    let c = s.table.next_slot in
    let made : ltb i c ≡ true =
      made_of (s.table.slots i) (record (owned_more (load_of s rest i)) { wakes = n }) here
        (omega (arith, here.owned, one_state (s.table.slots i).state)) in
    let apart : (c == i) ≡ false = ground (arith, made) in
    let back : (i == c) ≡ false = ==_swap i c ∙ apart in
    let next : ltb c (c + 1) ≡ true = ground arith in
    let not_yet : ltb c c ≡ false = ground arith in
    one_slot (behind_closer i create_err rest s) i
      (rw (==_refl i, apart, made_same i c apart)
        (swap-Kept (s.table.slots i) create_err n (load_of s rest i) here))
      (λ j q. elim (same_slot c j) [
        | inl e ↦
            subst
              (λ m. Kept ((behind_closer i create_err rest s).table.slots m) (
                load_of (behind_closer i create_err rest s)
                  (behind_closer i create_err rest s).works m))
              e
              (rw (==_refl c, back, next)
                (new-Kept (s.table.slots c) (tally (hooked c) rest) false (load_of s rest c)
                  (plain s rest c) (omega arith) not_yet (there c back)))
        | inr r ↦ rw (q, r, made_same j c r) (there j q)
      ])

pub after_panic-IsKept :
    (i n : ℕ) (create_err : Option Bytes) (rest : List Work) (s : System)
    → Kept (s.table.slots i) (record (owned_more (load_of s rest i)) { wakes = n })
    → ((j : ℕ) → (i == j) ≡ false → Kept (s.table.slots j) (load_of s rest j))
    → IsKept (end_busy_after_panic i create_err rest s)
unfolding end_busy_after_panic
after_panic-IsKept i n create_err rest s here there =
    if_cases IsKept (s.table.slots i).hooks.enforce_close_before_open
      (behind_closer i create_err rest s) (ended_first i create_err rest s)
      (λ _. behind_closer-IsKept i n create_err rest s here there)
      (λ _. ended_first-IsKept i n create_err rest s here there)

pub wake_panic-IsKept :
    (i : ℕ) (error : Bytes) (rest : List Work) (s : System)
    → Picked (waking i) s.works rest
    → IsKept s
    → IsKept (end_busy_after_panic i (some error) rest s)
unfolding tally owner debtor hooked closer waker
wake_panic-IsKept i error rest s p k =
    let before = pick-Kept (waking i) rest s p k in
    after_panic-IsKept i (suc (tally (waker i) rest)) (some error) rest s
      (rw (==_refl i) at (before i)) (λ j q. rw q at (before j))

pub sleep_panic-IsKept :
    (i : ℕ) (rest : List Work) (s : System)
    → Picked (sleeping i) s.works rest
    → IsKept s
    → IsKept (end_busy_after_panic i none rest s)
unfolding tally owner debtor hooked closer waker
sleep_panic-IsKept i rest s p k =
    let before = pick-Kept (sleeping i) rest s p k in
    after_panic-IsKept i (tally (waker i) rest) none rest s (rw (==_refl i) at (before i))
      (λ j q. rw q at (before j))

go_on-IsKept :
    (i : ℕ) (rest : List Work) (s : System)
    → Picked (sleeping i) s.works rest
    → IsKept s
    → IsKept (record s { works = closing i ∷ rest; closes = one_close i s })
unfolding put_at tally owner debtor hooked closer waker
go_on-IsKept i rest s p k =
    let before = pick-Kept (sleeping i) rest s p k in
    one_slot (record s { works = closing i ∷ rest; closes = one_close i s }) i
      (rw (==_refl i) (
        go_on-Kept (s.table.slots i) (load_of s rest i) (plain s rest i)
          (rw (==_refl i) at (before i))))
      (λ j q. rw q (rw q at (before j)))

parked-IsKept :
    (i : ℕ) (rest : List Work) (s : System)
    → Picked (sleeping i) s.works rest
    → IsKept s
    → IsKept (parked i rest s)
unfolding parked park_asleep close_channel write_slot put_at tally owner debtor hooked closer waker
parked-IsKept i rest s p k =
    if_cases (λ r. IsKept (after_park i r rest s)) (not (is_at i (find (s.opened i) s.table.items)))
      (false, asleep_at i s.table)
      (if s.table.grace == 0
        then (false, unmapped_at (s.opened i) i s.table)
        else (true, armed_at i s.table))
      (λ _.
        one_slot (after_park i (false, asleep_at i s.table) rest s) i
          (rw (==_refl i) (here (s.table.slots i).grace_timer)) there)
      (λ _.
        if_cases (λ r. IsKept (after_park i r rest s)) (s.table.grace == 0)
          (false, unmapped_at (s.opened i) i s.table) (true, armed_at i s.table)
          (λ _.
            one_slot (after_park i (false, unmapped_at (s.opened i) i s.table) rest s) i
              (rw (==_refl i) (here (s.table.slots i).grace_timer)) there)
          (λ _.
            one_slot (after_park i (true, armed_at i s.table) rest s) i (rw (==_refl i) (here true))
              (λ j q. rw q (rw q at (before j)))))
  where
    before : (j : ℕ) → Kept (s.table.slots j) (load_of s (sleeping i ∷ rest) j)
    before = pick-Kept (sleeping i) rest s p k

    here :
        (armed : Bool)
        → Kept
            (record (close_channel
              (s.table.slots i).ready
              (record (s.table.slots i) { state = slot_asleep })) { grace_timer = armed })
            (load_of s rest i)
    here armed =
        park-Kept (s.table.slots i) armed (load_of s rest i) (plain s rest i)
          (rw (==_refl i) at (before i))

    there : (j : ℕ) → (i == j) ≡ false → Kept ((asleep_at i s.table).slots j) (load_of s rest j)
    there j q = rw q (rw q at (before j))

pub slept-IsKept :
    (i : ℕ) (rest : List Work) (s : System)
    → Picked (sleeping i) s.works rest
    → IsKept s
    → IsKept (slept i rest s)
unfolding slept
slept-IsKept i rest s p k =
    if_cases IsKept ((s.table.slots i).hooks.enforce_close_before_open && s.table.grace == 0)
      (record s { works = closing i ∷ rest; closes = one_close i s }) (parked i rest s)
      (λ _. go_on-IsKept i rest s p k) (λ _. parked-IsKept i rest s p k)
