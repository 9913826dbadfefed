-- ===== src/Reclaim/System/Locked.antt =====
-- reclaim/table.go: what is kept by the sections under the lock that are not the end of a hook.
use traefik_middleware_utili.Reclaim.System.Ends.{unmap-Kept, fewer-Kept}
use traefik_middleware_utili.Reclaim.System.Starts.{
  drop-Kept, bind-Kept, expire-Kept, enforce-Kept, wake_start-Kept, new-Kept, release-Kept,
}
use traefik_middleware_utili.Prelude.{
  Bytes, refl, List, ℕ, Bool, Option, if◌then◌else◌, ltb, none, some, suc, ◌+◌,
}
use traefik_middleware_utili.Reclaim.Table.{
  unmap, unbind, write_slot, release_holder, unmap_locked, make_ready,
}
use traefik_middleware_utili.Reclaim.System.{
  release, unmapped, dropping, closing, closing_behind, sleeping,
}
use traefik_middleware_utili.Reclaim.Values.{member, put_at}
use traefik_middleware_utili.Reclaim.System.Counts.{
  owner, debtor, hooked, closer, waker, count, tally, load_of, ==_refl, count-without,
  count-without_other,
}
use traefik_middleware_utili.Prelude.{
  ℕ, Bool, List, false, true, ◌==◌, ◌∷◌, ◌≡◌, ◌≤◌, arith, inl, inr, Bool-cases,
}
use traefik_middleware_utili.Reclaim.System.{
  Work, dropping, sleeping, closing, closing_behind, Picked, System,
}
use traefik_middleware_utili.Reclaim.System.Counts.{
  load_of, tally, owner, debtor, hooked, closer, waker,
}
use traefik_middleware_utili.Reclaim.System.Kept.{Kept}
use traefik_middleware_utili.Prelude.{if_cases, ◌&&◌}
use traefik_middleware_utili.Prelude.Int.{pos, ◌==ℤ◌}
use traefik_middleware_utili.Reclaim.System.Steps.{IsKept, one_slot, pick-Kept, plain}
use traefik_middleware_utili.Reclaim.System.{
  open_once, after_open, drop_once, after_drop, expire, after_expire,
}
use traefik_middleware_utili.Reclaim.Table.{
  lookup_open, open_found, open_mapped, claim_drop, drop_in, claim_expire, expire_idle, is_asleep,
  SlotState, slot_busy, slot_awake, slot_asleep, slot_gone, expire_skip,
}
use traefik_middleware_utili.Keys.{find}

new_one-IsKept :
    (key : Bytes) (s : System)
    → IsKept s
    → IsKept (after_open key (open_found key none s.table).0 (open_found key none s.table).1 s)
unfolding write_slot put_at tally owner debtor hooked closer waker
new_one-IsKept key s k =
    let c = s.table.next_slot in
    let next : ltb c (c + 1) ≡ true = ground arith in
    let not_yet : ltb c c ≡ false = ground arith in
    one_slot (after_open key (open_found key none s.table).0 (open_found key none s.table).1 s) c
      (rw (==_refl c, next)
        (new-Kept (s.table.slots c) (suc (tally (hooked c) s.works)) true (load_of s s.works c)
          (plain s s.works c) (omega arith) not_yet (k c)))
      (λ j q. let same : ltb j (c + 1) ≡ ltb j c = ground (arith, q) in rw (q, same) (k j))

open_mapped-IsKept :
    (key : Bytes) (i : ℕ) (s : System) (q : SlotState)
    → (s.table.slots i).state ≡ q
    → IsKept s
    → IsKept (after_open key (open_mapped key i q s.table).0 (open_mapped key i q s.table).1 s)
unfolding open_mapped unmap write_slot put_at count tally owner debtor hooked closer waker
open_mapped-IsKept key i s slot_awake e k =
    one_slot
      (after_open key (open_mapped key i slot_awake s.table).0
        (open_mapped key i slot_awake s.table).1 s)
      i (rw (==_refl i) (bind-Kept (s.table.slots i) (load_of s s.works i) e (k i)))
      (λ j q. rw q (k j))
open_mapped-IsKept key i s slot_asleep e k =
    one_slot
      (after_open key (open_mapped key i slot_asleep s.table).0
        (open_mapped key i slot_asleep s.table).1 s)
      i
      (rw (==_refl i)
        (wake_start-Kept (s.table.slots i) (load_of s s.works i) e (plain s s.works i) (k i)))
      (λ j q. rw q (k j))
open_mapped-IsKept key i s slot_busy e k = k
open_mapped-IsKept key i s slot_gone e k = k

pub open_once-IsKept : (key : Bytes) (s : System) → IsKept s → IsKept (open_once key s)
unfolding open_once lookup_open
open_once-IsKept key s k = go (find key s.table.items)
  where
    go :
        (o : Option ℕ)
        → IsKept (after_open key (open_found key o s.table).0 (open_found key o s.table).1 s)
    go none = new_one-IsKept key s k
    go (some i) = open_mapped-IsKept key i s (s.table.slots i).state refl k

pub release-IsKept :
    (i : ℕ) (s : System) → member i s.holders ≡ true → IsKept s → IsKept (release i s)
unfolding release release_holder write_slot put_at tally owner debtor hooked closer waker
release-IsKept i s m k =
    one_slot (release i s) i
      (rw (==_refl i) (
        release-Kept (s.table.slots i) (load_of (release i s) s.works i)
          (rw (count-without i s.holders m) at (k i))))
      (λ j q. rw (q, count-without_other i j s.holders q) (k j))

drop_in-IsKept :
    (i : ℕ) (rest : List Work) (s : System) (q : SlotState)
    → (s.table.slots i).state ≡ q
    → ((j : ℕ) → Kept (s.table.slots j) (load_of s rest j))
    → IsKept (after_drop i (drop_in i q s.table).0 (drop_in i q s.table).1 rest s)
unfolding write_slot put_at tally owner debtor hooked closer waker
drop_in-IsKept i rest s slot_busy e k = k
drop_in-IsKept i rest s slot_asleep e k = k
drop_in-IsKept i rest s slot_gone e k = k
drop_in-IsKept i rest s slot_awake e k = elim (Bool-cases ((s.table.slots i).holders ==ℤ pos 0)) [
  | inl z ↦ rw z (
      one_slot
        (record s {
          table =
              write_slot i (record (make_ready (s.table.slots i)) { state = slot_busy }) s.table;
          works = sleeping i ∷ rest;
        })
        i (rw (==_refl i) (drop-Kept (s.table.slots i) (load_of s rest i) e z (k i)))
        (λ j q. rw q (k j)))
  | inr z ↦ rw z k
]

pub drop_once-IsKept :
    (i : ℕ) (rest : List Work) (s : System)
    → Picked (dropping i) s.works rest
    → IsKept s
    → IsKept (drop_once i rest s)
unfolding drop_once claim_drop tally owner debtor hooked closer waker
drop_once-IsKept i rest s p k =
    drop_in-IsKept i rest s (s.table.slots i).state refl (pick-Kept (dropping i) rest s p k)

pub is_asleep_lem : (q : SlotState) → is_asleep q ≡ true → q ≡ slot_asleep
is_asleep_lem slot_asleep e = refl
is_asleep_lem slot_busy e = cc
is_asleep_lem slot_awake e = cc
is_asleep_lem slot_gone e = cc

pub and_left : (a b : Bool) → (a && b) ≡ true → a ≡ true
and_left true b e = refl
and_left false b e = cc

expire_idle-IsKept :
    (i : ℕ) (key : Bytes) (enforce : Bool) (rest : List Work) (s : System)
    → (s.table.slots i).state ≡ slot_asleep
    → ((j : ℕ) → Kept (s.table.slots j) (load_of s rest j))
    → IsKept (
        after_expire i
          (expire_idle key i enforce s.table).0
          (expire_idle key i enforce s.table).1
          rest
          s)
unfolding write_slot unmap put_at tally owner debtor hooked closer waker
expire_idle-IsKept i key true rest s e k =
    one_slot
      (after_expire i (expire_idle key i true s.table).0 (expire_idle key i true s.table).1 rest s)
      i
      (rw (==_refl i) (enforce-Kept (s.table.slots i) (load_of s rest i) e (plain s rest i) (k i)))
      (λ j q. rw q (k j))
expire_idle-IsKept i key false rest s e k =
    one_slot
      (after_expire i (expire_idle key i false s.table).0 (expire_idle key i false s.table).1 rest
        s)
      i (rw (==_refl i) (expire-Kept (s.table.slots i) (load_of s rest i) e (k i)))
      (λ j q. rw q (k j))

pub expire-IsKept :
    (i : ℕ) (rest : List Work) (s : System)
    → ((j : ℕ) → Kept (s.table.slots j) (load_of s rest j))
    → IsKept (expire i rest s)
unfolding expire claim_expire
expire-IsKept i rest s k =
    if_cases (λ e. IsKept (after_expire i e.0 e.1 rest s))
      (is_asleep (s.table.slots i).state && (s.table.slots i).holders ==ℤ pos 0)
      (expire_idle (s.opened i) i (s.table.slots i).hooks.enforce_close_before_open s.table)
      (expire_skip, s.table)
      (λ e.
        expire_idle-IsKept i (s.opened i) (s.table.slots i).hooks.enforce_close_before_open rest s
          (is_asleep_lem (s.table.slots i).state (and_left _ _ e)) k)
      (λ _. k)

-- `n` is how many Closes of the slot there were.
unmapped-IsKept :
    (i n : ℕ) (rest : List Work) (s : System)
    → (load_of s rest i).closes_run ≤ n
    → Kept
        (s.table.slots i)
        (record (load_of s rest i) { owners = suc (tally (owner i) rest); closes_run = n })
    → ((j : ℕ) → (i == j) ≡ false → Kept (s.table.slots j) (load_of s rest j))
    → IsKept (unmapped i rest s)
unfolding unmapped unmap_locked unbind unmap write_slot put_at tally owner debtor hooked closer
    waker
unmapped-IsKept i n rest s c here there =
    one_slot (unmapped i rest s) i
      (rw (==_refl i) (unmap-Kept (s.table.slots i) (load_of s rest i) n (plain s rest i).1 c here))
      (λ j q. rw q (there j q))

pub closed-IsKept :
    (i : ℕ) (rest : List Work) (s : System)
    → Picked (closing i) s.works rest
    → IsKept s
    → IsKept (unmapped i rest s)
unfolding tally owner debtor hooked closer waker
closed-IsKept i rest s p k =
    let before = pick-Kept (closing i) rest s p k in
    unmapped-IsKept i (suc (tally (closer i) rest)) rest s (omega arith)
      (rw (==_refl i) at (before i)) (λ j q. rw q at (before j))

pub closed_behind-IsKept :
    (i c : ℕ) (rest : List Work) (s : System)
    → Picked (closing_behind i c) s.works rest
    → IsKept s
    → IsKept (unmapped c rest s)
unfolding tally owner debtor hooked closer waker
closed_behind-IsKept i c rest s p k =
    let before = pick-Kept (closing_behind i c) rest s p k in
    unmapped-IsKept c (if i == c then suc (tally (closer c) rest) else tally (closer c) rest) rest s
      (fewer (i == c) (tally (closer c) rest)) (rw (==_refl c) at (before c))
      (λ j q.
        let same = rw q at (before j) in
        fewer-Kept (s.table.slots j) (load_of s rest j)
          (if i == j then suc (tally (closer j) rest) else tally (closer j) rest)
          (fewer (i == j) (tally (closer j) rest)) same)
  where
    fewer : (b : Bool) (n : ℕ) → n ≤ (if b then suc n else n)
    fewer true n = omega arith
    fewer false n = omega arith
